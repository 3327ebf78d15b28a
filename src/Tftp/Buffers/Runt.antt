-- ===== src/Tftp/Buffers/Runt.antt =====
-- `writeit` with the count of a datagram of fewer than 4 bytes: nothing of it is written, and nothing
-- that came before it is lost.
use netkit.Base.{ℕ, ◌≡◌, not, inl, inr, Bool, List, arith}
use netkit.Tftp.Packet.{Short, empty, one_byte, two_bytes, three_bytes}
use netkit.Tftp.Buffers.{
  Counter, alloc, Subs, Output, get_bf, set_counter, is_free, hand_over, count_of, writeit,
  write_behind, flush_count,
}
use netkit.Tftp.Buffers.Decode.{
  Writing, written, written-append, write_behind-filled, set_counter_lem,
}

hand_over_lem :
    (s : Subs) (c : Counter)
    → ((hand_over s c).current ≡ not s.current)
      × ((hand_over s c).nextone ≡ s.nextone)
      × ((hand_over s c).prevchar ≡ s.prevchar)
      × ((get_bf (hand_over s c) s.current).counter ≡ c)
      × (get_bf (hand_over s c) (not s.current) ≡ get_bf s (not s.current))
unfolding hand_over get_bf
hand_over_lem s c = ground arith

-- A flush of such a count writes nothing.
write_behind_short :
    (s : Subs) (o : Output) (convert : Bool) (short : Short)
    → (get_bf s s.nextone).counter ≡ count_of short
    → (write_behind s o convert).2 ≡ o
unfolding write_behind flush_count count_of
write_behind_short s o convert empty e = ground (arith, e)
write_behind_short s o convert one_byte e = ground (arith, e)
write_behind_short s o convert two_bytes e = ground (arith, e)
write_behind_short s o convert three_bytes e = ground (arith, e)

pub writeit_short :
    {s : Subs} {o : Output} {convert : Bool} {done : List ℕ} (short : Short)
    → Writing s o convert done
    → let (s', o') = writeit s o (count_of short) convert in
      (write_behind s' o' convert).2 ≡ (written convert done).1
unfolding writeit is_free
writeit_short {s} {o} {convert} {done} short w =
    let c = count_of short in
    let h = hand_over s c in
    let l = hand_over_lem s c in
    elim w.stage [
      | inl (a, b, d) ↦
          let m = set_counter_lem h (not s.current) alloc in
          let s' = set_counter h (not s.current) alloc in
          let q = write_behind_short s' o convert short in ground (arith, a, b, d, l, m, q)
      | inr (f, seg, a, b, d, e) ↦
          let n = write_behind-filled h o convert seg (ground (arith, l, a, b)) in
          let s3 = (write_behind h o convert).1 in
          let m = set_counter_lem s3 s3.current alloc in
          let s' = set_counter s3 s3.current alloc in
          let q = write_behind_short s' (write_behind h o convert).2 convert short in
          ground (arith, a, b, d, e, l, m, n, q, written-append convert f seg)
    ]
