-- ===== src/Tftp/Buffers/Decode.antt =====
-- `writeit` and `write_behind` put every byte that was received into the file, in order and
-- converted, whatever the segments and however often the buffer is flushed.
use netkit.Base.{
  rev_onto, ℕ, ◌≡◌, refl, ap, sym, Bool, true, false, not, Option, none, some, List, [], ◌∷◌, ◌++◌,
  take, length, arith, if◌then◌else◌, ◌⊎◌, inl, inr, append-nil,
}
use netkit.Tftp.Buffers.{
  Counter, size, alloc, free, Subs, Output, cr, get_bf, set_counter, is_free, is_char, putc,
  put_char, write_all, write_loop, write_behind, receive, writeit, hand_over, w_init, contents,
  nothing,
}
use netkit.Tftp.Buffers.Netascii.{expand, encode, wire}
use netkit.Tftp.Buffers.Encode.{filled}

-- What a flush of `bytes` does to `prevchar` and the file.
pub flush : Bool → List ℕ → Option ℕ × Output → Option ℕ × Output
flush convert bytes (prev, o) =
    if convert then write_loop bytes prev o else (prev, write_all bytes o)

flush-append :
    (convert : Bool) (xs ys : List ℕ) (st : Option ℕ × Output)
    → flush convert (xs ++ ys) st ≡ flush convert ys (flush convert xs st)
unfolding flush write_loop write_all
flush-append true [] ys st = refl
flush-append false [] ys st = refl
flush-append true (x ∷ xs) ys (prev, o) = flush-append true xs ys (some x, put_char prev x o)
flush-append false (x ∷ xs) ys (prev, o) = flush-append false xs ys (prev, putc x o)

flush-nil : (convert : Bool) (st : Option ℕ × Output) → flush convert [] st ≡ st
unfolding flush write_loop write_all
flush-nil true st = refl
flush-nil false st = refl

-- The file as `w_init`'s caller opens it, truncated.
abbrev pub opened : Output
opened = record { before = []; after = [] }

-- The flag and the file after the bytes `bytes`, all flushed.
pub written : Bool → List ℕ → Option ℕ × Output
unfolding flush
written convert bytes = flush convert bytes (none, opened)

pub written-append :
    (convert : Bool) (xs ys : List ℕ)
    → written convert (xs ++ ys) ≡ flush convert ys (written convert xs)
unfolding written
written-append convert xs ys = flush-append convert xs ys (none, opened)

take-length : (xs : List ℕ) → take (length xs) xs ≡ xs
take-length [] = refl
take-length (x ∷ xs) = ap (λ l. x ∷ l) (take-length xs)

length-eq-zero : (xs : List ℕ) → length xs ≡ 0 → xs ≡ []
length-eq-zero [] h = refl
length-eq-zero (x ∷ xs) h = absurd (omega arith)

-- A flush of a full buffer.
pub write_behind-filled :
    (s : Subs) (o : Output) (convert : Bool) (seg : List ℕ)
    → get_bf s s.nextone ≡ filled seg
    → let (_, s', o') = write_behind s o convert in
      (s'.nextone ≡ not s.nextone)
      × (s'.current ≡ s.current)
      × ((get_bf s' s.nextone).counter ≡ free)
      × (get_bf s' (not s.nextone) ≡ get_bf s (not s.nextone))
      × ((s'.prevchar, o') ≡ flush convert seg (s.prevchar, o))
unfolding write_behind flush
write_behind-filled s o convert seg e =
    ground (arith, take-length seg, length-eq-zero seg, flush-nil convert (s.prevchar, o))

-- A flush where the next buffer is the caller's.
write_behind-idle :
    (s : Subs) (o : Output) (convert : Bool)
    → (get_bf s s.nextone).counter ≡ alloc
    → write_behind s o convert ≡ (nothing, s, o)
unfolding write_behind
write_behind-idle s o convert e = ground arith

-- `done` is what the calls of `writeit` have been given. The current buffer is the caller's; the
-- other is free, or holds the last segment, which is not flushed yet.
pub record Writing (s : Subs) (o : Output) (convert : Bool) (done : List ℕ) : Type 0 where
  pub ready : (get_bf s s.current).counter ≡ alloc
  pub stage :
      ((s.nextone ≡ s.current)
        × ((get_bf s (not s.current)).counter ≡ free)
        × ((s.prevchar, o) ≡ written convert done))
      ⊎ ((flushed : List ℕ) × (seg : List ℕ) × (s.nextone ≡ not s.current)
          × (get_bf s (not s.current) ≡ filled seg)
          × (flushed ++ seg ≡ done)
          × ((s.prevchar, o) ≡ written convert flushed))

pub w_init-Writing : (s : Subs) (convert : Bool) → Writing (w_init s) opened convert []
unfolding w_init get_bf written
w_init-Writing s convert = record {
  ready = refl;
  stage = inl (refl, refl, sym (flush-nil convert (none, opened)));
}

-- A flush loses nothing, and leaves nothing to flush.
pub write_behind-Writing :
    {s : Subs} {o : Output} {convert : Bool} {done : List ℕ}
    → Writing s o convert done
    → let (_, s', o') = write_behind s o convert in
      Writing s' o' convert done × ((s'.prevchar, o') ≡ written convert done)
unfolding get_bf written
write_behind-Writing {s} {o} {convert} {done} w = elim w.stage [
  | inl (a, b, c) ↦ ground (arith, w.ready, write_behind-idle s o convert)
  | inr (f, seg, a, b, c, d) ↦ ground (
    arith,
    w.ready,
    write_behind-filled s o convert seg,
    flush-append convert f seg (none, opened),
  )
]

-- The state in which `writeit` looks at the other buffer.
handed : (s : Subs) (bytes : List ℕ) → Subs
handed s bytes = hand_over (receive s bytes) (size (length bytes))

handed_lem :
    (s : Subs) (bytes : List ℕ)
    → ((handed s bytes).current ≡ not s.current)
      × ((handed s bytes).nextone ≡ s.nextone)
      × ((handed s bytes).prevchar ≡ s.prevchar)
      × (get_bf (handed s bytes) s.current ≡ filled bytes)
      × (get_bf (handed s bytes) (not s.current) ≡ get_bf s (not s.current))
unfolding handed hand_over receive get_bf
handed_lem s bytes = ground arith

pub set_counter_lem :
    (s : Subs) (i : Bool) (c : Counter)
    → ((get_bf (set_counter s i c) i).counter ≡ c)
      × (get_bf (set_counter s i c) (not i) ≡ get_bf s (not i))
      × ((set_counter s i c).current ≡ s.current)
      × ((set_counter s i c).nextone ≡ s.nextone)
      × ((set_counter s i c).prevchar ≡ s.prevchar)
unfolding set_counter
set_counter_lem s i c = ground arith

writeit-room :
    (s : Subs) (o : Output) (convert : Bool) (bytes : List ℕ)
    → (get_bf s (not s.current)).counter ≡ free
    → writeit (receive s bytes) o (size (length bytes)) convert
      ≡ (set_counter (handed s bytes) (not s.current) alloc, o)
unfolding writeit handed is_free
writeit-room s o convert bytes e = ground (arith, handed_lem s bytes)

writeit-flush :
    (s : Subs) (o : Output) (convert : Bool) (bytes seg : List ℕ)
    → get_bf s (not s.current) ≡ filled seg
    → writeit (receive s bytes) o (size (length bytes)) convert ≡ (
        let (_, s3, o') = write_behind (handed s bytes) o convert in
        (set_counter s3 s3.current alloc, o'))
unfolding writeit handed is_free
writeit-flush s o convert bytes seg e = ground (arith, handed_lem s bytes)

-- What is received into the current buffer is not written until `writeit` is called.
pub receive-Writing :
    {s : Subs} {o : Output} {convert : Bool} {done : List ℕ} (bytes : List ℕ)
    → Writing s o convert done
    → Writing (receive s bytes) o convert done
unfolding receive get_bf
receive-Writing {s} {o} {convert} {done} bytes w = elim w.stage [
  | inl h ↦ record { ready = ground (arith, w.ready); stage = inl (ground (arith, h)) }
  | inr (f, seg, a, b, c, d) ↦ record {
    ready = ground (arith, w.ready);
    stage = inr (f, seg, ground arith, ground arith, c, ground arith);
  }
]

-- `writeit` takes the bytes that were received into the current buffer.
pub writeit-Writing :
    {s : Subs} {o : Output} {convert : Bool} {done : List ℕ} (bytes : List ℕ)
    → Writing s o convert done
    → let (s', o') = writeit (receive s bytes) o (size (length bytes)) convert in
      Writing s' o' convert (done ++ bytes)
writeit-Writing {s} {o} {convert} {done} bytes w = elim w.stage [
  | inl (a, b, c) ↦
      let h = handed s bytes in
      let l = (handed_lem s bytes) in
      let m = set_counter_lem h (not s.current) alloc in
      rw (writeit-room s o convert bytes b) (record {
        ready = ground (arith, l, m);
        stage =
            inr
              (done, bytes, ground (arith, l, m), ground (arith, l, m), refl, ground (arith, l, m));
      })
  | inr (f, seg, a, b, c, d) ↦
      let h = handed s bytes in
      let s3 = (write_behind h o convert).1 in
      let m = set_counter_lem s3 s3.current alloc in
      let l = handed_lem s bytes in
      let n = write_behind-filled h o convert seg (ground (arith, l)) in
      rw (writeit-flush s o convert bytes seg b) (record {
        ready = ground (arith, l, m, n);
        stage = inr (
          done,
          bytes,
          ground (arith, l, m, n),
          ground (arith, l, m, n),
          refl,
          ground (arith, l, m, n, written-append convert f seg),
        );
      })
]

-- The characters of one byte in netascii put that byte at the end of the file.
put-expand :
    (c : ℕ) (prev : Option ℕ) (before : List ℕ)
    → is_char prev cr ≡ false
    → let (p, o) = write_loop (expand c) prev (record { before = before; after = [] }) in
      (is_char p cr ≡ false) × (o ≡ record { before = c ∷ before; after = [] })
unfolding write_loop expand
put-expand c prev before h = ground arith

write_loop-append :
    (xs ys : List ℕ) (prev : Option ℕ) (o : Output)
    → write_loop (xs ++ ys) prev o ≡ (let (p, o') = write_loop xs prev o in write_loop ys p o')
write_loop-append xs ys prev o = unfold flush in flush-append true xs ys (prev, o)

write_loop-encode :
    (cs : List ℕ) (prev : Option ℕ) (before : List ℕ)
    → is_char prev cr ≡ false
    → (write_loop (encode cs) prev (record { before = before; after = [] })).1
      ≡ record { before = rev_onto cs before; after = [] }
unfolding encode rev_onto
write_loop-encode [] prev before h = unfold write_loop in refl
write_loop-encode (c ∷ cs) prev before h = ground (
  arith,
  write_loop-append (expand c) (encode cs) prev (record { before = before; after = [] }),
  put-expand c prev before h,
  write_loop-encode cs (write_loop (expand c) prev (record { before = before; after = [] })).0
      (c ∷ before),
)

write_all_lem :
    (cs before : List ℕ)
    → write_all cs (record { before = before; after = [] })
      ≡ record { before = rev_onto cs before; after = [] }
unfolding write_all rev_onto putc
write_all_lem [] before = refl
write_all_lem (c ∷ cs) before = write_all_lem cs (c ∷ before)

rev_onto-rev_onto : (xs ys zs : List ℕ) → rev_onto (rev_onto xs ys) zs ≡ rev_onto ys (xs ++ zs)
unfolding rev_onto
rev_onto-rev_onto [] ys zs = refl
rev_onto-rev_onto (x ∷ xs) ys zs = rev_onto-rev_onto xs (x ∷ ys) zs

-- Written and flushed whole, the wire form of a file is that file.
pub written-wire :
    (convert : Bool) (file : List ℕ) → contents (written convert (wire convert file)).1 ≡ file
unfolding written contents wire flush is_char
written-wire true file = rw (write_loop-encode file none [] refl, rev_onto-rev_onto, append-nil)
written-wire false file = rw (write_all_lem, rev_onto-rev_onto, append-nil)
