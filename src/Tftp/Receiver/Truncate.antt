-- ===== src/Tftp/Receiver/Truncate.antt =====
-- What a datagram of fewer than 4 bytes that is read as a data packet does to a transfer.
use netkit.Base.{
  ℕ, zero, suc, ◌+◌, ◌%◌, ◌^◌, ◌≡◌, ap, ◌∙◌, Bool, true, false, some, List, [], ◌∷◌, length, arith,
}
use netkit.Tftp.Buffers.{Subs, segsize, contents}
use netkit.Tftp.Buffers.Netascii.{wire}
use netkit.Tftp.Buffers.Decode.{written, written-wire}
use netkit.Tftp.Buffers.Runt.{writeit_short}
use netkit.Tftp.Packet.{Short, Turn, packet, runt, op_data}
use netkit.Tftp.Segments.{segment, joined}
use netkit.Tftp.Receiver.{
  Receiver, send_next_ack, take_runt, write_in, finish, accept_runt, on_runt, step, run_from, start,
  recvfile, delivered,
}
use netkit.Tftp.Receiver.Received.{
  Between, Received, after_ack-Received, numbered-Received, onward, start-convert, start-Between,
}
use netkit.Tftp.Receiver.Complete.{accept_full, step-accept, waiting, taken}

-- The packets of `m` segments of `xs`, from segment `k` on, and then a datagram of fewer than 4 bytes
-- that is read as the data packet behind them.
abbrev pub cut_off : Short → List ℕ → ℕ → ℕ → List Turn
cut_off short xs k zero =
    record { event = runt short op_data ((k + 1) % 2 ^ 16); sends = true } ∷ []
cut_off short xs k (suc m) =
    record { event = packet op_data ((k + 1) % 2 ^ 16) (segment k xs); sends = true }
    ∷ cut_off short xs (suc k) m

-- The `m` segments from segment `k` on are full.
abbrev pub AreFull : List ℕ → ℕ → ℕ → Type 0
AreFull xs k zero = Unit
AreFull xs k (suc m) = (length (segment k xs) ≡ segsize) × AreFull xs (suc k) m

module _ (rexmtval maxtimeout : ℕ) where
  step-accept_runt :
      {xs : List ℕ} {k : ℕ} {r : Receiver} (short : Short)
      → Received xs k r
      → step rexmtval maxtimeout r
          (record { event = runt short op_data ((k + 1) % 2 ^ 16); sends = true })
        ≡ accept_runt (take_runt r op_data ((k + 1) % 2 ^ 16)) short
  unfolding step on_runt
  step-accept_runt short w = ground (arith, w.number)

  delivered-accept_runt :
      {xs : List ℕ} {k : ℕ} {r : Receiver} (short : Short) (opcode blk : ℕ)
      → Received xs k r
      → delivered (accept_runt (take_runt r opcode blk) short)
        ≡ some (contents (written r.convert (joined k xs)).1)
  unfolding accept_runt take_runt finish
  delivered-accept_runt short opcode blk w =
      ap (λ o. some (contents o)) (writeit_short short w.writing)

  truncate_from :
      (short : Short) (xs : List ℕ) (convert : Bool) (n m k : ℕ) (r : Receiver)
      → k + m ≡ n
      → r.convert ≡ convert
      → Between xs k r
      → AreFull xs k m
      → delivered (run_from rexmtval maxtimeout (send_next_ack r true) (cut_off short xs k m))
        ≡ some (contents (written convert (joined n xs)).1)
  unfolding run_from send_next_ack waiting taken
  truncate_from short xs convert n zero k r e c b f =
      let w = after_ack-Received (numbered-Received b) in
      let same : k ≡ n = omega (arith, e) in
      rw (step-accept_runt short w) (
        delivered-accept_runt short op_data ((k + 1) % 2 ^ 16) w
        ∙ ap (λ b. some (contents (written b (joined k xs)).1)) c
        ∙ ap (λ j. some (contents (written convert (joined j xs)).1)) same)
  truncate_from short xs convert n (suc m) k r e c b (full, f) =
      let w = after_ack-Received (numbered-Received b) in
      let next = write_in (taken rexmtval maxtimeout xs k r) (segment k xs) in
      rw
        (ap (λ o. run_from rexmtval maxtimeout o (cut_off short xs (suc k) m))
          (step-accept rexmtval maxtimeout w
            ∙ accept_full xs k (taken rexmtval maxtimeout xs k r) full))
        (truncate_from short xs convert n m (suc k) next (omega (arith, e)) c (onward w full) f)

  -- In octet mode, when the first `m` segments of a file, all full, come in in turn, and then a
  -- datagram of fewer than 4 bytes that is read as the data packet of the next one, `recvfile`
  -- finishes, with just those segments written.
  pub recvfile_truncates :
      (file : List ℕ) (subs : Subs) (short : Short) (m : ℕ)
      → AreFull file 0 m
      → delivered (recvfile rexmtval maxtimeout subs false true (cut_off short file 0 m))
        ≡ some (joined m file)
  unfolding recvfile wire
  recvfile_truncates file subs short m f =
      truncate_from short file false m m 0 (start subs false) (omega arith)
        (start-convert subs false) (start-Between file subs false) f
      ∙ ap some (written-wire false (joined m file))
