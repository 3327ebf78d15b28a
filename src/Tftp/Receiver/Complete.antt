-- ===== src/Tftp/Receiver/Complete.antt =====
-- `recvfile` takes a whole file in when each segment comes in in turn.
use netkit.Base.{
  ℕ, zero, suc, ◌+◌, ◌%◌, ◌^◌, ◌<◌, ◌≡◌, ap, ◌∙◌, Bool, true, some, List, [], ◌∷◌, length, arith,
}
use netkit.Tftp.Buffers.{Subs, segsize, contents}
use netkit.Tftp.Buffers.Netascii.{wire}
use netkit.Tftp.Buffers.Decode.{written-wire}
use netkit.Tftp.Packet.{Turn, packet, op_data}
use netkit.Tftp.Segments.{segment, take-segment, FullFrom, fulls, FullFrom-fulls}
use netkit.Tftp.Receiver.{
  Receiver, after_ack, numbered, send_next_ack, take_in, write_in, finish, accept, on_packet, step,
  run_from, start, recvfile, delivered,
}
use netkit.Tftp.Receiver.Received.{
  Between, Received, finish_written, after_ack-Received, numbered-Received, onward, start-convert,
  start-Between,
}

-- The packets of `m` segments of `xs`, from segment `k` on; each `send` after them goes out.
abbrev pub segments : List ℕ → ℕ → ℕ → List Turn
segments xs k zero = []
segments xs k (suc m) =
    record { event = packet op_data ((k + 1) % 2 ^ 16) (segment k xs); sends = true }
    ∷ segments xs (suc k) m

pub accept_full :
    (xs : List ℕ) (k : ℕ) (r : Receiver)
    → length (segment k xs) ≡ segsize
    → accept r (segment k xs) true ≡ send_next_ack (write_in r (segment k xs)) true
unfolding accept
accept_full xs k r full = ground arith

accept_short :
    (xs : List ℕ) (k : ℕ) (r : Receiver)
    → length (segment k xs) < segsize
    → accept r (segment k xs) true ≡ finish (write_in r (segment k xs))
unfolding accept
accept_short xs k r short = ground arith

module _ (rexmtval maxtimeout : ℕ) where
  -- The packet that is waited for.
  pub step-accept :
      {xs : List ℕ} {k : ℕ} {r : Receiver}
      → Received xs k r
      → step rexmtval maxtimeout r
          (record { event = packet op_data ((k + 1) % 2 ^ 16) (segment k xs); sends = true })
        ≡ accept (take_in r op_data ((k + 1) % 2 ^ 16) (segment k xs)) (segment k xs) true
  unfolding step on_packet
  step-accept {xs} {k} w = ground (arith, w.number, take-segment k xs)

  -- The state in which segment `k` is waited for, and then in the current buffer.
  unfoldable pub waiting : Receiver → Receiver
  waiting r = after_ack (numbered r)

  unfoldable pub taken : List ℕ → ℕ → Receiver → Receiver
  taken xs k r = take_in (waiting r) op_data ((k + 1) % 2 ^ 16) (segment k xs)

  complete_from :
      (file : List ℕ) (convert : Bool) (m k : ℕ) (r : Receiver)
      → r.convert ≡ convert
      → Between (wire convert file) k r
      → FullFrom (wire convert file) k m
      → delivered (
          run_from rexmtval maxtimeout
            (send_next_ack r true)
            (segments (wire convert file) k (suc m)))
        ≡ some file
  unfolding run_from send_next_ack waiting taken
  complete_from file convert zero k r c b short =
      let w = after_ack-Received (numbered-Received b) in
      rw (step-accept w, accept_short (wire convert file) k (taken (wire convert file) k r) short)
        (ap some (ap contents (finish_written c w short) ∙ written-wire convert file))
  complete_from file convert (suc m) k r c b (full, f) =
      let w = after_ack-Received (numbered-Received b) in
      let next = write_in (taken (wire convert file) k r) (segment k (wire convert file)) in
      rw
        (ap (λ o. run_from rexmtval maxtimeout o (segments (wire convert file) (suc k) (suc m)))
          (step-accept w ∙ accept_full (wire convert file) k (taken (wire convert file) k r) full))
        (complete_from file convert m (suc k) next c (onward w full) f)

  -- Whatever the file and its length, when each of its segments comes in in turn, `recvfile`
  -- finishes with the file written.
  pub recvfile_completes :
      (file : List ℕ) (subs : Subs) (convert : Bool)
      → delivered (
          recvfile rexmtval maxtimeout subs convert true
            (segments (wire convert file) 0 (suc (fulls (wire convert file)))))
        ≡ some file
  unfolding recvfile
  recvfile_completes file subs convert =
      complete_from file convert (fulls (wire convert file)) 0 (start subs convert)
        (start-convert subs convert) (start-Between (wire convert file) subs convert)
        (FullFrom-fulls (wire convert file))
