-- ===== src/Tftp/Sender/Finish.antt =====
-- `sendfile` gets a whole file across when each segment is acknowledged in turn.
use netkit.Base.{
  ℕ, zero, suc, ◌+◌, ◌%◌, ◌^◌, ◌<◌, ◌≡◌, refl, Bool, true, false, List, [], ◌∷◌, length, arith, ap,
}
use netkit.Tftp.Buffers.{Subs, Input, segsize}
use netkit.Tftp.Buffers.Netascii.{wire}
use netkit.Tftp.Buffers.Encode.{readit_lem}
use netkit.Tftp.Packet.{Turn, packet, op_ack}
use netkit.Tftp.Segments.{segment, FullFrom, fulls, FullFrom-fulls}
use netkit.Tftp.Sender.{
  Sender, Outcome, running, finished, aborted, exited, send_data, send_segment, send_next, acked,
  on_packet, step, run_from, sendfile, start, next_block_number,
}
use netkit.Tftp.Sender.Sound.{Sending, Between, GoodAt, send_next-Good, onward, start-Between}

-- The acknowledgements of `m` segments, from segment `k` on; each `send` after them goes out.
abbrev pub acks : ℕ → ℕ → List Turn
acks k zero = []
acks k (suc m) =
    record { event = packet op_ack ((k + 1) % 2 ^ 16) []; sends = true } ∷ acks (suc k) m

abbrev pub is_running : Outcome → Bool
is_running (running s) = true
is_running _ = false

abbrev pub is_finished : Outcome → Bool
is_finished (finished s) = true
is_finished _ = false

send_next-running :
    {xs : List ℕ} {k : ℕ} {s : Sender} (errno : ℕ)
    → Between xs k s
    → is_running (send_next errno s true) ≡ true
unfolding send_next
send_next-running errno w = rw (readit_lem w.reading).0 (unfold send_segment send_data in refl)

module _ (errno rexmtval maxtimeout : ℕ) where
  -- The acknowledgement of the current segment, where that is full, and where it is the last.
  ack_step_full :
      {xs : List ℕ} {k : ℕ} {s : Sender}
      → Sending xs k s
      → length (segment k xs) ≡ segsize
      → step errno rexmtval maxtimeout s
          (record { event = packet op_ack ((k + 1) % 2 ^ 16) []; sends = true })
        ≡ send_next errno (record s { block = next_block_number s.block }) true
  unfolding step on_packet acked
  ack_step_full w full = ground (arith, w.number, w.at_count)

  ack_step_short :
      {xs : List ℕ} {k : ℕ} {s : Sender}
      → Sending xs k s
      → length (segment k xs) < segsize
      → step errno rexmtval maxtimeout s
          (record { event = packet op_ack ((k + 1) % 2 ^ 16) []; sends = true })
        ≡ finished (record s { block = next_block_number s.block })
  unfolding step on_packet acked
  ack_step_short w short = ground (arith, w.number, w.at_count)

  finish_from :
      (xs : List ℕ) (m k : ℕ) (o : Outcome)
      → GoodAt xs k o
      → is_running o ≡ true
      → FullFrom xs k m
      → is_finished (run_from errno rexmtval maxtimeout o (acks k (suc m))) ≡ true
  unfolding run_from
  finish_from xs m k (finished s) g r f = cc
  finish_from xs m k (aborted s) g r f = cc
  finish_from xs m k (exited s) g r f = cc
  finish_from xs zero k (running s) (w, below) r f = rw (ack_step_short w f)
  finish_from xs (suc m) k (running s) (w, below) r (full, f) =
      let b = onward w below full in
      let s' = record s { block = next_block_number s.block } in
      rw
        (ap (λ o. run_from errno rexmtval maxtimeout o (acks (suc k) (suc m)))
          (ack_step_full w full))
        (finish_from xs m (suc k) (send_next errno s' true) (send_next-Good errno true b)
          (send_next-running errno b) f)

  -- Whatever the file, `sendfile` finishes after as many acknowledgements as it has segments: its
  -- full ones, and the short one at the end.
  pub sendfile-finishes :
      (subs : Subs) (input : Input) (convert : Bool)
      → input.broken ≡ false
      → is_finished (
          sendfile errno rexmtval maxtimeout subs input convert true
            (acks 0 (suc (fulls (wire convert input.rest)))))
        ≡ true
  unfolding sendfile
  sendfile-finishes subs input convert h =
      let b = start-Between subs input convert h in
      finish_from (wire convert input.rest) (fulls (wire convert input.rest)) 0
        (send_next errno (start subs input convert) true) (send_next-Good errno true b)
        (send_next-running errno b) (FullFrom-fulls (wire convert input.rest))
