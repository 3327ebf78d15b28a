-- ===== src/Tftp/Receiver/Sound.antt =====
-- What `recvfile` makes of genuine packets of a file, lost, repeated and out of order as they may
-- come in: the file.
use netkit.Base.{
  All, ℕ, ◌+◌, ◌%◌, ◌^◌, ◌<◌, ◌≡◌, ◌≢◌, ◌⊎◌, inl, inr, Bool, true, false, List, [], ◌∷◌, take,
  arith, ◌==◌, Bool-cases, leb, ap, ◌∙◌,
}
use netkit.Tftp.Buffers.{Subs, segsize}
use netkit.Tftp.Buffers.Netascii.{wire}
use netkit.Tftp.Packet.{Event, Turn, Short, alarm, fault, packet, runt, op_data, op_error}
use netkit.Tftp.Segments.{segment, take-segment, AllFull-le-fulls, fulls}
use netkit.Tftp.Receiver.{
  Receiver, Outcome, running, finished, aborted, exited, send_next_ack, take_in, accept, on_packet,
  on_runt, on_alarm, step, run_from, start, recvfile,
}
use netkit.Tftp.Receiver.Received.{
  FromFile, Received, Good, send_ack-Good, send_next_ack-Good, start-Between, start-convert,
  accept-Good, take_in-Received, take_runt-Received,
}

module _ (xs : List ℕ) (convert : Bool) (small : fulls xs + 1 < 2 ^ 16) where
  -- The only genuine packet under the number that is waited for is the next segment.
  expected :
      (k j blk : ℕ) (r : Receiver)
      → Received xs k r
      → j + 1 < 2 ^ 16
      → blk ≡ j + 1
      → (blk == r.block) ≡ true
      → j ≡ k
  expected k j blk r w lt e b = ground (arith, w.number, AllFull-le-fulls xs k w.fulls)

  accept-genuine :
      (k : ℕ) (r : Receiver) (opcode blk : ℕ) (bytes : List ℕ) (sends : Bool)
      → r.convert ≡ convert
      → Received xs k r
      → opcode ≡ op_data
      → blk ≡ (k + 1) % 2 ^ 16
      → bytes ≡ segment k xs
      → Good xs convert
          (accept (take_in r opcode blk (take segsize bytes)) (take segsize bytes) sends)
  accept-genuine k r opcode blk bytes sends c w eo eb es =
      rw (eo, eb, es, take-segment k xs) (accept-Good sends c w)

  on_packet-Good :
      (k : ℕ) (r : Receiver) (opcode blk : ℕ) (bytes : List ℕ) (sends : Bool)
      → r.convert ≡ convert
      → Received xs k r
      → (opcode ≢ op_data) ⊎ ((j : ℕ) × (j + 1 < 2 ^ 16) × (blk ≡ j + 1) × (bytes ≡ segment j xs))
      → Good xs convert (on_packet r opcode blk bytes sends)
  unfolding on_packet
  on_packet-Good k r opcode blk bytes sends c w genuine =
      let w' = take_in-Received opcode blk (take segsize bytes) w in
      elim (Bool-cases (opcode == op_error)) [
        | inl e ↦ rw e tt
        | inr e ↦ elim (Bool-cases (opcode == op_data)) [
          | inr d ↦ rw (e, d) (k, c, w')
          | inl d ↦ elim (Bool-cases (blk == r.block)) [
            | inr b ↦ elim (Bool-cases (blk + 1 == r.block)) [
              | inl a ↦ rw (e, d, b, a) (send_ack-Good sends c w')
              | inr a ↦ rw (e, d, b, a) (k, c, w')
            ]
            | inl b ↦
                rw (e, d, b)
                  (elim genuine [
                    | inl o ↦ absurd (o (ground arith))
                    | inr (j, lt, eb, es) ↦
                        let jk = expected k j blk r w lt eb b in
                        accept-genuine k r opcode blk bytes sends c w (ground arith)
                          (ground (arith, w.number)) (es ∙ ap (λ n. segment n xs) jk)
                  ])
          ]
        ]
      ]

  -- A datagram of fewer than 4 bytes that is not read as a data packet.
  on_runt-Good :
      (k : ℕ) (r : Receiver) (short : Short) (opcode blk : ℕ) (sends : Bool)
      → r.convert ≡ convert
      → Received xs k r
      → opcode ≢ op_data
      → Good xs convert (on_runt r short opcode blk sends)
  unfolding on_runt
  on_runt-Good k r short opcode blk sends c w ne =
      let d : (opcode == op_data) ≡ false = ground (arith, ne) in
      elim (Bool-cases (opcode == op_error)) [
        | inl e ↦ rw e tt
        | inr e ↦ rw (e, d) (k, c, take_runt-Received opcode blk w)
      ]

  module _ (rexmtval maxtimeout : ℕ) where
    on_alarm-Good :
        (k : ℕ) (r : Receiver) (sends : Bool)
        → r.convert ≡ convert
        → Received xs k r
        → Good xs convert (on_alarm rexmtval maxtimeout r sends)
    unfolding on_alarm
    on_alarm-Good k r sends c w = elim (Bool-cases (leb maxtimeout (r.timeout + rexmtval))) [
      | inl e ↦ rw e tt
      | inr e ↦ rw e (
          send_ack-Good {k = k} sends c (record {
            number = w.number;
            at_ack = w.at_ack;
            writing = w.writing;
            fulls = w.fulls;
            acks = w.acks;
            stale = w.stale;
          }))
    ]

    pub step-Good :
        (k : ℕ) (r : Receiver) (e : Event) (sends : Bool)
        → r.convert ≡ convert
        → Received xs k r
        → FromFile xs (record { event = e; sends = sends })
        → Good xs convert (step rexmtval maxtimeout r (record { event = e; sends = sends }))
    unfolding step
    step-Good k r alarm sends c w g = on_alarm-Good k r sends c w
    step-Good k r fault sends c w g = tt
    step-Good k r (packet opcode blk bytes) sends c w g =
        on_packet-Good k r opcode blk bytes sends c w g
    step-Good k r (runt short opcode blk) sends c w g =
        on_runt-Good k r short opcode blk sends c w g

    run_from-Good :
        (o : Outcome) (turns : List Turn)
        → All (FromFile xs) turns
        → Good xs convert o
        → Good xs convert (run_from rexmtval maxtimeout o turns)
    unfolding run_from
    run_from-Good o [] f g = g
    run_from-Good (running r) (t ∷ ts) (ft, fs) (k, c, w) =
        run_from-Good (step rexmtval maxtimeout r t) ts fs (step-Good k r t.event t.sends c w ft)
    run_from-Good (finished r) (t ∷ ts) f g = g
    run_from-Good (aborted r) (t ∷ ts) f g = g
    run_from-Good (exited r) (t ∷ ts) f g = g

module _ (rexmtval maxtimeout : ℕ) where
  pub recvfile-Good :
      (file : List ℕ) (subs : Subs) (convert sends : Bool) (turns : List Turn)
      → fulls (wire convert file) + 1 < 2 ^ 16
      → All (FromFile (wire convert file)) turns
      → Good (wire convert file) convert (recvfile rexmtval maxtimeout subs convert sends turns)
  unfolding recvfile
  recvfile-Good file subs convert sends turns small f =
      run_from-Good (wire convert file) convert small rexmtval maxtimeout
        (send_next_ack (start subs convert) sends) turns f
        (send_next_ack-Good sends (start-convert subs convert)
          (start-Between (wire convert file) subs convert))
