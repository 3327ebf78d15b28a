-- ===== src/Tftp/Client/Put.antt =====
-- What the client's `sendfile` sends.
use netkit.Base.{
  All, ℕ, ◌+◌, ◌≡◌, ◌≢◌, refl, inl, inr, Bool, true, false, List, [], ◌∷◌, length, arith, ◌==◌,
  Bool-cases, leb,
}
use netkit.Tftp.Buffers.{Subs, Input, segsize}
use netkit.Tftp.Packet.{
  request_packet, Event, Turn, alarm, fault, packet, runt, empty, one_byte, two_bytes, three_bytes,
  op_wrq, op_ack, op_error,
}
use netkit.Tftp.Request.{makerequest}
use netkit.Tftp.Request.RoundTrip.{length-makerequest}
use netkit.Tftp.Client.{
  Client, Outcome, running, stopped, timed_out, send_data, on_alarm, acked, on_packet, step,
  run_from, first_trip, sendfile,
}

-- All that was sent is the request.
abbrev pub OnlyAsks : List ℕ → Outcome → Type 0
OnlyAsks request (running c) = All (λ p. p ≡ request_packet op_wrq request) c.sent
OnlyAsks request (stopped c) = All (λ p. p ≡ request_packet op_wrq request) c.sent
OnlyAsks request (timed_out c) = All (λ p. p ≡ request_packet op_wrq request) c.sent

-- The client stands in its first trip, with a request that is not as long as a full segment.
record Asking (request : List ℕ) (c : Client) : Type 0 where
  short : (c.count == segsize) ≡ false
  packet_lem : c.next_packet ≡ request_packet op_wrq request
  asks : All (λ p. p ≡ request_packet op_wrq request) c.sent

-- The outcome, and the first trip if it goes on.
abbrev Asks : List ℕ → Outcome → Type 0
Asks request (running c) = Asking request c
Asks request (stopped c) = All (λ p. p ≡ request_packet op_wrq request) c.sent
Asks request (timed_out c) = All (λ p. p ≡ request_packet op_wrq request) c.sent

send_data-Asks :
    {request : List ℕ} {c : Client} (sends : Bool)
    → Asking request c
    → Asks request (send_data c sends)
unfolding send_data
send_data-Asks true a = record {
  short = a.short;
  packet_lem = a.packet_lem;
  asks = (a.packet_lem, a.asks);
}
send_data-Asks false a = a.asks

module _ (errno rexmtval maxtimeout : ℕ) where
  on_packet-Asks :
      {request : List ℕ} {c : Client} (opcode blk : ℕ) (sends : Bool)
      → Asking request c
      → Asks request (on_packet errno rexmtval maxtimeout c opcode blk sends)
  unfolding on_packet acked
  on_packet-Asks {request} {c} opcode blk sends a = elim (Bool-cases (opcode == op_error)) [
    | inl e ↦ rw e a.asks
    | inr e ↦ elim (Bool-cases (opcode == op_ack)) [
      | inr k ↦ rw (e, k) a
      | inl k ↦ elim (Bool-cases (blk == c.block)) [
        | inl b ↦ rw (e, k, b, a.short) a.asks
        | inr b ↦ elim (Bool-cases (blk + 1 == c.block)) [
          | inl d ↦ rw (e, k, b, d) (send_data-Asks sends a)
          | inr d ↦ rw (e, k, b, d) a
        ]
      ]
    ]
  ]

  on_alarm-Asks :
      {request : List ℕ} {c : Client} (sends : Bool)
      → Asking request c
      → Asks request (on_alarm errno rexmtval maxtimeout c sends)
  unfolding on_alarm
  on_alarm-Asks {request} {c} sends a = elim (Bool-cases (leb maxtimeout (c.timeout + rexmtval))) [
    | inl e ↦ rw e a.asks
    | inr e ↦ rw e (
        send_data-Asks sends (record { short = a.short; packet_lem = a.packet_lem; asks = a.asks }))
  ]

  step-Asks :
      {request : List ℕ} {c : Client} (e : Event) (sends : Bool)
      → Asking request c
      → Asks request (step errno rexmtval maxtimeout c (record { event = e; sends = sends }))
  unfolding step
  step-Asks alarm sends a = on_alarm-Asks sends a
  step-Asks fault sends a = a
  step-Asks (packet opcode blk bytes) sends a = on_packet-Asks opcode blk sends a
  step-Asks (runt empty opcode blk) sends a = a
  step-Asks (runt one_byte opcode blk) sends a = on_packet-Asks opcode blk sends a
  step-Asks (runt two_bytes opcode blk) sends a = on_packet-Asks opcode blk sends a
  step-Asks (runt three_bytes opcode blk) sends a = on_packet-Asks opcode blk sends a

  run_from-OnlyAsks :
      (request : List ℕ) (o : Outcome) (turns : List Turn)
      → Asks request o
      → OnlyAsks request (run_from errno rexmtval maxtimeout o turns)
  unfolding run_from
  run_from-OnlyAsks request (running c) [] a = a.asks
  run_from-OnlyAsks request (stopped c) [] a = a
  run_from-OnlyAsks request (timed_out c) [] a = a
  run_from-OnlyAsks request (running c) (t ∷ ts) a =
      run_from-OnlyAsks request (step errno rexmtval maxtimeout c t) ts
        (step-Asks t.event t.sends a)
  run_from-OnlyAsks request (stopped c) (t ∷ ts) a = a
  run_from-OnlyAsks request (timed_out c) (t ∷ ts) a = a

  -- Unless the name and the mode have 512 characters together, the client's `sendfile` sends
  -- nothing but its request, whatever the file and whatever the server answers.
  pub sendfile-OnlyAsks :
      (subs : Subs) (input : Input) (name mode : List ℕ) (convert sends : Bool) (turns : List Turn)
      → length name + length mode ≢ 512
      → OnlyAsks
          (makerequest name mode)
          (sendfile errno rexmtval maxtimeout subs input name mode convert sends turns)
  unfolding sendfile first_trip segsize
  sendfile-OnlyAsks subs input name mode convert sends turns ne =
      run_from-OnlyAsks (makerequest name mode)
        (send_data (first_trip errno rexmtval maxtimeout subs input name mode convert) sends) turns
        (send_data-Asks sends (record {
          short = ground (arith, length-makerequest name mode);
          packet_lem = refl;
          asks = tt;
        }))
