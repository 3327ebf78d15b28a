-- ===== src/Tftp/Client/Get.antt =====
-- `recvfile` of netkit-tftp/tftp/tftp.c, the client's: it sends the read request on its first trip
-- through the loop, and acknowledgements on the later ones.
pub mod Same
pub mod Deliver
use netkit.Base.{
  ℕ, ◌+◌, ◌%◌, ◌^◌, Bool, true, false, List, [], ◌∷◌, ◌==◌, leb, if◌then◌else◌, take, length,
  Option, some, none,
}
use netkit.Tftp.Buffers.{
  size, count_of, Subs, Output, segsize, writeit, write_behind, receive, w_init, contents,
}
use netkit.Tftp.Packet.{
  Packet, ack_packet, request_packet, Event, Turn, Short, alarm, fault, packet, runt, empty, nak,
  op_rrq, op_data, op_error,
}
use netkit.Tftp.Request.{makerequest}

-- The locals of `recvfile` and the globals that it changes. `next_packet` is what `ap` points at;
-- `sent` has the last packet first.
pub record Getter : Type 0 where
  pub subs : Subs
  pub output : Output
  pub convert : Bool
  pub block : ℕ
  pub amount : ℕ
  pub timeout : ℕ
  pub next_packet : Packet
  pub sent : List Packet

-- `running` waits in `recvfrom`; `finished` has left the loop and `aborted` gone to `abort`, which
-- both close the file; `timed_out` has gone back to the command loop.
pub data Outcome : Type 0 where
  running finished aborted timed_out : Getter → Outcome

-- From `abort` on: the last acknowledgement, whose `sendto` is not checked, and the last flush.
unfoldable pub close : Getter → Getter
close g =
    let (_, subs', output') = write_behind g.subs g.output g.convert in
    record g {
      subs = subs';
      output = output';
      next_packet = ack_packet g.block;
      sent = ack_packet g.block ∷ g.sent;
    }

-- From `send_ack` to `recvfrom`.
unfoldable pub send_ack : Getter → Bool → Outcome
send_ack g sends =
    let (_, subs', output') = write_behind g.subs g.output g.convert in
    if sends
    then running (record g { subs = subs'; output = output'; sent = g.next_packet ∷ g.sent })
    else aborted (close g)

-- The head of the loop on a later trip.
unfoldable pub send_next_ack : Getter → Bool → Outcome
send_next_ack g sends =
    send_ack
      (record g { next_packet = ack_packet g.block; block = (g.block + 1) % 2 ^ 16; timeout = 0 })
      sends

-- The data packet that is waited for: `writeit`, which returns its count, and the loop's test.
unfoldable pub accept : Getter → List ℕ → Bool → Outcome
accept g bytes sends =
    let (subs', output') = writeit g.subs g.output (size (length bytes)) g.convert in
    let g' = record g { subs = subs'; output = output'; amount = g.amount + length bytes } in
    if length bytes == segsize then send_next_ack g' sends else finished (close g')

-- In C `block - 1` is -1 at block 0, which no block number equals.
unfoldable pub on_packet : Getter → ℕ → ℕ → List ℕ → Bool → Outcome
on_packet g opcode blk packet_bytes sends =
    let bytes = take segsize packet_bytes in
    let g' = record g { subs = receive g.subs bytes } in
    if opcode == op_error
    then aborted (close g')
    else if opcode == op_data
    then (if blk == g.block
        then accept g' bytes sends
        else if blk + 1 == g.block
        then send_ack g' sends
        else running g')
    else running g'

-- The first trip.
unfoldable pub first_trip : Subs → List ℕ → List ℕ → Bool → Getter
first_trip subs name mode convert = record {
  subs = w_init subs;
  output = record { before = []; after = [] };
  convert = convert;
  block = 1;
  amount = 0;
  timeout = 0;
  next_packet = request_packet op_rrq (makerequest name mode);
  sent = [];
}

module _ (errno : ℕ) where
  -- A datagram of fewer than 4 bytes, read as the data packet that is waited for: `writeit` returns
  -- its negative count, and `break` leads to `abort`.
  unfoldable pub accept_runt : Getter → Short → Outcome
  accept_runt g short =
      let (subs', output') = writeit g.subs g.output (count_of short) g.convert in
      aborted
        (close (record g { subs = subs'; output = output'; sent = nak (errno + 100) ∷ g.sent }))

  -- A datagram of 1 to 3 bytes. The bytes behind the header stay, and the header is what the code
  -- reads then.
  unfoldable pub on_runt : Getter → Short → ℕ → ℕ → Bool → Outcome
  on_runt g short opcode blk sends =
      if opcode == op_error
      then aborted (close g)
      else if opcode == op_data
      then (if blk == g.block
          then accept_runt g short
          else if blk + 1 == g.block
          then send_ack g sends
          else running g)
      else running g

module _ (errno rexmtval maxtimeout : ℕ) where
  -- The `timer` signal.
  unfoldable pub on_alarm : Getter → Bool → Outcome
  on_alarm g sends =
      let g' = record g { timeout = g.timeout + rexmtval } in
      if leb maxtimeout g'.timeout then timed_out g' else send_ack g' sends

  -- A `recvfrom` that fails, or brings no bytes, is made again.
  unfoldable pub step : Getter → Turn → Outcome
  step g t = elim t.event [
    | alarm ↦ on_alarm g t.sends
    | fault ↦ running g
    | packet opcode blk bytes ↦ on_packet g opcode blk bytes t.sends
    | runt empty _ _ ↦ running g
    | runt short opcode blk ↦ on_runt errno g short opcode blk t.sends
  ]

  unfoldable pub run_from : Outcome → List Turn → Outcome
  run_from o [] = o
  run_from o (t ∷ ts) = elim o [ running g ↦ run_from (step g t) ts | other ↦ other ]

  unfoldable pub recvfile : Subs → List ℕ → List ℕ → Bool → Bool → List Turn → Outcome
  recvfile subs name mode convert sends turns =
      run_from (send_ack (first_trip subs name mode convert) sends) turns
