-- ===== src/Tftp/Client.antt =====
-- `sendfile` of netkit-tftp/tftp/tftp.c, the client's: it sends the write request on its first trip
-- through the loop and is to send the file on the later ones.
pub mod Put
pub mod Get
use netkit.Base.{
  ℕ, ◌+◌, ◌-◌, ◌%◌, ◌^◌, Bool, true, false, List, [], ◌∷◌, ◌==◌, leb, length, if◌then◌else◌,
}
use netkit.Tftp.Buffers.{size, Subs, Input, segsize, readit, read_ahead, r_init}
use netkit.Tftp.Packet.{
  Packet, data_packet, request_packet, Event, Turn, alarm, fault, packet, runt, empty, op_wrq,
  op_ack, op_error, nak,
}
use netkit.Tftp.Request.{makerequest}

-- The locals of `sendfile` and the globals that it changes. `next_packet` is what `dp` points at;
-- `sent` has the last packet first.
pub record Client : Type 0 where
  pub subs : Subs
  pub input : Input
  pub convert : Bool
  pub firsttrip : Bool
  pub block : ℕ
  pub count : ℕ
  pub amount : ℕ
  pub timeout : ℕ
  pub next_packet : Packet
  pub sent : List Packet

-- `running` waits in `recvfrom`; `stopped` has closed the file, at the end of the loop or at
-- `abort`; `timed_out` has gone back to the command loop.
pub data Outcome : Type 0 where
  running stopped timed_out : Client → Outcome

-- From `send_data` to `recvfrom`.
pub send_data : Client → Bool → Outcome
send_data c sends =
    let (subs', input') = read_ahead c.subs c.input c.convert in
    if sends
    then running (record c { subs = subs'; input = input'; sent = c.next_packet ∷ c.sent })
    else stopped c

-- The head of the loop on a later trip.
pub send_next : ℕ → Client → Bool → Outcome
unfolding send_data
send_next errno c sends =
    let (b, subs', input') = readit c.subs c.input c.convert in
    let c' = record c { subs = subs'; input = input' } in
    elim b.counter [
      | size n ↦
          send_data (record c' { count = n; next_packet = data_packet c.block b.body; timeout = 0 })
            sends
      | _ ↦ stopped (record c' { sent = nak (errno + 100) ∷ c.sent })
    ]

module _ (errno rexmtval maxtimeout : ℕ) where
  -- The `timer` signal.
  pub on_alarm : Client → Bool → Outcome
  unfolding send_data
  on_alarm c sends =
      let c' = record c { timeout = c.timeout + rexmtval } in
      if leb maxtimeout c'.timeout then timed_out c' else send_data c' sends

  -- Behind `break`: the first trip ends, or the amount grows; then the loop's test.
  pub acked : Client → Bool → Outcome
  unfolding send_next
  acked c sends =
      let c' = record c {
        firsttrip = false;
        amount = if c.firsttrip then c.amount else c.amount + c.count;
        block = (c.block + 1) % 2 ^ 16;
      } in
      if c.count == segsize then send_next errno c' sends else stopped c'

  pub on_packet : Client → ℕ → ℕ → Bool → Outcome
  unfolding acked send_data
  on_packet c opcode blk sends =
      if opcode == op_error
      then stopped c
      else if opcode == op_ack
      then (if blk == c.block
          then acked c sends
          else if blk + 1 == c.block
          then send_data c sends
          else running c)
      else running c

  -- A `recvfrom` that fails, or brings no bytes, is made again.
  pub step : Client → Turn → Outcome
  unfolding on_alarm on_packet
  step c t = elim t.event [
    | alarm ↦ on_alarm c t.sends
    | fault ↦ running c
    | packet opcode blk _ ↦ on_packet c opcode blk t.sends
    | runt empty _ _ ↦ running c
    | runt _ opcode blk ↦ on_packet c opcode blk t.sends
  ]

  pub run_from : Outcome → List Turn → Outcome
  unfolding step
  run_from o [] = o
  run_from o (t ∷ ts) = elim o [ running c ↦ run_from (step c t) ts | other ↦ other ]

  -- The first trip; `makerequest` also counts the two bytes of the opcode.
  pub first_trip : Subs → Input → List ℕ → List ℕ → Bool → Client
  first_trip subs input name mode convert =
      let request = makerequest name mode in
      record {
        subs = r_init subs;
        input = input;
        convert = convert;
        firsttrip = true;
        block = 0;
        count = length request + 2 - 4;
        amount = 0;
        timeout = 0;
        next_packet = request_packet op_wrq request;
        sent = [];
      }

  pub sendfile : Subs → Input → List ℕ → List ℕ → Bool → Bool → List Turn → Outcome
  unfolding run_from first_trip send_data
  sendfile subs input name mode convert sends turns =
      run_from (send_data (first_trip subs input name mode convert) sends) turns
