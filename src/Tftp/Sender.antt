-- ===== src/Tftp/Sender.antt =====
-- `sendfile` of netkit-tftp/tftpd/tftpd.c: the lock step loop that sends a file, one acknowledged
-- segment after the other. A step takes the loop from one `recv` to the next.
pub mod Sound
pub mod Finish
use netkit.Base.{ℕ, ◌+◌, ◌%◌, ◌^◌, Bool, true, false, List, [], ◌∷◌, ◌==◌, leb, if◌then◌else◌}
use netkit.Tftp.Buffers.{Bf, size, Subs, Input, segsize, readit, read_ahead, r_init}
use netkit.Tftp.Packet.{
  Packet, data_packet, Event, Turn, alarm, fault, packet, runt, op_ack, op_error, nak,
}

-- The locals of `sendfile` and the globals that it changes; `sent` has the last packet first.
pub record Sender : Type 0 where
  pub subs : Subs
  pub input : Input
  pub convert : Bool
  pub block : ℕ
  pub body : List ℕ
  pub count : ℕ
  pub timeout : ℕ
  pub sent : List Packet

-- `running` waits in `recv`; `finished` and `aborted` have closed the file; `exited` is `exit (1)`.
pub data Outcome : Type 0 where
  running finished aborted exited : Sender → Outcome

-- `u_int16_t`
abbrev pub next_block_number : ℕ → ℕ
next_block_number b = (b + 1) % 2 ^ 16

-- From `send_data` to `recv`.
pub send_data : Sender → Bool → Outcome
send_data s sends =
    let (subs', input') = read_ahead s.subs s.input s.convert in
    if sends
    then running
        (record s { subs = subs'; input = input'; sent = data_packet s.block s.body ∷ s.sent })
    else aborted s

-- The head of the loop, with what `readit` returned: a count, or an error.
pub send_segment : ℕ → Sender → Bf → Bool → Outcome
unfolding send_data
send_segment errno s b sends = elim b.counter [
  | size n ↦ send_data (record s { body = b.body; count = n; timeout = 0 }) sends
  | _ ↦ aborted (record s { sent = nak (errno + 100) ∷ s.sent })
]

pub send_next : ℕ → Sender → Bool → Outcome
unfolding send_segment
send_next errno s sends =
    let (b, subs', input') = readit s.subs s.input s.convert in
    send_segment errno (record s { subs = subs'; input = input' }) b sends

-- What `sendfile` begins with.
unfoldable pub start : Subs → Input → Bool → Sender
start subs input convert = record {
  subs = r_init subs;
  input = input;
  convert = convert;
  block = 1;
  body = [];
  count = 0;
  timeout = 0;
  sent = [];
}

module _ (errno rexmtval maxtimeout : ℕ) where
  -- The `timer` signal: it gives up, or jumps back before `send_data`.
  pub on_alarm : Sender → Bool → Outcome
  unfolding send_data
  on_alarm s sends =
      let s' = record s { timeout = s.timeout + rexmtval } in
      if leb maxtimeout s'.timeout then exited s' else send_data s' sends

  -- The segment is acknowledged: the loop's end and its test.
  pub acked : Sender → Bool → Outcome
  unfolding send_next
  acked s sends =
      let s' = record s { block = next_block_number s.block } in
      if s.count == segsize then send_next errno s' sends else finished s'

  -- A packet that is no acknowledgement of this block or the last is passed over. In C `block - 1`
  -- is -1 at block 0, which no block number equals.
  pub on_packet : Sender → ℕ → ℕ → Bool → Outcome
  unfolding acked send_data
  on_packet s opcode blk sends =
      if opcode == op_error
      then aborted s
      else if opcode == op_ack
      then (if blk == s.block
          then acked s sends
          else if blk + 1 == s.block
          then send_data s sends
          else running s)
      else running s

  pub step : Sender → Turn → Outcome
  unfolding on_alarm on_packet
  step s t = elim t.event [
    | alarm ↦ on_alarm s t.sends
    | fault ↦ aborted s
    | packet opcode blk _ ↦ on_packet s opcode blk t.sends
    | runt _ opcode blk ↦ on_packet s opcode blk t.sends
  ]

  pub run_from : Outcome → List Turn → Outcome
  unfolding step
  run_from o [] = o
  run_from o (t ∷ ts) = elim o [ running s ↦ run_from (step s t) ts | other ↦ other ]

  -- `sendfile`, from a state of the buffers left by whatever ran before.
  unfoldable pub sendfile : Subs → Input → Bool → Bool → List Turn → Outcome
  unfolding send_next run_from
  sendfile subs input convert sends turns =
      run_from (send_next errno (start subs input convert) sends) turns
