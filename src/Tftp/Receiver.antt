-- ===== src/Tftp/Receiver.antt =====
-- `recvfile` of netkit-tftp/tftpd/tftpd.c: the lock step loop that receives a file. A step takes the
-- loop from one `recv` to the next.
pub mod Received
pub mod Sound
pub mod Deliver
pub mod Complete
pub mod Truncate
use netkit.Base.{
  ℕ, ◌+◌, ◌%◌, ◌^◌, Bool, true, false, List, [], ◌∷◌, ◌==◌, ◌&&◌, leb, if◌then◌else◌, take, length,
  Option, some, none,
}
use netkit.Tftp.Buffers.{
  size, count_of, Subs, Output, segsize, writeit, write_behind, receive, w_init, contents,
}
use netkit.Tftp.Packet.{
  Packet, ack_packet, Event, Turn, Short, alarm, fault, packet, runt, op_data, op_error,
}

-- The first two fields of a packet in a buffer, in host order.
pub record Header : Type 0 where
  pub opcode : ℕ
  pub block : ℕ

-- The locals of `recvfile` and the globals that it changes. `acking` is `ap->th_block`; `here` and
-- `there` are the headers in the current buffer and in the other; `sent` has the last ACK first.
pub record Receiver : Type 0 where
  pub subs : Subs
  pub output : Output
  pub convert : Bool
  pub block : ℕ
  pub acking : ℕ
  pub timeout : ℕ
  pub here : Header
  pub there : Header
  pub sent : List Packet

-- `running` waits in `recv`; `finished` has closed the file and sent the last acknowledgement, and
-- waits for a repeated packet; `aborted` returns without closing; `exited` is `exit (1)`.
pub data Outcome : Type 0 where
  running finished aborted exited : Receiver → Outcome

-- `u_int16_t`
abbrev pub next_block_number : ℕ → ℕ
next_block_number b = (b + 1) % 2 ^ 16

-- From `send_ack` to `recv`, if the `send` goes out.
unfoldable pub after_ack : Receiver → Receiver
after_ack r =
    let (_, subs', output') = write_behind r.subs r.output r.convert in
    record r { subs = subs'; output = output'; sent = ack_packet r.acking ∷ r.sent }

unfoldable pub send_ack : Receiver → Bool → Outcome
unfolding after_ack
send_ack r sends = if sends then running (after_ack r) else aborted r

-- The head of the loop.
unfoldable pub numbered : Receiver → Receiver
numbered r = record r { timeout = 0; acking = r.block; block = next_block_number r.block }

unfoldable pub send_next_ack : Receiver → Bool → Outcome
unfolding numbered send_ack
send_next_ack r sends = send_ack (numbered r) sends

-- Behind the loop: the last flush, and the last acknowledgement, whose `send` is not checked.
unfoldable pub finish : Receiver → Outcome
finish r =
    let (_, subs', output') = write_behind r.subs r.output r.convert in
    finished (record r {
      subs = subs';
      output = output';
      acking = r.block;
      sent = ack_packet r.block ∷ r.sent;
    })

-- `recv` of a packet of at most PKTSIZE bytes into the current buffer.
unfoldable pub take_in : Receiver → ℕ → ℕ → List ℕ → Receiver
take_in r opcode blk bytes = record r {
  subs = receive r.subs bytes;
  here = record { opcode = opcode; block = blk };
}

-- `writeit` of what is in the current buffer: the buffers change places.
unfoldable pub write_in : Receiver → List ℕ → Receiver
write_in r bytes =
    let (subs', output') = writeit r.subs r.output (size (length bytes)) r.convert in
    record r { subs = subs'; output = output'; here = r.there; there = r.here }

-- The data packet that is waited for: `writeit`, and the loop's test. `writeit` returns its count, so
-- the test `size != n - 4` between them never holds.
unfoldable pub accept : Receiver → List ℕ → Bool → Outcome
unfolding write_in send_next_ack finish
accept r bytes sends =
    let r' = write_in r bytes in
    if length bytes == segsize then send_next_ack r' sends else finish r'

-- In C `block - 1` is -1 at block 0, which no block number equals.
unfoldable pub on_packet : Receiver → ℕ → ℕ → List ℕ → Bool → Outcome
unfolding take_in accept send_ack
on_packet r opcode blk packet_bytes sends =
    let bytes = take segsize packet_bytes in
    let r' = take_in r opcode blk bytes in
    if opcode == op_error
    then aborted r'
    else if opcode == op_data
    then (if blk == r.block
        then accept r' bytes sends
        else if blk + 1 == r.block
        then send_ack r' sends
        else running r')
    else running r'

-- `recvfile`, into a file that is open and empty. The server runs one transfer, so the buffers
-- hold the zeros that they began with.
unfoldable pub start : Subs → Bool → Receiver
start subs convert = record {
  subs = w_init subs;
  output = record { before = []; after = [] };
  convert = convert;
  block = 0;
  acking = 0;
  timeout = 0;
  here = record { opcode = 0; block = 0 };
  there = record { opcode = 0; block = 0 };
  sent = [];
}

-- A datagram of fewer than 4 bytes: the bytes behind the header stay, and the header is what the
-- code reads then.
unfoldable pub take_runt : Receiver → ℕ → ℕ → Receiver
take_runt r opcode blk = record r { here = record { opcode = opcode; block = blk } }

-- It is read as the data packet that is waited for: `writeit` takes a negative count and returns it,
-- which is no SEGSIZE, and the loop ends as behind a last segment.
unfoldable pub accept_runt : Receiver → Short → Outcome
unfolding finish
accept_runt r short =
    let (subs', output') = writeit r.subs r.output (count_of short) r.convert in
    finish (record r { subs = subs'; output = output'; here = r.there; there = r.here })

unfoldable pub on_runt : Receiver → Short → ℕ → ℕ → Bool → Outcome
unfolding take_runt accept_runt send_ack
on_runt r short opcode blk sends =
    let r' = take_runt r opcode blk in
    if opcode == op_error
    then aborted r'
    else if opcode == op_data
    then (if blk == r.block
        then accept_runt r' short
        else if blk + 1 == r.block
        then send_ack r' sends
        else running r')
    else running r'

module _ (rexmtval maxtimeout : ℕ) where
  -- The `timer` signal: it gives up, or jumps back before `send_ack`.
  unfoldable pub on_alarm : Receiver → Bool → Outcome
  unfolding send_ack
  on_alarm r sends =
      let r' = record r { timeout = r.timeout + rexmtval } in
      if leb maxtimeout r'.timeout then exited r' else send_ack r' sends

  unfoldable pub step : Receiver → Turn → Outcome
  unfolding on_alarm on_packet on_runt
  step r t = elim t.event [
    | alarm ↦ on_alarm r t.sends
    | fault ↦ aborted r
    | packet opcode blk bytes ↦ on_packet r opcode blk bytes t.sends
    | runt short opcode blk ↦ on_runt r short opcode blk t.sends
  ]

  unfoldable pub run_from : Outcome → List Turn → Outcome
  unfolding step
  run_from o [] = o
  run_from o (t ∷ ts) = elim o [ running r ↦ run_from (step r t) ts | other ↦ other ]

  unfoldable pub recvfile : Subs → Bool → Bool → List Turn → Outcome
  unfolding send_next_ack run_from start
  recvfile subs convert sends turns = run_from (send_next_ack (start subs convert) sends) turns

-- Behind the last acknowledgement: whether it is sent again when a packet of `n` bytes has come in.
-- The packet goes into `buf`, and the test reads `dp`, the current packet buffer.
unfoldable pub resends_last_ack : Receiver → ℕ → Bool
resends_last_ack r n = leb 4 n && (r.here.opcode == op_data && r.block == r.here.block)

-- The file, once `recvfile` has closed it.
abbrev pub delivered : Outcome → Option (List ℕ)
delivered (finished r) = some (contents r.output)
delivered _ = none

-- Whether the last acknowledgement is sent again, once `recvfile` has finished.
abbrev pub resend : Outcome → ℕ → Bool
resend (finished r) n = resends_last_ack r n
resend _ n = false
