-- ===== src/Tftp/Client/Get/Same.antt =====
-- The client's `recvfile` writes what the server's does.
use netkit.Base.{
  All, ℕ, ◌+◌, ◌%◌, ◌^◌, ◌≡◌, ◌≢◌, refl, ap, Bool, true, false, Option, none, some, List, [], ◌∷◌,
  ◌==◌, leb, take, length, arith, if◌then◌else◌,
}
use netkit.Tftp.Buffers.{size, Subs, segsize, writeit, write_behind, receive, contents}
use netkit.Tftp.Packet.{
  Event, Turn, Short, alarm, fault, packet, runt, empty, one_byte, two_bytes, three_bytes, op_data,
  op_error,
}
use netkit.Tftp.Receiver
use netkit.Tftp.Receiver.{Receiver, delivered}
use netkit.Tftp.Receiver.Received.{IsHarmless}
use netkit.Tftp.Client.Get
use netkit.Tftp.Client.Get.{Getter}

-- The client and the server's receiver hold the same of the file and the transfer.
pub record Like (g : Getter) (r : Receiver) : Type 0 where
  pub subs : g.subs ≡ r.subs
  pub output : g.output ≡ r.output
  pub convert : g.convert ≡ r.convert
  pub block : g.block ≡ r.block
  pub timeout : g.timeout ≡ r.timeout

-- The outcomes that agree; where both have finished, they have written the same.
pub data LikeOutcome : Get.Outcome → Receiver.Outcome → Type 0 where
  like_running :
      {g : Getter} {r : Receiver} → Like g r → LikeOutcome (Get.running g) (Receiver.running r)
  like_finished :
      {g : Getter} {r : Receiver}
      → g.output ≡ r.output
      → LikeOutcome (Get.finished g) (Receiver.finished r)
  like_aborted : {g : Getter} {r : Receiver} → LikeOutcome (Get.aborted g) (Receiver.aborted r)
  like_timed_out : {g : Getter} {r : Receiver} → LikeOutcome (Get.timed_out g) (Receiver.exited r)

Like-write_behind :
    (g : Getter) (r : Receiver)
    → Like g r
    → write_behind g.subs g.output g.convert ≡ write_behind r.subs r.output r.convert
Like-write_behind g r l = simp (l.subs, l.output, l.convert) refl

pub send_ack-Like :
    (g : Getter) (r : Receiver) (sends : Bool)
    → Like g r
    → LikeOutcome (Get.send_ack g sends) (Receiver.send_ack r sends)
unfolding Get.send_ack Receiver.send_ack Receiver.after_ack
send_ack-Like g r false l = like_aborted
send_ack-Like g r true l =
    let w = Like-write_behind g r l in
    like_running (record {
      subs = ap (λ x. x.1) w;
      output = ap (λ x. x.2) w;
      convert = l.convert;
      block = l.block;
      timeout = l.timeout;
    })

send_next_ack-Like :
    (g : Getter) (r : Receiver) (sends : Bool)
    → Like g r
    → LikeOutcome (Get.send_next_ack g sends) (Receiver.send_next_ack r sends)
unfolding Get.send_next_ack Receiver.send_next_ack Receiver.numbered
send_next_ack-Like g r sends l = send_ack-Like _ _ sends (record {
  subs = l.subs;
  output = l.output;
  convert = l.convert;
  block = ap (λ b. (b + 1) % 2 ^ 16) l.block;
  timeout = refl;
})

either_way :
    (b b' : Bool) (o o' : Get.Outcome) (p p' : Receiver.Outcome)
    → b ≡ b'
    → LikeOutcome o p
    → LikeOutcome o' p'
    → LikeOutcome (if b then o else o') (if b' then p else p')
either_way true true o o' p p' e x y = x
either_way false false o o' p p' e x y = y
either_way true false o o' p p' e x y = absurd (ground (arith, e))
either_way false true o o' p p' e x y = absurd (ground (arith, e))

accept-Like :
    (g : Getter) (r : Receiver) (bytes : List ℕ) (sends : Bool)
    → Like g r
    → LikeOutcome (Get.accept g bytes sends) (Receiver.accept r bytes sends)
unfolding Get.accept Receiver.accept Receiver.write_in Receiver.finish Get.close
accept-Like g r bytes sends l =
    let w : writeit g.subs g.output (size (length bytes)) g.convert
        ≡ writeit r.subs r.output (size (length bytes)) r.convert =
      simp (l.subs, l.output, l.convert) refl in
    let n : Like
        (record g {
          subs = (writeit g.subs g.output (size (length bytes)) g.convert).0;
          output = (writeit g.subs g.output (size (length bytes)) g.convert).1;
          amount = g.amount + length bytes;
        })
        (Receiver.write_in r bytes) =
      record {
        subs = ap (λ x. x.0) w;
        output = ap (λ x. x.1) w;
        convert = l.convert;
        block = l.block;
        timeout = l.timeout;
      } in
    either_way (length bytes == segsize) _ _ _ _ _ refl (send_next_ack-Like _ _ sends n)
      (like_finished (ap (λ x. x.2) (Like-write_behind _ _ n)))

pub on_packet-Like :
    (g : Getter) (r : Receiver) (opcode blk : ℕ) (bytes : List ℕ) (sends : Bool)
    → Like g r
    → LikeOutcome
        (Get.on_packet g opcode blk bytes sends)
        (Receiver.on_packet r opcode blk bytes sends)
unfolding Get.on_packet Receiver.on_packet Receiver.take_in
on_packet-Like g r opcode blk bytes sends l =
    let n : Like (record g { subs = receive g.subs (take segsize bytes) })
        (Receiver.take_in r opcode blk (take segsize bytes)) =
      record {
        subs = ap (λ x. receive x (take segsize bytes)) l.subs;
        output = l.output;
        convert = l.convert;
        block = l.block;
        timeout = l.timeout;
      } in
    either_way (opcode == op_error) _ _ _ _ _ refl like_aborted (
      either_way (opcode == op_data) _ _ _ _ _ refl
        (either_way (blk == g.block) (blk == r.block) _ _ _ _ (ap (λ x. blk == x) l.block)
          (accept-Like _ _ _ sends n)
          (either_way (blk + 1 == g.block) (blk + 1 == r.block) _ _ _ _
            (ap (λ x. blk + 1 == x) l.block) (send_ack-Like _ _ sends n) (like_running n)))
        (like_running n))

-- The turns without those on which the client makes `recvfrom` again: it fails, where the server
-- gives up, or it brings no bytes.
unfoldable pub no_faults : List Turn → List Turn
no_faults [] = []
no_faults (t ∷ ts) =
    let rest = no_faults ts in
    elim t.event [
      | alarm ↦ t ∷ rest
      | fault ↦ rest
      | packet opcode blk bytes ↦ t ∷ rest
      | runt short opcode blk ↦ elim short [ empty ↦ rest | _ ↦ t ∷ rest ]
    ]

-- The file, once the loop has ended.
abbrev pub delivered_by : Get.Outcome → Option (List ℕ)
delivered_by (Get.finished g) = some (contents g.output)
delivered_by _ = none

-- A datagram of 1 to 3 bytes that is not read as a data packet.
on_runt-Like :
    (errno : ℕ) (g : Getter) (r : Receiver) (short : Short) (opcode blk : ℕ) (sends : Bool)
    → Like g r
    → opcode ≢ op_data
    → LikeOutcome
        (Get.on_runt errno g short opcode blk sends)
        (Receiver.on_runt r short opcode blk sends)
unfolding Get.on_runt Receiver.on_runt Receiver.take_runt
on_runt-Like errno g r short opcode blk sends l ne =
    let d : (opcode == op_data) ≡ false = ground (arith, ne) in
    let n : Like g (Receiver.take_runt r opcode blk) = record {
      subs = l.subs;
      output = l.output;
      convert = l.convert;
      block = l.block;
      timeout = l.timeout;
    } in
    rw d (either_way (opcode == op_error) _ _ _ _ _ refl like_aborted (like_running n))

module _ (errno rexmtval maxtimeout : ℕ) where
  pub on_alarm-Like :
      (g : Getter) (r : Receiver) (sends : Bool)
      → Like g r
      → LikeOutcome
          (Get.on_alarm errno rexmtval maxtimeout g sends)
          (Receiver.on_alarm rexmtval maxtimeout r sends)
  unfolding Get.on_alarm Receiver.on_alarm
  on_alarm-Like g r sends l =
      let t : g.timeout + rexmtval ≡ r.timeout + rexmtval = ap (λ x. x + rexmtval) l.timeout in
      let n : Like (record g { timeout = g.timeout + rexmtval })
          (record r { timeout = r.timeout + rexmtval }) =
        record {
          subs = l.subs;
          output = l.output;
          convert = l.convert;
          block = l.block;
          timeout = t;
        } in
      either_way (leb maxtimeout (g.timeout + rexmtval)) (leb maxtimeout (r.timeout + rexmtval)) _ _
        _ _ (ap (leb maxtimeout) t) like_timed_out (send_ack-Like _ _ sends n)

  -- One turn, with what is known of the ones behind it.
  turn-Like :
      (e : Event) (sends : Bool) (ts : List Turn) (g : Getter) (r : Receiver)
      → Like g r
      → IsHarmless (record { event = e; sends = sends })
      → ((o : Get.Outcome) (p : Receiver.Outcome)
          → LikeOutcome o p
          → LikeOutcome
              (Get.run_from errno rexmtval maxtimeout o ts)
              (Receiver.run_from rexmtval maxtimeout p (no_faults ts)))
      → LikeOutcome
          (Get.run_from errno rexmtval maxtimeout
            (Get.running g)
            (record { event = e; sends = sends } ∷ ts))
          (Receiver.run_from rexmtval maxtimeout
            (Receiver.running r)
            (no_faults (record { event = e; sends = sends } ∷ ts)))
  unfolding Get.run_from Receiver.run_from Get.step Receiver.step no_faults
  turn-Like alarm sends ts g r l i rest = rest _ _ (on_alarm-Like g r sends l)
  turn-Like fault sends ts g r l i rest = rest _ _ (like_running l)
  turn-Like (packet opcode blk bytes) sends ts g r l i rest =
      rest _ _ (on_packet-Like g r opcode blk bytes sends l)
  turn-Like (runt empty opcode blk) sends ts g r l i rest = rest _ _ (like_running l)
  turn-Like (runt one_byte opcode blk) sends ts g r l i rest =
      rest _ _ (on_runt-Like errno g r one_byte opcode blk sends l i)
  turn-Like (runt two_bytes opcode blk) sends ts g r l i rest =
      rest _ _ (on_runt-Like errno g r two_bytes opcode blk sends l i)
  turn-Like (runt three_bytes opcode blk) sends ts g r l i rest =
      rest _ _ (on_runt-Like errno g r three_bytes opcode blk sends l i)

  stays_finished :
      (g : Getter) (r : Receiver) (ts ts' : List Turn)
      → g.output ≡ r.output
      → LikeOutcome
          (Get.run_from errno rexmtval maxtimeout (Get.finished g) ts)
          (Receiver.run_from rexmtval maxtimeout (Receiver.finished r) ts')
  unfolding Get.run_from Receiver.run_from
  stays_finished g r [] [] e = like_finished e
  stays_finished g r [] (t' ∷ ts') e = like_finished e
  stays_finished g r (t ∷ ts) [] e = like_finished e
  stays_finished g r (t ∷ ts) (t' ∷ ts') e = like_finished e

  stays_aborted :
      (g : Getter) (r : Receiver) (ts ts' : List Turn)
      → LikeOutcome
          (Get.run_from errno rexmtval maxtimeout (Get.aborted g) ts)
          (Receiver.run_from rexmtval maxtimeout (Receiver.aborted r) ts')
  unfolding Get.run_from Receiver.run_from
  stays_aborted g r [] [] = like_aborted
  stays_aborted g r [] (t' ∷ ts') = like_aborted
  stays_aborted g r (t ∷ ts) [] = like_aborted
  stays_aborted g r (t ∷ ts) (t' ∷ ts') = like_aborted

  stays_timed_out :
      (g : Getter) (r : Receiver) (ts ts' : List Turn)
      → LikeOutcome
          (Get.run_from errno rexmtval maxtimeout (Get.timed_out g) ts)
          (Receiver.run_from rexmtval maxtimeout (Receiver.exited r) ts')
  unfolding Get.run_from Receiver.run_from
  stays_timed_out g r [] [] = like_timed_out
  stays_timed_out g r [] (t' ∷ ts') = like_timed_out
  stays_timed_out g r (t ∷ ts) [] = like_timed_out
  stays_timed_out g r (t ∷ ts) (t' ∷ ts') = like_timed_out

  run_from-Like :
      (ts : List Turn) (o : Get.Outcome) (p : Receiver.Outcome)
      → All IsHarmless ts
      → LikeOutcome o p
      → LikeOutcome
          (Get.run_from errno rexmtval maxtimeout o ts)
          (Receiver.run_from rexmtval maxtimeout p (no_faults ts))
  unfolding Get.run_from Receiver.run_from no_faults
  run_from-Like [] o p i l = l
  run_from-Like (t ∷ ts) _ _ (i, is) (like_running {g} {r} l) =
      turn-Like t.event t.sends ts g r l i (λ o p. run_from-Like ts o p is)
  run_from-Like (t ∷ ts) _ _ i (like_finished {g} {r} e) =
      stays_finished g r (t ∷ ts) (no_faults (t ∷ ts)) e
  run_from-Like (t ∷ ts) _ _ i (like_aborted {g} {r}) =
      stays_aborted g r (t ∷ ts) (no_faults (t ∷ ts))
  run_from-Like (t ∷ ts) _ _ i (like_timed_out {g} {r}) =
      stays_timed_out g r (t ∷ ts) (no_faults (t ∷ ts))

  pub LikeOutcome-delivered :
      (o : Get.Outcome) (p : Receiver.Outcome) → LikeOutcome o p → delivered_by o ≡ delivered p
  LikeOutcome-delivered _ _ (like_running {g} {r} l) = refl
  LikeOutcome-delivered _ _ (like_finished {g} {r} e) = ap (λ x. some (contents x)) e
  LikeOutcome-delivered _ _ (like_aborted {g} {r}) = refl
  LikeOutcome-delivered _ _ (like_timed_out {g} {r}) = refl

  -- Where no datagram of fewer than 4 bytes is read as a data packet, the client's `recvfile`
  -- finishes just where the server's does on the same turns, but those on which `recvfrom` fails or
  -- brings no bytes, and has then written the same.
  pub delivered_by-recvfile :
      (subs : Subs) (name mode : List ℕ) (convert sends : Bool) (turns : List Turn)
      → All IsHarmless turns
      → delivered_by (Get.recvfile errno rexmtval maxtimeout subs name mode convert sends turns)
        ≡ delivered (Receiver.recvfile rexmtval maxtimeout subs convert sends (no_faults turns))
  unfolding Get.recvfile Receiver.recvfile Get.first_trip Receiver.send_next_ack Receiver.numbered
      Receiver.start
  delivered_by-recvfile subs name mode convert sends turns harmless =
      let first : Like (Get.first_trip subs name mode convert)
          (Receiver.numbered (Receiver.start subs convert)) =
        record { subs = refl; output = refl; convert = refl; block = refl; timeout = refl } in
      LikeOutcome-delivered _ _ (run_from-Like turns _ _ harmless (send_ack-Like _ _ sends first))
