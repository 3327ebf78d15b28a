-- ===== src/Tftp/Client/Get/Deliver.antt =====
-- A file on its way from the server's `sendfile` to the client's `recvfile`.
use netkit.Base.{
  All, ℕ, ◌+◌, ◌^◌, ◌<◌, ◌≡◌, ◌∙◌, ◌⊎◌, refl, inl, inr, Bool, false, some, none, List, [], ◌∷◌,
  ◌==◌, Bool-cases,
}
use netkit.Tftp.Buffers.{Subs, Input}
use netkit.Tftp.Buffers.Netascii.{wire}
use netkit.Tftp.Packet.{
  Packet, Event, Short, alarm, fault, packet, runt, empty, one_byte, two_bytes, three_bytes, Turn,
  op_data, op_error,
}
use netkit.Tftp.Segments.{fulls, IsGenuine, AllFull}
use netkit.Tftp.Sender.{sendfile}
use netkit.Tftp.Sender.Sound.{sendfile-Good}
use netkit.Tftp.Transfer.{sent_of, CameFrom, GoodAt-sent, event-FromFile}
use netkit.Tftp.Receiver
use netkit.Tftp.Receiver.{Receiver}
use netkit.Tftp.Receiver.Received.{
  Received, Good, send_ack-Good, numbered-Received, start-Between, start-convert,
}
use netkit.Tftp.Receiver.Sound.{step-Good}
use netkit.Tftp.Receiver.Deliver.{Good-delivered}
use netkit.Tftp.Client.Get
use netkit.Tftp.Client.Get.{Getter, recvfile}
use netkit.Tftp.Client.Get.Same.{
  delivered_by, Like, LikeOutcome, like_running, like_finished, like_aborted, like_timed_out,
  send_ack-Like, on_packet-Like, on_alarm-Like, LikeOutcome-delivered,
}

-- The client stands where a server's `recvfile` may stand that has received segments of the file.
abbrev Tracked : List ℕ → Bool → Get.Outcome → Type 0
Tracked xs convert o = (p : Receiver.Outcome) × LikeOutcome o p × Good xs convert p

-- What `step` starts from.
abbrev Standing : List ℕ → Bool → Getter → Type 0
Standing xs convert g =
    (r : Receiver) × Like g r × (k : ℕ) × (r.convert ≡ convert) × Received xs k r

Standing-Tracked :
    (xs : List ℕ) (convert : Bool) (g : Getter)
    → Standing xs convert g
    → Tracked xs convert (Get.running g)
Standing-Tracked xs convert g (r, l, k, c, w) = (Receiver.running r, like_running l, (k, c, w))

-- A datagram of 1 to 3 bytes, whatever it is read as.
on_runt-Tracked :
    (xs : List ℕ) (convert : Bool) (errno : ℕ) (g : Getter) (short : Short) (opcode blk : ℕ)
    (sends : Bool)
    → Standing xs convert g
    → Tracked xs convert (Get.on_runt errno g short opcode blk sends)
unfolding Get.on_runt Get.accept_runt
on_runt-Tracked xs convert errno g short opcode blk sends (r, l, k, c, w) =
    let stays = Standing-Tracked xs convert g (r, l, k, c, w) in
    elim (Bool-cases (opcode == op_error)) [
      | inl e ↦ rw e (Receiver.aborted r, like_aborted, tt)
      | inr e ↦ elim (Bool-cases (opcode == op_data)) [
        | inr d ↦ rw (e, d) stays
        | inl d ↦ elim (Bool-cases (blk == g.block)) [
          | inl b ↦ rw (e, d, b) (Receiver.aborted r, like_aborted, tt)
          | inr b ↦ elim (Bool-cases (blk + 1 == g.block)) [
            | inl a ↦
                rw (e, d, b, a)
                  (
                    Receiver.send_ack r sends,
                    send_ack-Like g r sends l,
                    send_ack-Good {k = k} sends c w,
                  )
            | inr a ↦ rw (e, d, b, a) stays
          ]
        ]
      ]
    ]

module _ (xs : List ℕ) (convert : Bool) (small : fulls xs + 1 < 2 ^ 16) (k : ℕ) (sent : List Packet)
    (full : AllFull xs k) (genuine : All (IsGenuine xs k) sent)
    (errno rexmtval maxtimeout : ℕ) where
  step-Tracked :
      (e : Event) (sends : Bool) (g : Getter)
      → Standing xs convert g
      → CameFrom sent (record { event = e; sends = sends })
      → Tracked xs convert
          (Get.step errno rexmtval maxtimeout g (record { event = e; sends = sends }))
  unfolding Get.step Receiver.step
  step-Tracked alarm sends g (r, l, n, c, w) h = (
    Receiver.on_alarm rexmtval maxtimeout r sends,
    on_alarm-Like errno rexmtval maxtimeout g r sends l,
    step-Good xs convert small rexmtval maxtimeout n r alarm sends c w tt,
  )
  step-Tracked fault sends g s h = Standing-Tracked xs convert g s
  step-Tracked (packet opcode blk bytes) sends g (r, l, n, c, w) h =
      let f = event-FromFile xs k sent small full genuine (packet opcode blk bytes) sends h tt in
      (
        Receiver.on_packet r opcode blk bytes sends,
        on_packet-Like g r opcode blk bytes sends l,
        step-Good xs convert small rexmtval maxtimeout n r (packet opcode blk bytes) sends c w f,
      )
  step-Tracked (runt empty opcode blk) sends g s h = Standing-Tracked xs convert g s
  step-Tracked (runt one_byte opcode blk) sends g s h =
      on_runt-Tracked xs convert errno g one_byte opcode blk sends s
  step-Tracked (runt two_bytes opcode blk) sends g s h =
      on_runt-Tracked xs convert errno g two_bytes opcode blk sends s
  step-Tracked (runt three_bytes opcode blk) sends g s h =
      on_runt-Tracked xs convert errno g three_bytes opcode blk sends s

  run_from-Tracked :
      (turns : List Turn) (o : Get.Outcome) (p : Receiver.Outcome)
      → All (CameFrom sent) turns
      → LikeOutcome o p
      → Good xs convert p
      → Tracked xs convert (Get.run_from errno rexmtval maxtimeout o turns)
  unfolding Get.run_from
  run_from-Tracked [] o p h l good = (p, l, good)
  run_from-Tracked (t ∷ ts) _ _ (h, hs) (like_running {g} {r} l) (n, c, w) =
      let (p, l', good) = step-Tracked t.event t.sends g (r, l, n, c, w) h in
      run_from-Tracked ts (Get.step errno rexmtval maxtimeout g t) p hs l' good
  run_from-Tracked (t ∷ ts) _ _ h (like_finished {g} {r} e) good =
      (Receiver.finished r, like_finished e, good)
  run_from-Tracked (t ∷ ts) _ _ h (like_aborted {g} {r}) good =
      (Receiver.aborted r, like_aborted, good)
  run_from-Tracked (t ∷ ts) _ _ h (like_timed_out {g} {r}) good =
      (Receiver.exited r, like_timed_out, good)

  recvfile-Tracked :
      (subs : Subs) (name mode : List ℕ) (sends : Bool) (turns : List Turn)
      → All (CameFrom sent) turns
      → Tracked xs convert
          (Get.recvfile errno rexmtval maxtimeout subs name mode convert sends turns)
  unfolding Get.recvfile Get.first_trip Receiver.numbered Receiver.start
  recvfile-Tracked subs name mode sends turns came =
      let first : Like (Get.first_trip subs name mode convert)
          (Receiver.numbered (Receiver.start subs convert)) =
        record { subs = refl; output = refl; convert = refl; block = refl; timeout = refl } in
      run_from-Tracked turns _ _ came (send_ack-Like _ _ sends first) (
        send_ack-Good {k = 0} sends (start-convert subs convert)
          (numbered-Received (start-Between xs subs convert)))

-- A file that can be read and has fewer than 2 ^ 16 segments goes from the server's `sendfile` to
-- the client's `recvfile` whole or not at all: whatever the server receives, and whichever of its
-- data packets reach the client, lost, repeated and reordered among anything else, datagrams of
-- fewer than 4 bytes included, `recvfile` does not finish, or it has written the file.
pub recvfile_gets :
    (errno rexmtval maxtimeout errno' rexmtval' maxtimeout' : ℕ) (subs subs' : Subs) (input : Input)
    (name mode : List ℕ) (convert sends sends' : Bool) (turns turns' : List Turn)
    → input.broken ≡ false
    → fulls (wire convert input.rest) + 1 < 2 ^ 16
    → All
        (CameFrom (sent_of (sendfile errno rexmtval maxtimeout subs input convert sends turns)))
        turns'
    → let o = recvfile errno' rexmtval' maxtimeout' subs' name mode convert sends' turns' in
      (delivered_by o ≡ none) ⊎ (delivered_by o ≡ some input.rest)
recvfile_gets errno rexmtval maxtimeout errno' rexmtval' maxtimeout' subs subs' input name mode
      convert sends sends' turns turns' readable small came =
    let xs = wire convert input.rest in
    let o = sendfile errno rexmtval maxtimeout subs input convert sends turns in
    let (k, _, at) =
      sendfile-Good errno rexmtval maxtimeout subs input convert sends turns readable in
    let (j, full, genuine) = GoodAt-sent xs k o at in
    let (p, like, good) =
      recvfile-Tracked xs convert small j (sent_of o) full genuine errno' rexmtval' maxtimeout'
        subs' name mode sends' turns' came in
    let same = LikeOutcome-delivered errno' rexmtval' maxtimeout' _ p like in
    elim (Good-delivered rexmtval' maxtimeout' input.rest convert p good) [
      | inl e ↦ inl (same ∙ e)
      | inr e ↦ inr (same ∙ e)
    ]
