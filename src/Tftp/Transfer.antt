-- ===== src/Tftp/Transfer.antt =====
-- A file on its way from `sendfile` of one host to `recvfile` of another.
use mathlib.Core.Path.{subst}
use netkit.Base.{
  All, ℕ, ◌+◌, ◌%◌, ◌^◌, ◌<◌, ◌≡◌, ◌≢◌, ap, sym, ◌⊎◌, inl, inr, Bool, false, some, none, List, [],
  ◌∷◌, arith,
}
use netkit.Tftp.Buffers.{Subs, Input}
use netkit.Tftp.Buffers.Netascii.{wire}
use netkit.Tftp.Packet.{Packet, data_packet, Event, alarm, fault, packet, runt, Turn, op_data}
use netkit.Tftp.Segments.{segment, segment_packet, IsGenuine, Has, AllFull, AllFull-le-fulls, fulls}
use netkit.Tftp.Sender.{Outcome, running, finished, aborted, exited, sendfile}
use netkit.Tftp.Sender.Sound.{GoodAt, sendfile-Good}
use netkit.Tftp.Receiver.{recvfile, delivered}
use netkit.Tftp.Receiver.Received.{FromFile, IsHarmless}
use netkit.Tftp.Receiver.Deliver.{recvfile_delivers}

-- The packets that were sent.
abbrev pub sent_of : Outcome → List Packet
sent_of (running s) = s.sent
sent_of (finished s) = s.sent
sent_of (aborted s) = s.sent
sent_of (exited s) = s.sent

-- If it is a data packet then it is one of those that were sent.
abbrev pub CameFrom : List Packet → Turn → Type 0
CameFrom sent t = elim t.event [
  | packet opcode blk bytes ↦ (opcode ≢ op_data) ⊎ Has (data_packet blk bytes) sent
  | _ ↦ Unit
]

abbrev block_of : Packet → ℕ
block_of (data_packet blk bytes) = blk
block_of _ = 0

abbrev bytes_of : Packet → List ℕ
bytes_of (data_packet blk bytes) = bytes
bytes_of _ = []

Has-All : (P : Packet → Type 0) (p : Packet) (sent : List Packet) → Has p sent → All P sent → P p
Has-All P p [] h a = absurd h
Has-All P p (q ∷ sent) (inl e) (a, as') = subst P (sym e) a
Has-All P p (q ∷ sent) (inr h) (a, as') = Has-All P p sent h as'

pub GoodAt-sent :
    (xs : List ℕ) (k : ℕ) (o : Outcome)
    → GoodAt xs k o
    → (j : ℕ) × AllFull xs j × All (IsGenuine xs j) (sent_of o)
GoodAt-sent xs k (running s) (w, below) = (k, w.fulls, w.genuine)
GoodAt-sent xs k (finished s) (j, e, short, full, below, genuine) = (j, full, genuine)
GoodAt-sent xs k (aborted s) g = (k, g.0, g.1)
GoodAt-sent xs k (exited s) g = (k, g.0, g.1)

genuine-segment :
    (xs : List ℕ) (k blk : ℕ) (bytes : List ℕ)
    → fulls xs + 1 < 2 ^ 16
    → AllFull xs k
    → IsGenuine xs k (data_packet blk bytes)
    → (j : ℕ) × (j + 1 < 2 ^ 16) × (blk ≡ j + 1) × (bytes ≡ segment j xs)
unfolding segment_packet
genuine-segment xs k blk bytes small full (j, le, e) =
    let n : blk ≡ (j + 1) % 2 ^ 16 = ap block_of e in
    let k_le = AllFull-le-fulls xs k full in
    (j, omega (arith, small, le, k_le), omega (arith, small, le, k_le, n), ap bytes_of e)

module _ (xs : List ℕ) (k : ℕ) (sent : List Packet) (small : fulls xs + 1 < 2 ^ 16)
    (full : AllFull xs k) (genuine : All (IsGenuine xs k) sent) where
  pub event-FromFile :
      (e : Event) (sends : Bool)
      → CameFrom sent (record { event = e; sends = sends })
      → IsHarmless (record { event = e; sends = sends })
      → FromFile xs (record { event = e; sends = sends })
  event-FromFile alarm sends c i = tt
  event-FromFile fault sends c i = tt
  event-FromFile (runt short opcode blk) sends c i = i
  event-FromFile (packet opcode blk bytes) sends (inl n) i = inl n
  event-FromFile (packet opcode blk bytes) sends (inr h) i = inr (
      genuine-segment xs k blk bytes small full
        (Has-All (IsGenuine xs k) (data_packet blk bytes) sent h genuine))

  all-FromFile :
      (turns : List Turn)
      → All (CameFrom sent) turns
      → All IsHarmless turns
      → All (FromFile xs) turns
  all-FromFile [] h i = tt
  all-FromFile (t ∷ ts) (h, hs) (i, is) =
      (event-FromFile t.event t.sends h i, all-FromFile ts hs is)

module _ (errno rexmtval maxtimeout rexmtval' maxtimeout' : ℕ) where
  -- A file that can be read and has fewer than 2 ^ 16 segments goes from `sendfile` to `recvfile`
  -- whole or not at all: whatever the sender receives, and whichever of its data packets reach the
  -- receiver, lost, repeated and reordered among anything else but datagrams of fewer than 4 bytes
  -- that are read as data packets, `recvfile` does not finish, or it has written the file.
  pub transfer-delivers :
      (subs subs' : Subs) (input : Input) (convert sends sends' : Bool) (turns turns' : List Turn)
      → input.broken ≡ false
      → fulls (wire convert input.rest) + 1 < 2 ^ 16
      → All
          (CameFrom (sent_of (sendfile errno rexmtval maxtimeout subs input convert sends turns)))
          turns'
      → All IsHarmless turns'
      → let o = recvfile rexmtval' maxtimeout' subs' convert sends' turns' in
        (delivered o ≡ none) ⊎ (delivered o ≡ some input.rest)
  transfer-delivers subs subs' input convert sends sends' turns turns' readable small came
        harmless =
      let xs = wire convert input.rest in
      let o = sendfile errno rexmtval maxtimeout subs input convert sends turns in
      let (k, _, g) =
        sendfile-Good errno rexmtval maxtimeout subs input convert sends turns readable in
      let (j, full, genuine) = GoodAt-sent xs k o g in
      recvfile_delivers rexmtval' maxtimeout' input.rest subs' convert sends' turns' small
        (all-FromFile xs j (sent_of o) small full genuine turns' came harmless)
