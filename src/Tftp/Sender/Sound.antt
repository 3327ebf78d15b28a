-- ===== src/Tftp/Sender/Sound.antt =====
-- What `sendfile` sends, whatever comes in: the segments of the file's wire form under their
-- block numbers, in lock step with the acknowledgements.
use netkit.Base.{
  All, ℕ, zero, sym, suc, ◌+◌, ◌%◌, ◌^◌, ◌<◌, ◌≡◌, refl, inl, inr, Bool, true, false, List, [], ◌∷◌,
  length, arith, ◌==◌, ◌&&◌, ◌≤◌, Bool-cases, leb, if◌then◌else◌,
}
use netkit.Tftp.Buffers.{Subs, Input, segsize}
use netkit.Tftp.Buffers.Netascii.{wire}
use netkit.Tftp.Buffers.Encode.{Reading, read_ahead-Reading, readit_lem, r_init-Reading}
use netkit.Tftp.Packet.{
  Packet, data_packet, Event, Turn, alarm, fault, packet, runt, op_ack, op_error,
}
use netkit.Tftp.Segments.{
  after, segment, length-segment-le, segment_packet, IsGenuine, Has, AllFull,
}
use netkit.Tftp.Sender.{
  Sender, Outcome, running, finished, aborted, exited, send_data, send_segment, send_next, on_alarm,
  acked, on_packet, step, run_from, sendfile, next_block_number, start,
}

-- Each of the packets of the first `k` segments has been sent.
abbrev pub SentBelow : List ℕ → ℕ → List Packet → Type 0
SentBelow xs zero sent = Unit
SentBelow xs (suc k) sent = SentBelow xs k sent × Has (segment_packet xs k) sent

-- The sender is about to send segment `k` of `xs`, or to send it again.
pub record Sending (xs : List ℕ) (k : ℕ) (s : Sender) : Type 0 where
  pub number : s.block ≡ (k + 1) % 2 ^ 16
  pub at_body : s.body ≡ segment k xs
  pub at_count : s.count ≡ length (segment k xs)
  pub reading : Reading s.subs s.input s.convert (after (suc k) xs)
  pub fulls : AllFull xs k
  pub earlier : SentBelow xs k s.sent
  pub genuine : All (IsGenuine xs k) s.sent

-- An event that acknowledges segment `k`.
abbrev pub is_ack_of : ℕ → Event → Bool
is_ack_of k (packet opcode blk _) = opcode == op_ack && blk == (k + 1) % 2 ^ 16
is_ack_of k (runt _ opcode blk) = opcode == op_ack && blk == (k + 1) % 2 ^ 16
is_ack_of k alarm = false
is_ack_of k fault = false

-- The segments that are acknowledged, each behind the one before it, if the first `k` are.
unfoldable pub acknowledged : ℕ → List Turn → ℕ
acknowledged k [] = k
acknowledged k (t ∷ ts) = acknowledged (if is_ack_of k t.event then suc k else k) ts

-- What holds of the packets that were sent, at each of the loop's ways to stand or to end, with
-- the first `k` segments acknowledged: no segment behind segment `k` was sent.
abbrev pub GoodAt : List ℕ → ℕ → Outcome → Type 0
GoodAt xs k (running s) = Sending xs k s × SentBelow xs (suc k) s.sent
GoodAt xs k (finished s) =
    (j : ℕ) × (k ≡ suc j)
    × (length (segment j xs) < segsize)
    × AllFull xs j
    × SentBelow xs k s.sent
    × All (IsGenuine xs j) s.sent
GoodAt xs k (aborted s) = AllFull xs k × All (IsGenuine xs k) s.sent
GoodAt xs k (exited s) = AllFull xs k × All (IsGenuine xs k) s.sent

-- The same, with the acknowledgements taken from what came in.
abbrev pub Good : List ℕ → List Turn → Outcome → Type 0
Good xs turns o = (k : ℕ) × (k ≤ acknowledged 0 turns) × GoodAt xs k o

SentBelow-cons :
    (xs : List ℕ) (k : ℕ) (p : Packet) (sent : List Packet)
    → SentBelow xs k sent
    → SentBelow xs k (p ∷ sent)
SentBelow-cons xs zero p sent h = tt
SentBelow-cons xs (suc k) p sent h = (SentBelow-cons xs k p sent h.0, inr h.1)

All-IsGenuine-suc :
    (xs : List ℕ) (k : ℕ) (sent : List Packet)
    → All (IsGenuine xs k) sent
    → All (IsGenuine xs (suc k)) sent
All-IsGenuine-suc xs k [] h = tt
All-IsGenuine-suc xs k (p ∷ sent) ((j, le, e), h) =
    ((j, omega arith, e), All-IsGenuine-suc xs k sent h)

-- `send_data` sends the current segment.
send_data-Good :
    {xs : List ℕ} {k : ℕ} {s : Sender} (sends : Bool)
    → Sending xs k s
    → GoodAt xs k (send_data s sends)
unfolding send_data
send_data-Good {xs} {k} {s} true w = (
  record {
    number = w.number;
    at_body = w.at_body;
    at_count = w.at_count;
    reading = (read_ahead-Reading w.reading).0;
    fulls = w.fulls;
    earlier = SentBelow-cons xs k _ s.sent w.earlier;
    genuine = ((k, omega arith, this), w.genuine);
  },
  (SentBelow-cons xs k _ s.sent w.earlier, inl (sym this)),
)
  where
    this : data_packet s.block s.body ≡ segment_packet xs k
    this = unfold segment_packet in cc (w.number, w.at_body)
send_data-Good {xs} {k} {s} false w = (w.fulls, w.genuine)

-- What `send_next` starts from: the first `k` segments are sent and acknowledged.
pub record Between (xs : List ℕ) (k : ℕ) (s : Sender) : Type 0 where
  pub number : s.block ≡ (k + 1) % 2 ^ 16
  pub reading : Reading s.subs s.input s.convert (after k xs)
  pub fulls : AllFull xs k
  pub earlier : SentBelow xs k s.sent
  pub genuine : All (IsGenuine xs k) s.sent

pub send_next-Good :
    {xs : List ℕ} {k : ℕ} {s : Sender} (errno : ℕ) (sends : Bool)
    → Between xs k s
    → GoodAt xs k (send_next errno s sends)
unfolding segment after send_next
send_next-Good {xs} {k} {s} errno sends w =
    rw ((readit_lem w.reading).0, send_next)
      (unfold send_segment in
        send_data-Good {k = k} sends (record {
          number = w.number;
          at_body = refl;
          at_count = refl;
          reading = (readit_lem w.reading).2;
          fulls = w.fulls;
          earlier = w.earlier;
          genuine = w.genuine;
        }))

next_number : (k : ℕ) → next_block_number ((k + 1) % 2 ^ 16) ≡ (suc k + 1) % 2 ^ 16
next_number k = omega arith

pub start-Between :
    (subs : Subs) (input : Input) (convert : Bool)
    → input.broken ≡ false
    → Between (wire convert input.rest) 0 (start subs input convert)
unfolding start after
start-Between subs input convert h = record {
  number = refl;
  reading = r_init-Reading subs input convert h;
  fulls = tt;
  earlier = tt;
  genuine = tt;
}

-- The acknowledgement of a full segment.
pub onward :
    {xs : List ℕ} {k : ℕ} {s : Sender}
    → Sending xs k s
    → SentBelow xs (suc k) s.sent
    → length (segment k xs) ≡ segsize
    → Between xs (suc k) (record s { block = next_block_number s.block })
onward {xs} {k} {s} w below full = record {
  number = rw w.number (next_number k);
  reading = w.reading;
  fulls = (w.fulls, full);
  earlier = below;
  genuine = All-IsGenuine-suc xs k s.sent w.genuine;
}

module _ (errno rexmtval maxtimeout : ℕ) where
  pub acked-Good :
      {xs : List ℕ} {k : ℕ} {s : Sender} (sends : Bool)
      → Sending xs k s
      → SentBelow xs (suc k) s.sent
      → GoodAt xs (suc k) (acked errno rexmtval maxtimeout s sends)
  unfolding acked
  acked-Good {xs} {k} {s} sends w below = elim (Bool-cases (s.count == segsize)) [
    | inl full ↦ rw full (send_next-Good errno sends (onward w below (ground (arith, w.at_count))))
    | inr short ↦
        rw short
          (k, refl, ground (arith, w.at_count, length-segment-le k xs), w.fulls, below, w.genuine)
  ]

  on_packet-Good :
      {xs : List ℕ} {k : ℕ} {s : Sender} (opcode blk : ℕ) (sends : Bool)
      → Sending xs k s
      → SentBelow xs (suc k) s.sent
      → GoodAt xs
          (if opcode == op_ack && blk == (k + 1) % 2 ^ 16 then suc k else k)
          (on_packet errno rexmtval maxtimeout s opcode blk sends)
  unfolding on_packet
  on_packet-Good {xs} {k} {s} opcode blk sends w below = elim (Bool-cases (opcode == op_error)) [
    | inl e ↦
        let a : (opcode == op_ack) ≡ false = ground (arith, e) in rw (e, a) (w.fulls, w.genuine)
    | inr e ↦ elim (Bool-cases (opcode == op_ack)) [
      | inl a ↦ elim (Bool-cases (blk == s.block)) [
        | inl b ↦
            let n : (blk == (k + 1) % 2 ^ 16) ≡ true = ground (arith, b, w.number) in
            rw (e, a, b, n) (acked-Good sends w below)
        | inr b ↦
            let n : (blk == (k + 1) % 2 ^ 16) ≡ false = ground (arith, b, w.number) in
            elim (Bool-cases (blk + 1 == s.block)) [
              | inl c ↦ rw (e, a, b, n, c) (send_data-Good sends w)
              | inr c ↦ rw (e, a, b, n, c) (w, below)
            ]
      ]
      | inr a ↦ rw (e, a) (w, below)
    ]
  ]

  on_alarm-Good :
      {xs : List ℕ} {k : ℕ} {s : Sender} (sends : Bool)
      → Sending xs k s
      → GoodAt xs k (on_alarm errno rexmtval maxtimeout s sends)
  unfolding on_alarm
  on_alarm-Good {xs} {k} {s} sends w = elim (Bool-cases (leb maxtimeout (s.timeout + rexmtval))) [
    | inl e ↦ rw e (w.fulls, w.genuine)
    | inr e ↦ rw e (
        send_data-Good sends (record {
          number = w.number;
          at_body = w.at_body;
          at_count = w.at_count;
          reading = w.reading;
          fulls = w.fulls;
          earlier = w.earlier;
          genuine = w.genuine;
        }))
  ]

  step-Good :
      {xs : List ℕ} {k : ℕ} {s : Sender} (e : Event) (sends : Bool)
      → Sending xs k s
      → SentBelow xs (suc k) s.sent
      → GoodAt xs
          (if is_ack_of k e then suc k else k)
          (step errno rexmtval maxtimeout s (record { event = e; sends = sends }))
  unfolding step
  step-Good alarm sends w below = on_alarm-Good sends w
  step-Good fault sends w below = (w.fulls, w.genuine)
  step-Good (packet opcode blk bytes) sends w below = on_packet-Good opcode blk sends w below
  step-Good (runt short opcode blk) sends w below = on_packet-Good opcode blk sends w below

  acknowledged-le : (k : ℕ) (turns : List Turn) → k ≤ acknowledged k turns
  unfolding acknowledged
  acknowledged-le k [] = omega arith
  acknowledged-le k (t ∷ ts) =
      let rest = acknowledged-le (if is_ack_of k t.event then suc k else k) ts in
      ground (arith, rest)

  run_from-Good :
      (xs : List ℕ) (k : ℕ) (o : Outcome) (turns : List Turn)
      → GoodAt xs k o
      → (m : ℕ) × (m ≤ acknowledged k turns)
        × GoodAt xs m (run_from errno rexmtval maxtimeout o turns)
  unfolding run_from acknowledged
  run_from-Good xs k o [] g = (k, omega arith, g)
  run_from-Good xs k (running s) (t ∷ ts) (w, below) =
      run_from-Good xs (if is_ack_of k t.event then suc k else k)
        (step errno rexmtval maxtimeout s t) ts (step-Good t.event t.sends w below)
  run_from-Good xs k (finished s) (t ∷ ts) g = (k, acknowledged-le k (t ∷ ts), g)
  run_from-Good xs k (aborted s) (t ∷ ts) g = (k, acknowledged-le k (t ∷ ts), g)
  run_from-Good xs k (exited s) (t ∷ ts) g = (k, acknowledged-le k (t ∷ ts), g)

  -- From a file that can be read, whatever is received, `sendfile` sends only segments of the
  -- file's wire form under their block numbers; segment `j` is not sent before segments 0 to `j - 1`
  -- were acknowledged by what came in, each one's acknowledgement behind that of the one before it;
  -- and `sendfile` finishes only when every segment, the short last one included, was sent and
  -- acknowledged.
  pub sendfile-Good :
      (subs : Subs) (input : Input) (convert sends : Bool) (turns : List Turn)
      → input.broken ≡ false
      → Good
          (wire convert input.rest)
          turns
          (sendfile errno rexmtval maxtimeout subs input convert sends turns)
  unfolding sendfile
  sendfile-Good subs input convert sends turns h =
      run_from-Good (wire convert input.rest) 0 (send_next errno (start subs input convert) sends)
        turns (send_next-Good errno sends (start-Between subs input convert h))
