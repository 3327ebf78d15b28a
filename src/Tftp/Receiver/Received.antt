-- ===== src/Tftp/Receiver/Received.antt =====
-- What `recvfile` holds between two packets: the segments of a file that were received, and what
-- each part of its loop makes of them.
use netkit.Base.{
  All, ℕ, suc, ◌+◌, ◌%◌, ◌^◌, ◌≤◌, ◌<◌, ◌≡◌, ◌≢◌, refl, ◌⊎◌, inl, inr, Bool, true, false, List, [],
  ◌∷◌, length, arith, ◌==◌, Bool-cases, ap, ◌∙◌,
}
use netkit.Tftp.Buffers.{size, Subs, segsize, writeit, write_behind, receive}
use netkit.Tftp.Buffers.Decode.{
  Writing, w_init-Writing, write_behind-Writing, receive-Writing, writeit-Writing, written,
}
use netkit.Tftp.Packet.{Packet, ack_packet, Turn, packet, runt, op_data}
use netkit.Tftp.Segments.{segment, joined, joined-short, length-segment-le, AllFull}
use netkit.Tftp.Receiver.{
  Receiver, Outcome, running, finished, aborted, exited, after_ack, numbered, send_ack,
  send_next_ack, take_in, take_runt, write_in, accept, start, resends_last_ack,
}

-- An acknowledgement of at most `k` segments.
abbrev pub IsAck : ℕ → Packet → Type 0
IsAck k p = (j : ℕ) × (j ≤ k) × (p ≡ ack_packet (j % 2 ^ 16))

-- If it is a data packet then it carries a segment of `xs` under its block number; a datagram of
-- fewer than 4 bytes is not read as a data packet.
abbrev pub FromFile : List ℕ → Turn → Type 0
FromFile xs t = elim t.event [
  | runt _ opcode _ ↦ opcode ≢ op_data
  | packet opcode blk bytes ↦
      (opcode ≢ op_data) ⊎ ((j : ℕ) × (j + 1 < 2 ^ 16) × (blk ≡ j + 1) × (bytes ≡ segment j xs))
  | _ ↦ Unit
]

-- If it is a datagram of fewer than 4 bytes then it is not read as a data packet.
abbrev pub IsHarmless : Turn → Type 0
IsHarmless t = elim t.event [ runt _ opcode _ ↦ opcode ≢ op_data | _ ↦ Unit ]

-- What `send_ack` starts from: the first `k` segments are received.
pub record Received (xs : List ℕ) (k : ℕ) (r : Receiver) : Type 0 where
  pub number : r.block ≡ (k + 1) % 2 ^ 16
  pub at_ack : r.acking ≡ k % 2 ^ 16
  pub writing : Writing r.subs r.output r.convert (joined k xs)
  pub fulls : AllFull xs k
  pub acks : All (IsAck k) r.sent
  pub stale : (r.there.opcode ≢ op_data) ⊎ (r.there.block ≡ k % 2 ^ 16)

-- The file at each of the ways of the loop to stand or to end, if its wire form is `xs`.
abbrev pub Good : List ℕ → Bool → Outcome → Type 0
Good xs convert (running r) = (k : ℕ) × (r.convert ≡ convert) × Received xs k r
Good xs convert (finished r) =
    (r.output ≡ (written convert xs).1) × ((n : ℕ) → resends_last_ack r n ≡ false)
Good xs convert (aborted r) = Unit
Good xs convert (exited r) = Unit

-- An acknowledgement says no more than what is received.
pub after_ack-Received :
    {xs : List ℕ} {k : ℕ} {r : Receiver} → Received xs k r → Received xs k (after_ack r)
unfolding after_ack
after_ack-Received {k = k} w = record {
  number = w.number;
  at_ack = w.at_ack;
  writing = (write_behind-Writing w.writing).0;
  fulls = w.fulls;
  acks = ((k, omega arith, ap ack_packet w.at_ack), w.acks);
  stale = w.stale;
}

pub send_ack-Good :
    {xs : List ℕ} {convert : Bool} {k : ℕ} {r : Receiver} (sends : Bool)
    → r.convert ≡ convert
    → Received xs k r
    → Good xs convert (send_ack r sends)
unfolding send_ack
send_ack-Good {k = k} true c w = (k, c, after_ack-Received w)
send_ack-Good false c w = tt

All-IsAck-suc : (k : ℕ) (sent : List Packet) → All (IsAck k) sent → All (IsAck (suc k)) sent
All-IsAck-suc k [] h = tt
All-IsAck-suc k (p ∷ sent) ((j, le, e), h) = ((j, omega arith, e), All-IsAck-suc k sent h)

-- What `send_next_ack` starts from.
pub record Between (xs : List ℕ) (k : ℕ) (r : Receiver) : Type 0 where
  pub number : r.block ≡ k % 2 ^ 16
  writing : Writing r.subs r.output r.convert (joined k xs)
  fulls : AllFull xs k
  acks : All (IsAck k) r.sent
  stale : (r.there.opcode ≢ op_data) ⊎ (r.there.block ≡ k % 2 ^ 16)

pub numbered-Received :
    {xs : List ℕ} {k : ℕ} {r : Receiver} → Between xs k r → Received xs k (numbered r)
unfolding numbered
numbered-Received b = record {
  number = rw b.number (omega arith);
  at_ack = b.number;
  writing = b.writing;
  fulls = b.fulls;
  acks = b.acks;
  stale = b.stale;
}

pub send_next_ack-Good :
    {xs : List ℕ} {convert : Bool} {k : ℕ} {r : Receiver} (sends : Bool)
    → r.convert ≡ convert
    → Between xs k r
    → Good xs convert (send_next_ack r sends)
unfolding send_next_ack
send_next_ack-Good {k = k} sends c b = send_ack-Good {k = k} sends c (numbered-Received b)

pub start-Between : (xs : List ℕ) (subs : Subs) (convert : Bool) → Between xs 0 (start subs convert)
unfolding start joined
start-Between xs subs convert = record {
  number = refl;
  writing = w_init-Writing subs convert;
  fulls = tt;
  acks = tt;
  stale = inl (omega arith);
}

pub start-convert : (subs : Subs) (convert : Bool) → (start subs convert).convert ≡ convert
unfolding start
start-convert subs convert = refl

-- The test for a repeated last packet reads the header of the packet before, if there was one.
no_resend :
    (k : ℕ) (r : Receiver)
    → r.block ≡ (k + 1) % 2 ^ 16
    → (r.here.opcode ≢ op_data) ⊎ (r.here.block ≡ k % 2 ^ 16)
    → (n : ℕ) → resends_last_ack r n ≡ false
unfolding resends_last_ack
no_resend k r b (inl h) n = ground arith
no_resend k r b (inr h) n = ground arith

-- `writeit` of a full segment `k`.
pub onward :
    {xs : List ℕ} {k : ℕ} {r : Receiver}
    → Received xs k r
    → length (segment k xs) ≡ segsize
    → Between xs
        (suc k)
        (write_in (take_in r op_data ((k + 1) % 2 ^ 16) (segment k xs)) (segment k xs))
unfolding write_in take_in joined
onward {xs} {k} {r} w full = record {
  number = rw w.number (omega arith);
  writing = writeit-Writing (segment k xs) w.writing;
  fulls = (w.fulls, full);
  acks = All-IsAck-suc k r.sent w.acks;
  stale = inr (omega arith);
}

-- The last flush, behind a short segment.
pub finish_written :
    {xs : List ℕ} {convert : Bool} {k : ℕ} {r : Receiver}
    → r.convert ≡ convert
    → Received xs k r
    → length (segment k xs) < segsize
    → let (s, o) =
        writeit (receive r.subs (segment k xs)) r.output (size (length (segment k xs))) r.convert in
      (write_behind s o r.convert).2 ≡ (written convert xs).1
unfolding joined
finish_written {xs} {convert} {k} {r} c w short =
    ap (λ p. p.1)
      ((write_behind-Writing (writeit-Writing (segment k xs) w.writing)).1
        ∙ ap (written r.convert) (joined-short k xs short)
        ∙ ap (λ b. written b xs) c)

-- Segment `k` in the current buffer, as it is waited for.
pub accept-Good :
    {xs : List ℕ} {convert : Bool} {k : ℕ} {r : Receiver} (sends : Bool)
    → r.convert ≡ convert
    → Received xs k r
    → Good xs convert
        (accept (take_in r op_data ((k + 1) % 2 ^ 16) (segment k xs)) (segment k xs) sends)
unfolding accept take_in write_in
accept-Good {xs} {convert} {k} {r} sends c w =
    elim (Bool-cases (length (segment k xs) == segsize)) [
      | inl full ↦ rw full (
          send_next_ack-Good {k = suc k}
            {r = write_in (take_in r op_data ((k + 1) % 2 ^ 16) (segment k xs)) (segment k xs)}
            sends c (onward w (ground arith)))
      | inr short ↦ rw short (
        finish_written c w (ground (arith, length-segment-le k xs)),
        no_resend k _ w.number w.stale,
      )
    ]

-- A packet leaves the segments that are received as they are.
pub take_in-Received :
    {xs : List ℕ} {k : ℕ} {r : Receiver} (opcode blk : ℕ) (bytes : List ℕ)
    → Received xs k r
    → Received xs k (take_in r opcode blk bytes)
unfolding take_in
take_in-Received opcode blk bytes w = record {
  number = w.number;
  at_ack = w.at_ack;
  writing = receive-Writing bytes w.writing;
  fulls = w.fulls;
  acks = w.acks;
  stale = w.stale;
}

pub take_runt-Received :
    {xs : List ℕ} {k : ℕ} {r : Receiver} (opcode blk : ℕ)
    → Received xs k r
    → Received xs k (take_runt r opcode blk)
unfolding take_runt
take_runt-Received opcode blk w = record {
  number = w.number;
  at_ack = w.at_ack;
  writing = w.writing;
  fulls = w.fulls;
  acks = w.acks;
  stale = w.stale;
}
