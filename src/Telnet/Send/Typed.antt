-- ===== src/Telnet/Send/Typed.antt =====
-- What is typed at the client comes to the pty of the server.
use netkit.Base.{
  ℕ, zero, suc, ◌+◌, ◌*◌, ◌≤◌, ◌<◌, ◌≡◌, refl, ap, ◌∙◌, Bool, true, false, not, some, List, [], ◌∷◌,
  length, ltb, ◌==◌, ◌&&◌, arith, Bool-cases, inl, inr, if◌then◌else◌, rev_onto, rev_onto-rev_onto,
  append-nil,
}
use netkit.Telnetd.Receive.{Telnetd, System, telrcv, ts_data}
use netkit.Telnetd.Receive.Transparent.{escape, Takes, telrcv-escape}
use netkit.Telnet.Send.{
  Keys, Sender, strip, vdisable, netadd, net2add, escape_char, escapes, echo_char, local_char,
  send_char, finish, and_then, on_char, telsnd_loop, telsnd,
}
use netkit.Telnet.Send.Ends.{telsnd_loop-nil, telsnd_loop-cons}

unfoldable pub is_escape : Keys → ℕ → Bool
is_escape k c = strip c == k.escapechar && not (k.escapechar == vdisable)

-- Bytes as a user types them: the escape character twice.
unfoldable pub typed : Keys → List ℕ → List ℕ
unfolding is_escape
typed k [] = []
typed k (c ∷ cs) = let rest = typed k cs in if is_escape k c then c ∷ c ∷ rest else c ∷ rest

-- Bytes go to the server one by one: no escapes of rlogin, no local editing, no BINARY, and a
-- carriage return is one.
pub record IsPlain (k : Keys) : Type 0 where
  pub no_rlogin : k.rlogin ≡ vdisable
  pub no_edit : k.mode_edit ≡ false
  pub no_local : k.local_chars ≡ false
  pub text : k.binary ≡ false
  pub plain_cr : k.crlf ≡ false

on_char-plain :
    (k : Keys) (c : ℕ) (s : Sender)
    → IsPlain k
    → is_escape k c ≡ false
    → on_char k c s ≡ (send_char k c (record s { bol = false }), true)
unfolding on_char escapes echo_char local_char and_then finish is_escape
on_char-plain k c s p e = ground (arith, p, e)

on_char-escape :
    (k : Keys) (c : ℕ) (ds : List ℕ) (s : Sender)
    → IsPlain k
    → is_escape k c ≡ true
    → on_char k c (record s { ttyiring = c ∷ ds })
      ≡ (send_char k c (record s { ttyiring = ds; bol = false }), true)
unfolding on_char escapes escape_char echo_char local_char and_then finish is_escape
on_char-escape k c ds s p e = ground (arith, p, e)

-- One byte in the output buffer.
record Sends (c : ℕ) (s s' : Sender) : Type 0 where
  output : s'.netoring ≡ rev_onto (escape (c ∷ [])) s.netoring
  same_log : s'.log ≡ s.log

send_char-Sends :
    (k : Keys) (c : ℕ) (s : Sender)
    → IsPlain k
    → length s.netoring + 2 < k.netsize
    → ((send_char k c s).ttyiring ≡ s.ttyiring) × Sends c s (send_char k c s)
unfolding send_char netadd net2add escape rev_onto
send_char-Sends k c s p h = ground (arith, p, h)

escape-cons :
    (c : ℕ) (cs out : List ℕ)
    → rev_onto (escape cs) (rev_onto (escape (c ∷ [])) out) ≡ rev_onto (escape (c ∷ cs)) out
unfolding escape rev_onto
escape-cons c cs out = ground arith

length-escape_one :
    (c : ℕ) (out : List ℕ) → length (rev_onto (escape (c ∷ [])) out) ≤ length out + 2
unfolding escape rev_onto
length-escape_one c out = ground arith

length-typed : (k : Keys) (cs : List ℕ) → length cs ≤ length (typed k cs)
unfolding typed
length-typed k [] = omega arith
length-typed k (c ∷ cs) = let l = length-typed k cs in ground (arith, l)

-- What the loop leaves when `cs` were typed: they are all sent, and nothing else is done.
record AllSent (cs : List ℕ) (s s' : Sender) : Type 0 where
  empty_input : s'.ttyiring ≡ []
  output : s'.netoring ≡ rev_onto (escape cs) s.netoring
  same_log : s'.log ≡ s.log

abbrev SentBy : ℕ → Keys → Bool → List ℕ → Sender → Type 0
SentBy n k did cs s =
    (s' : Sender) × (did' : Bool) × (telsnd_loop n k did s ≡ some (s', did')) × AllSent cs s s'

AllSent-cons :
    (c : ℕ) (cs : List ℕ) (s s1 s' : Sender)
    → Sends c s s1
    → AllSent cs s1 s'
    → AllSent (c ∷ cs) s s'
AllSent-cons c cs s s1 s' a b = record {
  empty_input = b.empty_input;
  output = b.output ∙ ap (rev_onto (escape cs)) a.output ∙ escape-cons c cs s.netoring;
  same_log = b.same_log ∙ a.same_log;
}

-- One turn of the loop that sends a byte.
turn :
    (n : ℕ) (k : Keys) (did : Bool) (s : Sender) (c : ℕ) (ds es : List ℕ)
    → s.ttyiring ≡ c ∷ ds
    → length s.netoring + 2 < k.netsize
    → on_char k c (record s { ttyiring = ds })
      ≡ (send_char k c (record s { ttyiring = es; bol = false }), true)
    → telsnd_loop (suc n) k did s
      ≡ telsnd_loop n k true (send_char k c (record s { ttyiring = es; bol = false }))
turn n k did s c ds es e h o =
    let room : not (ltb (length s.netoring + 2) k.netsize) ≡ false = ground arith in
    telsnd_loop-cons n k did s c ds e ∙ rw (room, o) refl

typed-cons :
    (k : Keys) (c : ℕ) (cs : List ℕ) → is_escape k c ≡ false → typed k (c ∷ cs) ≡ c ∷ typed k cs
unfolding typed
typed-cons k c cs e = rw e refl

typed-cons_escape :
    (k : Keys) (c : ℕ) (cs : List ℕ) → is_escape k c ≡ true → typed k (c ∷ cs) ≡ c ∷ c ∷ typed k cs
unfolding typed
typed-cons_escape k c cs e = rw e refl

typed-sent :
    (n : ℕ) (k : Keys) (did : Bool) (cs : List ℕ) (s : Sender)
    → IsPlain k
    → s.ttyiring ≡ typed k cs
    → length cs < n
    → length s.netoring + 2 * length cs + 2 < k.netsize
    → SentBy n k did cs s
unfolding typed escape rev_onto
typed-sent zero k did cs s p e h r = absurd (ground (arith, h))
typed-sent (suc n) k did [] s p e h r = (
  s,
  did,
  telsnd_loop-nil n k did s e,
  record { empty_input = e; output = refl; same_log = refl },
)
typed-sent (suc n) k did (c ∷ cs) s p e h r =
    let s1 : Sender = record s { ttyiring = typed k cs; bol = false } in
    let room : length s.netoring + 2 < k.netsize = ground (arith, r) in
    let (same_input, a) = send_char-Sends k c s1 p room in
    let s2 : Sender = send_char k c s1 in
    let small : length s2.netoring ≤ length s.netoring + 2 =
      rw a.output (length-escape_one c s.netoring) in
    let (s', did', runs, b) =
      typed-sent n k true cs s2 p same_input (omega (arith, h)) (omega (arith, small, r)) in
    let step : telsnd_loop (suc n) k did s ≡ telsnd_loop n k true s2 =
      elim (Bool-cases (is_escape k c)) [
        | inl y ↦
            turn n k did s c (c ∷ typed k cs) (typed k cs) (e ∙ typed-cons_escape k c cs y) room
              (on_char-escape k c (typed k cs) s p y)
        | inr y ↦
            turn n k did s c (typed k cs) (typed k cs) (e ∙ typed-cons k c cs y) room
              (on_char-plain k c (record s { ttyiring = typed k cs }) p y)
      ] in
    (
      s',
      did',
      step ∙ runs,
      AllSent-cons c cs s s2 s' (record { output = a.output; same_log = a.same_log }) b,
    )

-- What a user types at the client, with the escape character twice, is all sent, the client does
-- nothing else on it, and the server puts the bytes in the buffer of the pty as they were meant:
-- where no byte goes another way (no escapes of rlogin, no local editing, no BINARY, a carriage
-- return sent as one) and the buffers have room.
pub telsnd-telrcv :
    (k : Keys) (s : Sender) (cs : List ℕ) (sys : System) (t : Telnetd)
    → IsPlain k
    → s.ttyiring ≡ typed k cs
    → s.netoring ≡ []
    → 2 * length cs + 2 < k.netsize
    → Takes sys (length cs) t
    → (s' : Sender) × (did : Bool) × (telsnd k s ≡ some (s', did))
      × (s'.ttyiring ≡ [])
      × (s'.log ≡ s.log)
      × (telrcv sys (rev_onto s'.netoring []) t
          ≡ (record t { ts = ts_data; ptyobuf = rev_onto cs t.ptyobuf }, []))
unfolding telsnd rev_onto
telsnd-telrcv k s cs sys t p e empty r takes =
    let enough = length-typed k cs in
    let fuel : length cs < 2 * length s.ttyiring + 2 = rw e (omega (arith, enough)) in
    let (s', did, runs, a) =
      typed-sent (2 * length s.ttyiring + 2) k false cs s p e fuel (rw empty (omega (arith, r))) in
    let bytes : rev_onto s'.netoring [] ≡ escape cs =
      ap (λ x. rev_onto x []) (a.output ∙ ap (rev_onto (escape cs)) empty)
      ∙ rev_onto-rev_onto (escape cs) [] []
      ∙ append-nil (escape cs) in
    (s', did, runs, a.empty_input, a.same_log, rw bytes (telrcv-escape sys cs t takes))
