-- ===== src/Telnet/Send/Ends.antt =====
-- The loop of `telsnd` ends.
use netkit.Base.{
  ℕ, zero, suc, ◌+◌, ◌*◌, ◌≤◌, ◌<◌, ◌≡◌, refl, Bool, true, false, Option, some, List, [], ◌∷◌,
  length, length-drop, list_cases, arith, ltb, ◌==◌, ◌||◌, ◌&&◌, not, if◌then◌else◌, Bool-cases,
  inl, inr,
}
use netkit.Telnet.Send.{
  gets, Keys, Sender, Turn, passes, goes_on, stops, act, netadd, net2add, command_line, line_end,
  strip, vdisable, rlogin_char, escape_char, escapes, echo_char, terminal_special_chars, local_char,
  send_char, finish, and_then, on_char, telsnd_loop, telsnd,
}

-- What is still to be done: two for a byte of the ring, and one for an escape of rlogin.
bit : Bool → ℕ
bit true = 1
bit false = 0

work : Sender → ℕ
unfolding bit
work s = 2 * length s.ttyiring + bit s.local_

length-gets : (max : ℕ) (cs : List ℕ) → length (gets max cs).1 ≤ length cs
unfolding gets
length-gets max cs = omega (arith, length-drop max cs)

command_line-work : (s : Sender) → work (command_line s).0 ≤ work s
unfolding command_line act work bit
command_line-work s = let l = length-gets 128 s.ttyiring in ground (arith, l)

line_end-work : (c : ℕ) (s : Sender) → work (line_end c s) ≡ work s
unfolding line_end work
line_end-work c s = ground arith

-- Less work is left, by a bound that both branches keep.
Less : ℕ → Sender × Turn → Type 0
Less n r = work r.0 < n

either :
    (n : ℕ) (x y : Sender × Turn) (b : Bool)
    → ((b ≡ true) → Less n x)
    → ((b ≡ false) → Less n y)
    → Less n (if b then x else y)
either n x y true p q = p refl
either n x y false p q = q refl

bit-bound : (b : Bool) → bit b ≤ 1
unfolding bit
bit-bound b = ground arith

rlogin_char-work : (k : Keys) (c : ℕ) (s : Sender) → Less (work s + 2) (rlogin_char k c s)
unfolding rlogin_char Less work bit act
rlogin_char-work k c s =
    let sc = strip c in
    let out : Sender = record s { local_ = false } in
    let command = command_line-work out in
    let puts = line_end-work k.rlogin (record out { ttyiring = c ∷ s.ttyiring }) in
    let b = bit-bound s.local_ in
    either _ _ _ s.bol
      (λ e.
        either _ _ _ (sc == k.rlogin) (λ d. omega (arith, b))
          (λ d. omega (arith, line_end-work sc (record s { bol = false }))))
      (λ e.
        either _ _ _ (not s.local_) (λ d. omega (arith, line_end-work sc s))
          (λ l.
            either _ _ _ (sc == 46 || c == k.eof_char) (λ d. omega (arith, b))
              (λ d.
                either _ _ _ (sc == k.susp_char) (λ d. omega (arith, b))
                  (λ d.
                    either _ _ _ (sc == k.escapechar && not (k.escapechar == vdisable))
                      (λ d. omega (arith, b, command))
                      (λ d.
                        either _ _ _ (not (sc == k.rlogin))
                          (λ d. let on : s.local_ ≡ true = ground arith in ground (arith, on, puts))
                          (λ d. omega (arith, b, line_end-work sc out)))))))

escape_char-work : (sc : ℕ) (k : Keys) (s : Sender) → Less (work s + 2) (escape_char sc k s)
unfolding escape_char Less work
escape_char-work sc k s =
    let command = command_line-work s in
    elim (list_cases s.ttyiring) [
      | inl e ↦ ground (arith, e, command)
      | inr (d, ds, e) ↦ elim (Bool-cases (strip d == k.escapechar)) [
        | inl y ↦ ground (arith, e, y)
        | inr y ↦ ground (arith, e, y, command)
      ]
    ]

echo_char-work : (k : Keys) (c sc : ℕ) (s : Sender) → work (echo_char k c sc s).0 ≤ work s
unfolding echo_char act work bit
echo_char-work k c sc s = ground arith

local_char-work : (k : Keys) (c sc : ℕ) (s : Sender) → work (local_char k c sc s).0 ≤ work s
unfolding local_char terminal_special_chars act work
local_char-work k c sc s = ground arith

send_char-work : (k : Keys) (c : ℕ) (s : Sender) → work (send_char k c s) ≡ work s
unfolding send_char netadd net2add work
send_char-work k c s = ground arith

escapes-work : (k : Keys) (c : ℕ) (s : Sender) → Less (work s + 2) (escapes k c s)
unfolding escapes Less work
escapes-work k c s =
    let sc = strip c in
    either _ _ _ (not (k.rlogin == vdisable)) (λ e. rlogin_char-work k c s)
      (λ e.
        either _ _ _ (sc == k.escapechar && not (k.escapechar == vdisable))
          (λ d. escape_char-work sc k s) (λ d. omega arith))

-- The parts behind leave no more than there was.
and_then-work :
    (n : ℕ) (f : ℕ → ℕ → Sender → Sender × Turn) (r : Sender × Turn)
    → ((c sc : ℕ) (s : Sender) → work (f c sc s).0 ≤ work s)
    → Less n r
    → Less n (and_then f r)
unfolding and_then Less
and_then-work n f (s, passes c sc) g h = let l = g c sc s in omega (arith, l, h)
and_then-work n f (s, goes_on) g h = h
and_then-work n f (s, stops) g h = h

finish-work : (n : ℕ) (k : Keys) (r : Sender × Turn) → Less n r → work (finish k r).0 < n
unfolding finish Less
finish-work n k (s, passes c sc) h = omega (arith, h, send_char-work k c s)
finish-work n k (s, goes_on) h = h
finish-work n k (s, stops) h = h

work-cons :
    (s : Sender) (c : ℕ) (cs : List ℕ)
    → s.ttyiring ≡ c ∷ cs
    → work (record s { ttyiring = cs }) + 2 ≡ work s
unfolding work
work-cons s c cs e = ground (arith, e)

on_char-work : (k : Keys) (c : ℕ) (s : Sender) → work (on_char k c s).0 < work s + 2
unfolding on_char
on_char-work k c s =
    let a = and_then-work _ (echo_char k) (escapes k c s) (echo_char-work k) (escapes-work k c s) in
    finish-work _ k _ (
      and_then-work _ (local_char k) (and_then (echo_char k) (escapes k c s)) (local_char-work k) a)

pub telsnd_loop-nil :
    (n : ℕ) (k : Keys) (did : Bool) (s : Sender)
    → s.ttyiring ≡ []
    → telsnd_loop (suc n) k did s ≡ some (s, did)
unfolding telsnd_loop
telsnd_loop-nil n k did s e = ground (arith, e)

pub telsnd_loop-cons :
    (n : ℕ) (k : Keys) (did : Bool) (s : Sender) (c : ℕ) (cs : List ℕ)
    → s.ttyiring ≡ c ∷ cs
    → telsnd_loop (suc n) k did s ≡ (
        if not (ltb (length s.netoring + 2) k.netsize)
        then some (s, did)
        else if (on_char k c (record s { ttyiring = cs })).1
        then telsnd_loop n k true (on_char k c (record s { ttyiring = cs })).0
        else some ((on_char k c (record s { ttyiring = cs })).0, true))
unfolding telsnd_loop
telsnd_loop-cons n k did s c cs e = ground (arith, e)

some_either :
    {A : Type 0} (b : Bool) (x y : Option A)
    → (r : A) × (x ≡ some r)
    → (r : A) × (y ≡ some r)
    → (r : A) × ((if b then x else y) ≡ some r)
some_either true x y p q = p
some_either false x y p q = q

-- With fuel for what is to be done, the loop ends.
telsnd_loop-ends :
    (n : ℕ) (k : Keys) (did : Bool) (s : Sender)
    → work s < n
    → (r : Sender × Bool) × (telsnd_loop n k did s ≡ some r)
telsnd_loop-ends zero k did s h = absurd (ground (arith, h))
telsnd_loop-ends (suc n) k did s h = elim (list_cases s.ttyiring) [
  | inl e ↦ ((s, did), telsnd_loop-nil n k did s e)
  | inr (c, cs, e) ↦
      let s1 : Sender = record s { ttyiring = cs } in
      let w = on_char-work k c s1 in
      let less = work-cons s c cs e in
      let more = telsnd_loop-ends n k true (on_char k c s1).0 (omega (arith, w, less, h)) in
      rw (telsnd_loop-cons n k did s c cs e)
        (some_either _ _ _ (_, refl) (some_either _ _ _ more (_, refl)))
]

-- The client's loop over what was typed ends, whatever the keys are set to.
pub telsnd-ends : (k : Keys) (s : Sender) → (r : Sender × Bool) × (telsnd k s ≡ some r)
unfolding telsnd work
telsnd-ends k s = telsnd_loop-ends _ k false s (omega (arith, bit-bound s.local_))
