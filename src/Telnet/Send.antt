-- ===== src/Telnet/Send.antt =====
-- `telsnd` of netkit-telnet/telnet/telnet.cc: what the client makes of the bytes of the terminal.
pub mod Ends
pub mod Typed
use netkit.Base.{
  ℕ, zero, suc, ◌+◌, ◌-◌, ◌*◌, ◌%◌, Bool, true, false, not, Option, none, some, List, [], ◌∷◌,
  length, take, drop, ◌==◌, ◌&&◌, ◌||◌, ltb, if◌then◌else◌,
}
use netkit.Telnetd.Receive.{iac, cr, lf}
use netkit.Telnet.Options.{
  Action, run_command, intp, sendbrk, sendabort, sendeof, sendsusp, xmit_ao, xmit_el, xmit_ec,
  settimer_echotoggle, setconnmode,
}

-- What the user and the terminal have set: `local_chars` is MODE_LOCAL_CHARS of the mode, and
-- `binary` what `my_want_state_is_wont(TELOPT_BINARY)` denies.
pub record Keys : Type 0 where
  pub rlogin : ℕ
  pub escapechar : ℕ
  pub eof_char : ℕ
  pub susp_char : ℕ
  pub int_char : ℕ
  pub quit_char : ℕ
  pub flush_char : ℕ
  pub kill_char : ℕ
  pub erase_char : ℕ
  pub echoc : ℕ
  pub crlf : Bool
  pub kludgelinemode : Bool
  pub mode_edit : Bool
  pub local_chars : Bool
  pub linemode : Bool
  pub binary : Bool
  pub netsize : ℕ

-- `ttyiring` has the next byte first, `netoring` and `log` the last one.
pub record Sender : Type 0 where
  pub bol : Bool
  pub local_ : Bool
  pub flushline : Bool
  pub dontlecho : Bool
  pub ttyiring : List ℕ
  pub netoring : List ℕ
  pub log : List Action

abbrev pub vdisable : ℕ
vdisable = 0

abbrev pub strip : ℕ → ℕ
strip c = c % 128

unfoldable pub act : Action → Sender → Sender
act a s = record s { log = a ∷ s.log }

-- NETADD; a full ring loses the byte.
unfoldable pub netadd : Keys → ℕ → Sender → Sender
netadd k c s =
    if ltb (length s.netoring) k.netsize then record s { netoring = c ∷ s.netoring } else s

unfoldable pub net2add : Keys → ℕ → ℕ → Sender → Sender
unfolding netadd
net2add k c d s = netadd k d (netadd k c s)

-- What a part of the loop's body leaves: the byte and its stripped form go on to the next part, or
-- the loop goes on, or it stops.
pub data Turn : Type 0 where
  passes : ℕ → ℕ → Turn
  goes_on stops : Turn

-- `gets` of the ring (ring.cc): the bytes that it gives, and those that it leaves. Where it stops for
-- want of room, it has taken one more off the ring than it gives.
unfoldable pub gets : ℕ → List ℕ → List ℕ × List ℕ
gets max cs = (take (max - 1) cs, drop max cs)

-- The rest of the line as a command.
unfoldable pub command_line : Sender → Sender × Turn
unfolding act gets
command_line s =
    let (line, rest) = gets 128 s.ttyiring in
    (act (run_command line) (record s { ttyiring = rest; bol = true; flushline = true }), stops)

line_end : ℕ → Sender → Sender
line_end sc s = if sc == lf || sc == cr then record s { bol = true } else s

-- The escapes of rlogin: at the beginning of a line, and behind one.
unfoldable pub rlogin_char : Keys → ℕ → Sender → Sender × Turn
unfolding act command_line line_end
rlogin_char k c s =
    let sc = strip c in
    let out = record s { local_ = false } in
    if s.bol
    then (if sc == k.rlogin
        then (record s { bol = false; local_ = true }, goes_on)
        else (line_end sc (record s { bol = false }), passes c sc))
    else if not s.local_
    then (line_end sc s, passes c sc)
    else if sc == 46 || c == k.eof_char
    then (
      act (run_command (99 ∷ 108 ∷ 111 ∷ 115 ∷ 101 ∷ 10 ∷ [])) (record out { bol = true }),
      goes_on,
    )
    else if sc == k.susp_char
    then (act (run_command (122 ∷ 10 ∷ [])) (record out { bol = true }), goes_on)
    else if sc == k.escapechar && not (k.escapechar == vdisable)
    then command_line out
    else if not (sc == k.rlogin)
    then (line_end k.rlogin (record out { ttyiring = c ∷ s.ttyiring }), passes k.rlogin k.rlogin)
    else (line_end sc out, passes c sc)

-- The escape character: a second one behind it is sent, and anything else is a command.
unfoldable pub escape_char : ℕ → Keys → Sender → Sender × Turn
unfolding command_line
escape_char sc k s = elim s.ttyiring [
  | [] ↦ command_line s
  | d ∷ ds ↦
      if strip d == k.escapechar
      then (record s { ttyiring = ds; bol = false }, passes d sc)
      else command_line s
]

unfoldable pub escapes : Keys → ℕ → Sender → Sender × Turn
unfolding rlogin_char escape_char
escapes k c s =
    let sc = strip c in
    if not (k.rlogin == vdisable)
    then rlogin_char k c s
    else if sc == k.escapechar && not (k.escapechar == vdisable)
    then escape_char sc k s
    else (record s { bol = false }, passes c sc)

-- The character that turns the local echo on and off.
unfoldable pub echo_char : Keys → ℕ → ℕ → Sender → Sender × Turn
unfolding act
echo_char k c sc s =
    let toggled =
      act setconnmode
        (act settimer_echotoggle (record s { dontlecho = not s.dontlecho; flushline = true })) in
    if not (k.kludgelinemode && k.mode_edit && sc == k.echoc)
    then (s, passes c sc)
    else elim s.ttyiring [
      | [] ↦ (toggled, stops)
      | d ∷ ds ↦
          if strip d == k.echoc then (record s { ttyiring = ds }, passes d sc) else (toggled, stops)
    ]

-- `TerminalSpecialChars` of sys_bsd.cc: what it does, and whether the character is to be added. What
-- the functions that it calls put in `netoring` is not followed.
unfoldable pub terminal_special_chars : Keys → ℕ → Sender → Sender × Bool
unfolding act
terminal_special_chars k c s =
    if c == k.int_char
    then (act intp s, false)
    else if c == k.quit_char
    then (act (if k.kludgelinemode then sendbrk else sendabort) s, false)
    else if c == k.eof_char
    then (if k.linemode then (act sendeof s, false) else (s, true))
    else if c == k.susp_char
    then (act sendsusp s, false)
    else if c == k.flush_char
    then (act xmit_ao s, false)
    else if not k.local_chars && c == k.kill_char
    then (act xmit_el s, false)
    else if not k.local_chars && c == k.erase_char
    then (act xmit_ec s, false)
    else (s, true)

unfoldable pub local_char : Keys → ℕ → ℕ → Sender → Sender × Turn
unfolding terminal_special_chars
local_char k c sc s =
    let (s', adds) = terminal_special_chars k sc s in
    if not k.local_chars
    then (s, passes c sc)
    else if adds
    then (s', passes c sc)
    else (record s' { bol = true }, stops)

-- The byte as it is sent.
unfoldable pub send_char : Keys → ℕ → Sender → Sender
unfolding netadd net2add
send_char k c s =
    if c == lf && not k.binary
    then record (netadd k lf (if k.local_chars then netadd k cr s else s)) {
      bol = true;
      flushline = true;
    }
    else if c == cr && not k.binary
    then record (net2add k cr (if k.crlf then lf else 0) s) { bol = true; flushline = true }
    else if c == iac
    then net2add k iac iac s
    else netadd k c s

unfoldable pub and_then : (ℕ → ℕ → Sender → Sender × Turn) → Sender × Turn → Sender × Turn
and_then f (s, passes c sc) = f c sc s
and_then f (s, goes_on) = (s, goes_on)
and_then f (s, stops) = (s, stops)

-- What is left of the body: the byte is sent, and the loop goes on, or not.
unfoldable pub finish : Keys → Sender × Turn → Sender × Bool
unfolding send_char
finish k (s, passes c sc) = (send_char k c s, true)
finish k (s, goes_on) = (s, true)
finish k (s, stops) = (s, false)

-- The body of the loop, and whether it goes on.
unfoldable pub on_char : Keys → ℕ → Sender → Sender × Bool
unfolding escapes echo_char local_char and_then finish
on_char k c s = finish k (and_then (local_char k) (and_then (echo_char k) (escapes k c s)))

-- The loop: the state, and whether it did anything.
unfoldable pub telsnd_loop : ℕ → Keys → Bool → Sender → Option (Sender × Bool)
unfolding on_char
telsnd_loop zero k did s = none
telsnd_loop (suc n) k did s = elim s.ttyiring [
  | [] ↦ some (s, did)
  | c ∷ cs ↦
      let (s', goes) = on_char k c (record s { ttyiring = cs }) in
      let more = telsnd_loop n k true s' in
      if not (ltb (length s.netoring + 2) k.netsize)
      then some (s, did)
      else if goes
      then more
      else some (s', true)
]

-- A turn takes a byte off the ring, or it ends an escape of rlogin.
unfoldable pub telsnd : Keys → Sender → Option (Sender × Bool)
unfolding telsnd_loop
telsnd k s = telsnd_loop (2 * length s.ttyiring + 2) k false s
