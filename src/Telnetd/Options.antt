-- ===== src/Telnetd/Options.antt =====
-- The option negotiation of netkit-telnet/telnetd/state.c, and the state bits of defs.h, as built by
-- the Makefile there: without LINEMODE, AUTHENTICATE and ENCRYPT.
pub mod Answers
pub mod Settle
use netkit.Base.{
  ℕ, ◌+◌, ◌-◌, Bool, true, false, not, List, [], ◌∷◌, ◌==◌, ◌&&◌, ◌||◌, if◌then◌else◌,
}

-- What is done beside the change of the state bits: a message that is sent; a change of the terminal,
-- of a timer, of what the flow control characters may become; and what `telrcv` does beside
-- (`send_dm` is IAC DM with the urgent mark, `look_for_mark` what follows the peer's, `bad_pointer`
-- a read through a null pointer).
pub data Action : Type 0 where
  say_do say_dont say_will say_wont : ℕ → Action
  tty_binaryin tty_binaryout tty_setecho can_change_flow : Bool → Action
  settimer : ℕ → Action
  init_termbuf netclear send_dm look_for_mark answer_ayt bad_pointer : Action
  signal : ℕ → Action
  suboption : List ℕ → Action

-- The bits and counters of one option: `options`, `do_dont_resp` and `will_wont_resp` at it. The
-- counters, of type char in C, do not wrap here.
pub record Opt : Type 0 where
  pub my_state : Bool
  pub my_want_state : Bool
  pub his_state : Bool
  pub his_want_state : Bool
  pub do_dont_resp : ℕ
  pub will_wont_resp : ℕ

-- An option, the globals that its negotiation changes, whether the process has ended, and what was
-- done, the last first.
pub record Negotiation : Type 0 where
  pub opt : Opt
  pub not42 : Bool
  pub turn_on_sga : Bool
  pub gone : Bool
  pub log : List Action

abbrev pub telopt_binary : ℕ
telopt_binary = 0

abbrev pub telopt_echo : ℕ
telopt_echo = 1

abbrev pub telopt_sga : ℕ
telopt_sga = 3

abbrev pub telopt_status : ℕ
telopt_status = 5

abbrev pub telopt_tm : ℕ
telopt_tm = 6

abbrev pub telopt_logout : ℕ
telopt_logout = 18

abbrev pub telopt_ttype : ℕ
telopt_ttype = 24

abbrev pub telopt_naws : ℕ
telopt_naws = 31

abbrev pub telopt_tspeed : ℕ
telopt_tspeed = 32

abbrev pub telopt_lflow : ℕ
telopt_lflow = 33

abbrev pub telopt_xdisploc : ℕ
telopt_xdisploc = 35

abbrev pub telopt_environ : ℕ
telopt_environ = 39

pub act : Action → Negotiation → Negotiation
act a n = record n { log = a ∷ n.log }

pub with_opt : Opt → Negotiation → Negotiation
with_opt o n = record n { opt = o }

-- `send_do` with `init`, and without, which only sends.
unfoldable pub send_do : ℕ → Negotiation → Negotiation
unfolding act with_opt
send_do option n =
    let o = n.opt in
    if o.do_dont_resp == 0 && o.his_state || o.his_want_state
    then n
    else act (say_do option) (
        with_opt
          (record o {
            his_want_state = not (option == telopt_tm);
            do_dont_resp = o.do_dont_resp + 1;
          })
          n)

-- `send_dont`, `send_will` and `send_wont` with `init`.
unfoldable pub send_dont : ℕ → Negotiation → Negotiation
unfolding act with_opt
send_dont option n =
    let o = n.opt in
    if o.do_dont_resp == 0 && not o.his_state || not o.his_want_state
    then n
    else act (say_dont option)
        (with_opt (record o { his_want_state = false; do_dont_resp = o.do_dont_resp + 1 }) n)

unfoldable pub send_will : ℕ → Negotiation → Negotiation
unfolding act with_opt
send_will option n =
    let o = n.opt in
    if o.will_wont_resp == 0 && o.my_state || o.my_want_state
    then n
    else act (say_will option)
        (with_opt (record o { my_want_state = true; will_wont_resp = o.will_wont_resp + 1 }) n)

unfoldable pub send_wont : ℕ → Negotiation → Negotiation
unfolding act with_opt
send_wont option n =
    let o = n.opt in
    if o.will_wont_resp == 0 && not o.my_state || not o.my_want_state
    then n
    else act (say_wont option)
        (with_opt (record o { my_want_state = false; will_wont_resp = o.will_wont_resp + 1 }) n)
