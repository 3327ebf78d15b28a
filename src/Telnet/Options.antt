-- ===== src/Telnet/Options.antt =====
-- The option negotiation of netkit-telnet/telnet/telnet.cc, built as its Makefile does: with
-- KLUDGELINEMODE and without TN3270. LINEMODE, whose DO also asks for another option, stands in
-- Telnet/Receive.
use netkit.Base.{ℕ, ◌+◌, Bool, true, false, not, List, ◌∷◌, ◌==◌, ◌&&◌, ◌||◌, if◌then◌else◌}
use netkit.Telnetd.Options.{
  Opt, telopt_binary, telopt_echo, telopt_sga, telopt_status, telopt_tm, telopt_naws, telopt_tspeed,
  telopt_lflow, telopt_ttype, telopt_xdisploc, telopt_environ,
}
use netkit.Telnetd.Options.Answers.{discount}

-- What the client does beside its state: messages that it sends, and what it calls elsewhere.
-- `run_command` is `command` with the rest of a line.
pub data Action : Type 0 where
  say_do say_dont say_will say_wont : ℕ → Action
  settimer_modenegotiated settimer_echotoggle got_dm setconnmode setcommandmode slc_init sendnaws :
      Action
  suboption run_command : List ℕ → Action
  intp sendbrk sendabort sendeof sendsusp xmit_ao xmit_el xmit_ec : Action

-- One option: its bits, where MY_STATE_DO and MY_WANT_STATE_DO are `his_state` and
-- `his_want_state` as in externs.h; `flushout`; and what was done, the last first.
pub record Asked : Type 0 where
  pub opt : Opt
  pub flushout : Bool
  pub log : List Action

pub act : Action → Asked → Asked
act a n = record n { log = a ∷ n.log }

pub with_opt : Opt → Asked → Asked
with_opt o n = record n { opt = o }

-- `send_do` with `init`, and so for the three others.
unfoldable pub send_do : ℕ → Asked → Asked
unfolding act with_opt
send_do option n =
    let o = n.opt in
    if o.do_dont_resp == 0 && o.his_state || o.his_want_state
    then n
    else act (say_do option)
        (with_opt (record o { his_want_state = true; do_dont_resp = o.do_dont_resp + 1 }) n)

unfoldable pub send_dont : ℕ → Asked → Asked
unfolding act with_opt
send_dont option n =
    let o = n.opt in
    if o.do_dont_resp == 0 && not o.his_state || not o.his_want_state
    then n
    else act (say_dont option)
        (with_opt (record o { his_want_state = false; do_dont_resp = o.do_dont_resp + 1 }) n)

unfoldable pub send_will : ℕ → Asked → Asked
unfolding act with_opt
send_will option n =
    let o = n.opt in
    if o.will_wont_resp == 0 && o.my_state || o.my_want_state
    then n
    else act (say_will option)
        (with_opt (record o { my_want_state = true; will_wont_resp = o.will_wont_resp + 1 }) n)

unfoldable pub send_wont : ℕ → Asked → Asked
unfolding act with_opt
send_wont option n =
    let o = n.opt in
    if o.will_wont_resp == 0 && not o.my_state || not o.my_want_state
    then n
    else act (say_wont option)
        (with_opt (record o { my_want_state = false; will_wont_resp = o.will_wont_resp + 1 }) n)

-- The options for which `willoption` sets `new_state_ok`.
unfoldable pub will_ok : ℕ → Bool
will_ok option =
    option == telopt_echo
    || (option == telopt_binary || (option == telopt_sga || option == telopt_status))

-- `willoption`
unfoldable pub willoption : ℕ → Asked → Asked
unfolding discount act with_opt will_ok
willoption option n0 =
    let o = record n0.opt { do_dont_resp = discount n0.opt.his_state n0.opt.do_dont_resp } in
    let n = with_opt o n0 in
    let his_state = λ (m : Asked). with_opt (record m.opt { his_state = true }) m in
    let timed =
      if will_ok option && not (option == telopt_status)
      then act settimer_modenegotiated n
      else n in
    if not (o.do_dont_resp == 0 && not o.his_want_state)
    then his_state n
    else if option == telopt_tm
    then record (with_opt (record o { his_want_state = false; his_state = false }) n) {
      flushout = false;
    }
    else if will_ok option
    then his_state (
        act setconnmode (act (say_do option) (with_opt (record o { his_want_state = true }) timed)))
    else his_state
        (act (say_dont option) (with_opt (record o { do_dont_resp = o.do_dont_resp + 1 }) n))

-- `wontoption`, with `kludgelinemode`.
unfoldable pub wontoption : Bool → ℕ → Asked → Asked
unfolding discount act with_opt
wontoption kludge option n0 =
    let o = record n0.opt { do_dont_resp = discount (not n0.opt.his_state) n0.opt.do_dont_resp } in
    let n = with_opt o n0 in
    let timed =
      if option == telopt_echo || option == telopt_sga && kludge
      then act settimer_modenegotiated n
      else n in
    let off = record o { his_want_state = false; his_state = false } in
    let answered = if o.his_state then act (say_dont option) timed else timed in
    if o.do_dont_resp == 0 && o.his_want_state
    then (if option == telopt_tm
        then record (with_opt off n) { flushout = false }
        else act setconnmode (with_opt off answered))
    else if option == telopt_tm
    then record (with_opt off n) { flushout = false }
    else with_opt (record o { his_state = false }) n

-- The options for which `dooption` sets `new_state_ok`; `has_display` is whether DISPLAY is set.
unfoldable pub do_ok : Bool → ℕ → Bool
do_ok has_display option =
    option == telopt_binary
    || (option == telopt_naws
        || (option == telopt_tspeed
            || (option == telopt_lflow
                || (option == telopt_ttype
                    || (option == telopt_sga
                        || (option == telopt_environ
                            || option == telopt_xdisploc && has_display))))))

-- `dooption` of an option but LINEMODE.
unfoldable pub dooption : Bool → ℕ → Asked → Asked
unfolding discount act with_opt do_ok
dooption has_display option n0 =
    let o = record n0.opt { will_wont_resp = discount n0.opt.my_state n0.opt.will_wont_resp } in
    let n = with_opt o n0 in
    let my_state = λ (m : Asked). with_opt (record m.opt { my_state = true }) m in
    if not (o.will_wont_resp == 0 && not o.my_want_state)
    then my_state n
    else if option == telopt_tm
    then with_opt (record o { my_want_state = false; my_state = false }) (act (say_will option) n)
    else if do_ok has_display option
    then my_state
        (act setconnmode (act (say_will option) (with_opt (record o { my_want_state = true }) n)))
    else my_state
        (act (say_wont option) (with_opt (record o { will_wont_resp = o.will_wont_resp + 1 }) n))

-- `dontoption`, less `linemode = 0`, which Telnet/Receive sets.
unfoldable pub dontoption : ℕ → Asked → Asked
unfolding discount act with_opt
dontoption option n0 =
    let o = record n0.opt {
      will_wont_resp = discount (not n0.opt.my_state) n0.opt.will_wont_resp;
    } in
    let n = with_opt o n0 in
    let answered = if o.my_state then act (say_wont option) n else n in
    if o.will_wont_resp == 0 && o.my_want_state
    then act setconnmode (with_opt (record o { my_want_state = false; my_state = false }) answered)
    else with_opt (record o { my_state = false }) n
