-- ===== src/Telnetd/Options/Answers.antt =====
-- The peer's messages about an option: `willoption`, `wontoption`, `dooption` and `dontoption` of
-- netkit-telnet/telnetd/state.c.
use netkit.Base.{ℕ, ◌+◌, ◌-◌, Bool, true, false, not, ◌==◌, ◌&&◌, ◌||◌, if◌then◌else◌}
use netkit.Telnetd.Options.{
  say_do, say_dont, say_will, say_wont, tty_binaryin, tty_binaryout, tty_setecho, can_change_flow,
  settimer, Negotiation, act, with_opt, send_dont, send_will, telopt_binary, telopt_echo,
  telopt_sga, telopt_status, telopt_tm, telopt_logout, telopt_ttype, telopt_naws, telopt_tspeed,
  telopt_lflow, telopt_xdisploc, telopt_environ,
}

-- A response counter when a message comes in; `agrees` says that the state is already the one that
-- the message names.
unfoldable pub discount : Bool → ℕ → ℕ
discount agrees resp =
    if resp == 0 then 0 else if not (resp - 1 == 0) && agrees then resp - 2 else resp - 1

-- The options that `willoption` changes to.
unfoldable pub will_ok : ℕ → Bool
will_ok option =
    option == telopt_binary
    || (option == telopt_lflow
        || (option == telopt_ttype
            || (option == telopt_sga
                || (option == telopt_naws
                    || (option == telopt_tspeed
                        || (option == telopt_xdisploc || option == telopt_environ))))))

-- The switch of `willoption` where the state is to change.
will_switch : ℕ → Negotiation → Negotiation
unfolding act
will_switch option n =
    if option == telopt_binary
    then act (tty_binaryin true) n
    else if option == telopt_echo
    then record n { not42 = false }
    else if option == telopt_lflow
    then act (can_change_flow true) n
    else n

his_state_will : Negotiation → Negotiation
unfolding with_opt
his_state_will n = with_opt (record n.opt { his_state = true }) n

-- `willoption`
unfoldable pub willoption : ℕ → Negotiation → Negotiation
unfolding discount act with_opt will_ok will_switch his_state_will send_dont
willoption option n0 =
    let o = record n0.opt { do_dont_resp = discount n0.opt.his_state n0.opt.do_dont_resp } in
    let n = with_opt o n0 in
    let switched = will_switch option n in
    if not (o.do_dont_resp == 0)
    then his_state_will n
    else if not o.his_want_state
    then (if option == telopt_tm
        then n
        else if will_ok option
        then his_state_will
            (act (say_do option) (with_opt (record o { his_want_state = true }) switched))
        else his_state_will (
            act (say_dont option)
              (with_opt (record o { do_dont_resp = o.do_dont_resp + 1 }) switched)))
    else his_state_will
        (if option == telopt_echo then send_dont option (record n { not42 = false }) else n)

-- The switch of `wontoption` where the state is to change.
wont_switch : ℕ → Negotiation → Negotiation
unfolding act
wont_switch option n =
    if option == telopt_echo
    then record n { not42 = true }
    else if option == telopt_binary
    then act (tty_binaryin false) n
    else if option == telopt_lflow
    then act (can_change_flow false) n
    else if option == telopt_ttype
        || (option == telopt_tspeed || (option == telopt_xdisploc || option == telopt_environ))
    then act (settimer option) n
    else n

-- `wontoption`, which leaves the state itself as it is.
unfoldable pub wontoption : ℕ → Negotiation → Negotiation
unfolding discount act with_opt wont_switch
wontoption option n0 =
    let o = record n0.opt { do_dont_resp = discount (not n0.opt.his_state) n0.opt.do_dont_resp } in
    let n = with_opt o n0 in
    let declined = with_opt (record o { his_want_state = false }) (wont_switch option n) in
    if not (o.do_dont_resp == 0) || not o.his_want_state
    then n
    else if option == telopt_tm
    then with_opt (record o { his_want_state = false }) n
    else if o.his_state
    then act (say_dont option) declined
    else declined

-- The options that `dooption` changes to.
unfoldable pub do_ok : ℕ → Bool
do_ok option =
    option == telopt_echo
    || (option == telopt_binary || (option == telopt_sga || option == telopt_status))

do_switch : ℕ → Negotiation → Negotiation
unfolding act
do_switch option n =
    if option == telopt_echo
    then act (tty_setecho true) n
    else if option == telopt_binary
    then act (tty_binaryout true) n
    else if option == telopt_sga
    then record n { turn_on_sga = false }
    else n

my_state_will : Negotiation → Negotiation
unfolding with_opt
my_state_will n = with_opt (record n.opt { my_state = true }) n

-- `dooption`; `cleanup` ends the process.
unfoldable pub dooption : ℕ → Negotiation → Negotiation
unfolding discount act with_opt do_ok do_switch my_state_will
dooption option n0 =
    let o = record n0.opt { will_wont_resp = discount n0.opt.my_state n0.opt.will_wont_resp } in
    let n = with_opt o n0 in
    let switched = do_switch option n in
    if not (o.will_wont_resp == 0) || o.my_want_state
    then my_state_will n
    else if option == telopt_tm
    then act (say_will option) (with_opt (record o { my_want_state = false; my_state = false }) n)
    else if option == telopt_logout
    then record (my_state_will
        (act (say_will option) (with_opt (record o { my_want_state = true }) n))) { gone = true }
    else if do_ok option
    then my_state_will
        (act (say_will option) (with_opt (record o { my_want_state = true }) switched))
    else my_state_will (
        act (say_wont option)
          (with_opt (record o { will_wont_resp = o.will_wont_resp + 1 }) switched))

dont_switch : ℕ → Negotiation → Negotiation
unfolding act
dont_switch option n =
    if option == telopt_binary
    then act (tty_binaryout false) n
    else if option == telopt_echo
    then act (tty_setecho false) n
    else n

my_state_wont : Negotiation → Negotiation
unfolding with_opt
my_state_wont n = with_opt (record n.opt { my_state = false }) n

-- `dontoption`
unfoldable pub dontoption : ℕ → Negotiation → Negotiation
unfolding discount act with_opt dont_switch my_state_wont send_will
dontoption option n0 =
    let o = record n0.opt {
      will_wont_resp = discount (not n0.opt.my_state) n0.opt.will_wont_resp;
    } in
    let n = with_opt o n0 in
    let declined = with_opt (record o { my_want_state = false }) (dont_switch option n) in
    let answered = if o.my_state then act (say_wont option) declined else declined in
    if not (o.will_wont_resp == 0) || not o.my_want_state
    then my_state_wont n
    else if option == telopt_sga
    then (let off = record (my_state_wont answered) { turn_on_sga = not n.turn_on_sga } in
        if n.turn_on_sga then off else send_will option off)
    else my_state_wont answered
