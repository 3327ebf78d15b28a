-- ===== src/Telnet/Receive.antt =====
-- `telrcv` of netkit-telnet/telnet/telnet.cc: what the client makes of the bytes of the network.
pub mod Wire
pub mod Turns
pub mod Pieces
use netkit.Base.{
  ◌++◌, ℕ, ◌+◌, Bool, true, false, not, Option, none, some, List, [], ◌∷◌, length, drop, ◌==◌, ◌&&◌,
  ◌||◌, ltb, if◌then◌else◌,
}
use netkit.Telnetd.Options.{Opt, telopt_binary, telopt_echo, telopt_sga, telopt_naws, telopt_lflow}
use netkit.Telnetd.Options.Answers.{discount}
use netkit.Telnetd.Receive.{
  iac, cr, lf, dont_command, do_command, wont_command, will_command, sb_command, se_command, Ts,
  ts_data, ts_iac, ts_cr, ts_sb, ts_se, ts_will, ts_wont, ts_do, ts_dont,
}
use netkit.Telnet.Options.{
  Action, say_do, say_will, got_dm, setconnmode, setcommandmode, slc_init, sendnaws, suboption,
  Asked, send_do, willoption, wontoption, dooption, dontoption,
}

abbrev pub telopt_linemode : ℕ
telopt_linemode = 34

-- The globals of the client. `ttyoring` is what the ring holds, and `subbuffer` the buffer up to
-- `subpointer`, both with the last byte first; `log` has the last action first. The ring's drain
-- by `setconnmode` is not followed.
pub record Client : Type 0 where
  pub telrcv_state : Ts
  pub opts : ℕ → Opt
  pub kludgelinemode : Bool
  pub linemode : Bool
  pub flushout : Bool
  pub synching : Bool
  pub localflow : Bool
  pub flushline : Bool
  pub ttyoring : List ℕ
  pub subbuffer : List ℕ
  pub log : List Action

-- What the client does not change here: the size of `ttyoring`, `crmod`, whether DISPLAY is set,
-- and whether urgent data is still out.
pub record Local : Type 0 where
  pub ttysize : ℕ
  pub crmod : Bool
  pub has_display : Bool
  pub stilloob : Bool

act : Action → Client → Client
act a t = record t { log = a ∷ t.log }

with_state : Ts → Client → Client
with_state s t = record t { telrcv_state = s }

-- TTYADD; a full ring loses the byte.
pub ttyadd : Local → ℕ → Client → Client
ttyadd loc c t =
    if t.synching || t.flushout
    then t
    else if ltb (length t.ttyoring) loc.ttysize
    then record t { ttyoring = c ∷ t.ttyoring }
    else t

-- A handler of one option.
with_option : ℕ → (Asked → Asked) → Client → Client
with_option option f t =
    let n = f (record { opt = t.opts option; flushout = t.flushout; log = t.log }) in
    record t {
      opts = λ j. if j == option then n.opt else t.opts j;
      flushout = n.flushout;
      log = n.log;
    }

with_linemode : (Opt → Opt) → Client → Client
with_linemode f t = record t {
  opts = λ j. if j == telopt_linemode then f (t.opts telopt_linemode) else t.opts j;
}

-- `dooption` of LINEMODE.
do_linemode : Client → Client
unfolding act with_option with_linemode discount
do_linemode t0 =
    let o0 = t0.opts telopt_linemode in
    let t =
      with_linemode (λ o. record o { will_wont_resp = discount o0.my_state o0.will_wont_resp })
        t0 in
    let o = t.opts telopt_linemode in
    let on = with_linemode (λ o. record o { my_state = true }) in
    let asked = with_option telopt_sga (send_do telopt_sga) (record t { kludgelinemode = false }) in
    let willing = with_linemode (λ o. record o { my_want_state = true }) asked in
    if not (o.will_wont_resp == 0)
    then on t
    else if not o.my_want_state
    then act slc_init (on (act (say_will telopt_linemode) willing))
    else act (say_do telopt_sga) (act slc_init (on asked))

-- `dontoption`, also of LINEMODE.
dont : ℕ → Client → Client
unfolding with_option discount
dont option t =
    let o = t.opts option in
    let off =
      option == telopt_linemode
      && (discount (not o.my_state) o.will_wont_resp == 0 && o.my_want_state) in
    with_option option (dontoption option)
      (record t { linemode = if off then false else t.linemode })

-- TS_DO: `dooption`, and what follows it.
on_do : Local → ℕ → Client → Client
unfolding act with_option do_linemode
on_do loc c t =
    let done =
      if c == telopt_linemode
      then do_linemode t
      else with_option c (dooption loc.has_display c) t in
    if c == telopt_naws
    then act sendnaws done
    else if c == telopt_lflow
    then act setconnmode (act setcommandmode (record done { localflow = true }))
    else done

-- DM: what is in the ring for the terminal is dropped.
on_dm : Local → Client → Client
unfolding act
on_dm loc t = act got_dm (record t { ttyoring = []; synching = loc.stilloob })

-- From `process_iac`.
got_iac : Local → ℕ → Client → Client
unfolding with_state ttyadd on_dm
got_iac loc c t =
    if c == will_command
    then with_state ts_will t
    else if c == wont_command
    then with_state ts_wont t
    else if c == do_command
    then with_state ts_do t
    else if c == dont_command
    then with_state ts_dont t
    else if c == 242
    then with_state ts_data (on_dm loc t)
    else if c == sb_command
    then with_state ts_sb (record t { subbuffer = [] })
    else if c == iac
    then with_state ts_data (ttyadd loc iac t)
    else with_state ts_data t

-- SB_ACCUM; SUBBUFSIZE is 256.
accum : ℕ → List ℕ → List ℕ
accum c sb = if ltb (length sb) 256 then c ∷ sb else sb

end_suboption : ℕ → Client → Client
unfolding accum act
end_suboption c t =
    let sb = drop 2 (accum c (accum iac t.subbuffer)) in
    act (suboption sb) (record t { subbuffer = [] })

-- TTYADD of a carriage return, with what `crmod` adds.
add_cr : Local → Client → Client
unfolding ttyadd
add_cr loc t = let t' = ttyadd loc cr t in if loc.crmod then ttyadd loc lf t' else t'

-- TS_DATA, with the byte behind, if there is one: the client, and whether that byte is taken too.
on_data : Local → ℕ → Option ℕ → Client → Client × Bool
unfolding with_state ttyadd add_cr
on_data loc c next t =
    if c == iac
    then (with_state ts_iac t, false)
    else if c == cr && not (t.opts telopt_binary).his_want_state
    then elim next [
      | none ↦ (with_state ts_cr (add_cr loc t), false)
      | some d ↦
          if d == 0
          then (with_state ts_data (ttyadd loc cr t), true)
          else if not (t.opts telopt_echo).his_want_state && d == lf
          then (with_state ts_data (ttyadd loc lf t), true)
          else (with_state ts_data (add_cr loc t), false)
    ]
    else (with_state ts_data (ttyadd loc c t), false)

-- The body of the loop, by the state.
pub on_byte : Local → Ts → ℕ → Option ℕ → Client → Client × Bool
unfolding on_data with_state ttyadd got_iac accum end_suboption with_option on_do dont act
on_byte loc ts_data c next t = on_data loc c next t
on_byte loc ts_cr c next t =
    if c == 0
    then (with_state ts_data t, false)
    else if c == lf && (not (t.opts telopt_echo).his_want_state && not loc.crmod)
    then (with_state ts_data (ttyadd loc c t), false)
    else on_data loc c next t
on_byte loc ts_iac c next t = (got_iac loc c t, false)
on_byte loc ts_will c next t = (with_state ts_data (with_option c (willoption c) t), false)
on_byte loc ts_wont c next t =
    (with_state ts_data (with_option c (wontoption t.kludgelinemode c) t), false)
on_byte loc ts_do c next t = (with_state ts_data (on_do loc c t), false)
on_byte loc ts_dont c next t =
    (with_state ts_data (act setconnmode (record (dont c t) { flushline = true })), false)
on_byte loc ts_sb c next t =
    (if c == iac then with_state ts_se t else record t { subbuffer = accum c t.subbuffer }, false)
on_byte loc ts_se c next t = (
  if c == se_command
      then with_state ts_data (end_suboption se_command t)
      else if c == iac
      then with_state ts_sb (record t { subbuffer = accum c t.subbuffer })
      else got_iac loc c (end_suboption c t),
  false,
)

-- TTYROOM () > 2
pub has_room : Local → Client → Bool
has_room loc t = ltb (length t.ttyoring + 2) loc.ttysize

-- `telrcv` of what `netiring` holds: the client, and what is left in the ring.
pub telrcv : Local → List ℕ → Client → Client × List ℕ
unfolding on_byte has_room
telrcv loc [] t = (t, [])
telrcv loc (c ∷ []) t =
    if has_room loc t then ((on_byte loc t.telrcv_state c none t).0, []) else (t, c ∷ [])
telrcv loc (c ∷ d ∷ cs) t =
    let (t', along) = on_byte loc t.telrcv_state c (some d) t in
    let both = telrcv loc cs t' in
    let rest = telrcv loc (d ∷ cs) t' in
    if not (has_room loc t) then (t, c ∷ d ∷ cs) else if along then both else rest

-- The pieces in which bytes come in, each put behind what `telrcv` left of the ones before.
pub telrcv_all : Local → List (List ℕ) → List ℕ → Client → Client × List ℕ
unfolding telrcv
telrcv_all loc [] left t = (t, left)
telrcv_all loc (cs ∷ css) left t =
    let (t', left') = telrcv loc (left ++ cs) t in telrcv_all loc css left' t'
