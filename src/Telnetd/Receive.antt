-- ===== src/Telnetd/Receive.antt =====
-- `telrcv` of netkit-telnet/telnetd/state.c and the functions of telnetd.c that it calls for a
-- command of the peer.
pub mod Bounds
pub mod Transparent
use netkit.Base.{
  ℕ, ◌+◌, Bool, true, false, not, Option, none, some, List, [], ◌∷◌, length, drop, ◌==◌, ◌&&◌, ◌||◌,
  leb, ltb, if◌then◌else◌,
}
use netkit.Telnetd.Options.{
  Action, init_termbuf, netclear, send_dm, look_for_mark, answer_ayt, bad_pointer, signal,
  suboption, Opt, Negotiation, telopt_binary,
}
use netkit.Telnetd.Options.Answers.{willoption, wontoption, dooption, dontoption}

abbrev pub iac : ℕ
iac = 255

abbrev pub cr : ℕ
cr = 13

abbrev pub lf : ℕ
lf = 10

-- The commands, of arpa/telnet.h.
abbrev pub dont_command : ℕ
dont_command = 254

abbrev pub do_command : ℕ
do_command = 253

abbrev pub wont_command : ℕ
wont_command = 252

abbrev pub will_command : ℕ
will_command = 251

abbrev pub sb_command : ℕ
sb_command = 250

abbrev pub se_command : ℕ
se_command = 240

-- `state` of `telrcv`.
pub data Ts : Type 0 where
  ts_data ts_iac ts_cr ts_sb ts_se ts_will ts_wont ts_do ts_dont : Ts

-- The statics of the server that `telrcv` changes. `ptyobuf` is the buffer up to `pfrontp`, and
-- `subbuffer` that up to `subpointer`, both with the last byte first; `log` has the last action
-- first.
pub record Telnetd : Type 0 where
  pub ts : Ts
  pub opts : ℕ → Opt
  pub not42 : Bool
  pub turn_on_sga : Bool
  pub gone : Bool
  pub ptyobuf : List ℕ
  pub subbuffer : List ℕ
  pub log : List Action

-- The characters of `slctab` by their `sptr`, in the order AO, IP, ABORT, SUSP, EOF, EC, EL; whether
-- the kernel has TCSIG; whether the write of `ptyflush` takes all that is in the buffer; BUFSIZ.
pub record System : Type 0 where
  pub slc_ao : Option ℕ
  pub slc_ip : Option ℕ
  pub slc_abort : Option ℕ
  pub slc_susp : Option ℕ
  pub slc_eof : Option ℕ
  pub slc_ec : Option ℕ
  pub slc_el : Option ℕ
  pub has_tcsig : Bool
  pub wrote_all : Telnetd → Bool
  pub bufsiz : ℕ

push : ℕ → Telnetd → Telnetd
push c t = record t { ptyobuf = c ∷ t.ptyobuf }

act : Action → Telnetd → Telnetd
act a t = record t { log = a ∷ t.log }

-- `ptyflush`: the buffer starts anew once all of it is written.
flush : System → Telnetd → Telnetd
flush sys t = if sys.wrote_all t then record t { ptyobuf = [] } else t

char_or : Option ℕ → ℕ → ℕ
char_or o d = elim o [ none ↦ d | some c ↦ c ]

-- `interrupt`, `sendbrk`, `sendsusp` and `doeof`; 2, 3 and 20 are SIGINT, SIGQUIT and SIGTSTP.
interrupt : System → Telnetd → Telnetd
unfolding push act char_or
interrupt sys t =
    let t' = flush sys t in
    if sys.has_tcsig then act (signal 2) t' else push (char_or sys.slc_ip 127) (act init_termbuf t')

sendbrk : System → Telnetd → Telnetd
unfolding push act char_or
sendbrk sys t =
    let t' = flush sys t in
    if sys.has_tcsig
    then act (signal 3) t'
    else push (char_or sys.slc_abort 28) (act init_termbuf t')

sendsusp : System → Telnetd → Telnetd
unfolding push act char_or
sendsusp sys t =
    let t' = flush sys t in
    if sys.has_tcsig then act (signal 20) t' else push (char_or sys.slc_susp 26) t'

doeof : System → Telnetd → Telnetd
unfolding push act char_or
doeof sys t = push (char_or sys.slc_eof 4) (act init_termbuf t)

-- AO; _POSIX_VDISABLE is 0.
abort_output : System → Telnetd → Telnetd
unfolding push act
abort_output sys t =
    let t' = act init_termbuf (flush sys t) in
    let pushed : Telnetd = elim sys.slc_ao [
      | none ↦ t'
      | some c ↦ if c == 0 then t' else push c t'
    ] in
    act send_dm (act netclear pushed)

-- EC and EL, whose pointer is not tested.
erase : System → Option ℕ → Telnetd → Telnetd
unfolding push act
erase sys o t =
    let t' = act init_termbuf (flush sys t) in
    elim o [ none ↦ act bad_pointer t' | some c ↦ if c == 0 then t' else push c t' ]

with_ts : Ts → Telnetd → Telnetd
with_ts s t = record t { ts = s }

-- TELOPT_EOR is 25.
abbrev telopt_eor : ℕ
telopt_eor = 25

-- The commands behind which the state is TS_DATA again.
command : System → ℕ → Telnetd → Telnetd
unfolding push act interrupt sendbrk sendsusp doeof abort_output erase
command sys c t =
    if c == 244
    then interrupt sys t
    else if c == 243
    then sendbrk sys t
    else if c == 246
    then act answer_ayt t
    else if c == 245
    then abort_output sys t
    else if c == 247
    then erase sys sys.slc_ec t
    else if c == 248
    then erase sys sys.slc_el t
    else if c == 242
    then act look_for_mark t
    else if c == 239
    then (if (t.opts telopt_eor).his_state then doeof sys t else t)
    else if c == 236
    then doeof sys t
    else if c == 237
    then sendsusp sys t
    else if c == 238
    then sendbrk sys t
    else if c == iac
    then push c t
    else t

-- From `gotiac`.
got_iac : System → ℕ → Telnetd → Telnetd
unfolding command with_ts
got_iac sys c t =
    if c == sb_command
    then with_ts ts_sb (record t { subbuffer = [] })
    else if c == will_command
    then with_ts ts_will t
    else if c == wont_command
    then with_ts ts_wont t
    else if c == do_command
    then with_ts ts_do t
    else if c == dont_command
    then with_ts ts_dont t
    else with_ts ts_data (command sys c t)

-- `SB_ACCUM`; the buffer has 512 bytes, of which the last is not used.
accum : ℕ → List ℕ → List ℕ
accum c sb = if ltb (length sb) 511 then c ∷ sb else sb

-- A suboption ends: the two bytes behind it are accumulated and taken back, `SB_TERM`, `suboption`.
end_suboption : ℕ → Telnetd → Telnetd
unfolding accum act
end_suboption c t =
    let sb = drop 2 (accum c (accum iac t.subbuffer)) in
    act (suboption sb) (record t { subbuffer = [] })

-- An option's negotiation in the server's state.
negotiate : (ℕ → Negotiation → Negotiation) → ℕ → Telnetd → Telnetd
negotiate handler option t =
    let n = handler option (record {
      opt = t.opts option;
      not42 = t.not42;
      turn_on_sga = t.turn_on_sga;
      gone = t.gone;
      log = t.log;
    }) in
    record t {
      ts = ts_data;
      opts = λ j. if j == option then n.opt else t.opts j;
      not42 = n.not42;
      turn_on_sga = n.turn_on_sga;
      gone = n.gone;
      log = n.log;
    }

-- TS_DATA, which TS_CR falls through to.
on_data : ℕ → Telnetd → Telnetd
unfolding push with_ts
on_data c t =
    if c == iac
    then with_ts ts_iac t
    else if c == cr && not (t.opts telopt_binary).his_state
    then push c (with_ts ts_cr t)
    else push c (with_ts ts_data t)

-- The body of the loop, by the state.
on_byte : System → ℕ → Ts → Telnetd → Telnetd
unfolding on_data with_ts got_iac accum end_suboption negotiate
on_byte sys c ts_data t = on_data c t
on_byte sys c ts_cr t = if c == 0 || c == lf then with_ts ts_data t else on_data c t
on_byte sys c ts_iac t = got_iac sys c t
on_byte sys c ts_sb t =
    if c == iac then with_ts ts_se t else record t { subbuffer = accum c t.subbuffer }
on_byte sys c ts_se t =
    if c == se_command
    then with_ts ts_data (end_suboption se_command t)
    else if c == iac
    then with_ts ts_sb (record t { subbuffer = accum c t.subbuffer })
    else got_iac sys c (end_suboption c t)
on_byte sys c ts_will t = negotiate willoption c t
on_byte sys c ts_wont t = negotiate wontoption c t
on_byte sys c ts_do t = negotiate dooption c t
on_byte sys c ts_dont t = negotiate dontoption c t

-- `telrcv` of the bytes that came in: the state, and the bytes that the full buffer leaves.
pub telrcv : System → List ℕ → Telnetd → Telnetd × List ℕ
unfolding on_byte
telrcv sys [] t = (t, [])
telrcv sys (c ∷ cs) t =
    let rest = telrcv sys cs (on_byte sys c t.ts t) in
    if t.gone || ltb sys.bufsiz (length t.ptyobuf + 2) then (t, c ∷ cs) else rest
