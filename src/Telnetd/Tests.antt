-- ===== src/Telnetd/Tests.antt =====
-- Runs of the telnet server on small inputs.
use netkit.Base.{◌+◌, ◌≡◌, inl, inr, refl, true, false, none, some, [], ◌∷◌, arith}
use netkit.Telnetd.Options.{Opt, Negotiation, send_do}
use netkit.Telnetd.Options.Answers.{willoption}
use netkit.Telnetd.Options.Settle.{
  said, will, wont, do_wish, run, IsAgreed, echo_unanswered, run-IsAgreed, run-his_state,
}
use netkit.Telnetd.Receive.{Telnetd, System, ts_data, telrcv}
use netkit.Telnetd.Receive.Bounds.{Fits, telrcv-Fits}

abbrev off : Opt
off = record {
  my_state = false;
  my_want_state = false;
  his_state = false;
  his_want_state = false;
  do_dont_resp = 0;
  will_wont_resp = 0;
}

abbrev fresh : Negotiation
fresh = record { opt = off; not42 = true; turn_on_sga = false; gone = false; log = [] }

echo_unanswered_example :
    (said (willoption 1 (send_do 1 fresh)).log ≡ 0 + 1)
    × ((willoption 1 (send_do 1 fresh)).opt.his_state ≡ true)
    × ((willoption 1 (send_do 1 fresh)).opt.his_want_state ≡ true)
echo_unanswered_example = echo_unanswered 1 fresh (refl, refl, refl)

run-IsAgreed_example : IsAgreed (run 3 (inl will ∷ inr do_wish ∷ []) fresh).opt
run-IsAgreed_example = run-IsAgreed 3 (inl will ∷ inr do_wish ∷ []) fresh (λ _. refl)

abbrev on : Negotiation
on = record fresh { opt = record off { his_state = true; his_want_state = true } }

run-his_state_example : (run 0 (inl wont ∷ []) on).opt.his_state ≡ true
run-his_state_example = run-his_state 0 (inl wont ∷ []) on refl

abbrev sys : System
sys = record {
  slc_ao = none;
  slc_ip = some 3;
  slc_abort = none;
  slc_susp = none;
  slc_eof = some 4;
  slc_ec = some 127;
  slc_el = some 21;
  has_tcsig = false;
  wrote_all = λ t. true;
  bufsiz = 16;
}

abbrev idle : Telnetd
idle = record {
  ts = ts_data;
  opts = λ j. off;
  not42 = true;
  turn_on_sga = false;
  gone = false;
  ptyobuf = [];
  subbuffer = [];
  log = [];
}

telrcv-Fits_example : Fits sys (telrcv sys (255 ∷ 244 ∷ 97 ∷ []) idle).0
telrcv-Fits_example =
    telrcv-Fits sys (255 ∷ 244 ∷ 97 ∷ []) idle (record { pty = omega arith; sub = omega arith })
