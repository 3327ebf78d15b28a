-- ===== src/Telnet/Tests.antt =====
-- Runs of the telnet client on small inputs.
use netkit.Base.{
  All, ℕ, ◌≡◌, ◌==◌, refl, if◌then◌else◌, Bool, true, false, Option, none, some, List, [], ◌∷◌,
  take, length-take, min, rev_onto, flatten, arith, inl,
}
use netkit.Telnetd.Options.{Opt, Negotiation}
use netkit.Telnetd.Send.{pty_to_net}
use netkit.Telnetd.Receive.{Telnetd, System, ts_data, telrcv}
use netkit.Telnetd.Options.Answers
use netkit.Telnet.Options
use netkit.Telnet.Options.{Asked}
use netkit.Telnet.Receive.{Client, Local, telrcv_all}
use netkit.Telnet.Receive.Wire.{here}
use netkit.Telnet.Screen.{telrcv_all-pty_to_net}
use netkit.Telnet.Send.{Keys, Sender, telsnd}
use netkit.Telnet.Send.Ends.{telsnd-ends}
use netkit.Telnet.Send.Typed.{typed, telsnd-telrcv}
use netkit.Telnet.Ring.{init, set_mark, write, flush, flush_loop}
use netkit.Telnet.Ring.Source.{IsSource}
use netkit.Telnet.Ring.Queue.{contents}
use netkit.Telnet.Ring.Input.{
  Op, op_getch, op_peek, op_gets, op_read, run_all, AllOnQueue, Keeps, init-AllOnQueue,
}
use netkit.Telnet.Ring.Output.{IsSink}
use netkit.Telnet.Ring.Stream
use netkit.Telnet.Ring.Overflow.{flush-write_full}
use netkit.Telnet.Peer.{exchanges}
use netkit.Telnet.Peer.Agree.{off}
use netkit.Telnet.Ends.Client
use netkit.Telnet.Ends.Server
use netkit.Telnet.Ends.Agree.{client_options_agree, server_options_agree}

abbrev no_opt : Opt
no_opt = record {
  my_state = false;
  my_want_state = false;
  his_state = false;
  his_want_state = false;
  do_dont_resp = 0;
  will_wont_resp = 0;
}

abbrev client : Client
client = record {
  telrcv_state = ts_data;
  opts = λ option. if option == 1 then record no_opt { his_want_state = true } else no_opt;
  kludgelinemode = false;
  linemode = false;
  flushout = false;
  synching = false;
  localflow = false;
  flushline = false;
  ttyoring = [];
  subbuffer = [];
  log = [];
}

abbrev loc : Local
loc = record { ttysize = 64; crmod = false; has_display = false; stilloob = false }

-- A carriage return of its own, IAC, and the end of a line, torn apart.
abbrev given : List ℕ
given = 97 ∷ 13 ∷ 255 ∷ 13 ∷ 10 ∷ []

abbrev pieces : List (List ℕ)
pieces = (97 ∷ 13 ∷ []) ∷ (0 ∷ 255 ∷ []) ∷ (255 ∷ 13 ∷ []) ∷ (10 ∷ []) ∷ []

telrcv_all-pty_to_net_example :
    telrcv_all loc pieces [] (here client ts_data [])
    ≡ (here client ts_data (rev_onto given []), [])
unfolding pty_to_net rev_onto flatten
telrcv_all-pty_to_net_example =
    telrcv_all-pty_to_net loc 16 false client pieces given []
      (record { binary_on = refl; echo_on = refl; heard = (refl, refl); plain = refl })
      (omega arith) (omega arith) refl

abbrev keys : Keys
keys = record {
  rlogin = 0;
  escapechar = 29;
  eof_char = 4;
  susp_char = 26;
  int_char = 3;
  quit_char = 28;
  flush_char = 15;
  kill_char = 21;
  erase_char = 127;
  echoc = 5;
  crlf = false;
  kludgelinemode = true;
  mode_edit = false;
  local_chars = false;
  linemode = false;
  binary = false;
  netsize = 64;
}

-- An IAC and an escape character, which stands twice.
abbrev at_keys : Sender
at_keys = record {
  bol = true;
  local_ = false;
  flushline = false;
  dontlecho = false;
  ttyiring = 255 ∷ 29 ∷ 29 ∷ 13 ∷ [];
  netoring = [];
  log = [];
}

abbrev sys : System
sys = record {
  slc_ao = none;
  slc_ip = some 3;
  slc_abort = none;
  slc_susp = none;
  slc_eof = some 4;
  slc_ec = some 127;
  slc_el = some 21;
  has_tcsig = false;
  wrote_all = λ t. true;
  bufsiz = 16;
}

abbrev server : Telnetd
server = record {
  ts = ts_data;
  opts = λ j. no_opt;
  not42 = true;
  turn_on_sga = false;
  gone = false;
  ptyobuf = [];
  subbuffer = [];
  log = [];
}

telsnd-telrcv_example :
    (s' : Sender) × (did : Bool) × (telsnd keys at_keys ≡ some (s', did))
    × (s'.ttyiring ≡ [])
    × (s'.log ≡ [])
    × (telrcv sys (rev_onto s'.netoring []) server
        ≡ (record server { ts = ts_data; ptyobuf = rev_onto (255 ∷ 29 ∷ 13 ∷ []) [] }, []))
unfolding typed
telsnd-telrcv_example =
    telsnd-telrcv keys at_keys (255 ∷ 29 ∷ 13 ∷ []) sys server
      (record { no_rlogin = refl; no_edit = refl; no_local = refl; text = refl; plain_cr = refl })
      refl refl (omega arith)
      (record { data_state = refl; here = refl; text = refl; room = omega arith })

telsnd-ends_example : (r : Sender × Bool) × (telsnd (record keys { rlogin = 126 }) at_keys ≡ some r)
telsnd-ends_example = telsnd-ends (record keys { rlogin = 126 }) at_keys

-- A source that has three bytes, and takes what there is room for.
abbrev source : ℕ → Option (List ℕ)
source n = some (take n (7 ∷ 8 ∷ 9 ∷ []))

source-IsSource : IsSource source
source-IsSource n cs e =
    let bytes : List ℕ = 7 ∷ 8 ∷ 9 ∷ [] in let l = length-take n bytes in ground (arith, l, e)

abbrev ops : List Op
ops = op_read source ∷ op_peek ∷ op_getch ∷ op_gets 1 ∷ op_read source ∷ []

ops-Keeps : All Keeps ops
unfolding Keeps
ops-Keeps = (source-IsSource, (tt, (tt, (tt, (source-IsSource, tt)))))

init-AllOnQueue_example :
    AllOnQueue 4 ops []
      (run_all ops (init (λ i. 0) 4)).0
      (contents (run_all ops (init (λ i. 0) 4)).1)
init-AllOnQueue_example = init-AllOnQueue ops (λ i. 0) 4 ops-Keeps (omega arith)

-- A sink that takes two bytes at once.
abbrev sink : ℕ → ℕ → Option ℕ
sink i len = some (min 2 len)

sink-IsSink : IsSink sink
sink-IsSink i len n e = ground (arith, e)

-- Bytes around the end of the buffer, of which the last two are urgent.
abbrev stream_ops : List Stream.Op
stream_ops =
    Stream.op_write (1 ∷ 2 ∷ 3 ∷ [])
    ∷ Stream.op_flush false sink
    ∷ Stream.op_write (4 ∷ [])
    ∷ Stream.op_urgent
    ∷ Stream.op_write (5 ∷ [])
    ∷ Stream.op_flush false sink
    ∷ []

run-start-Delivers_example :
    Stream.Delivers (1 ∷ 2 ∷ 3 ∷ 4 ∷ 5 ∷ []) (Stream.run stream_ops (Stream.start (λ i. 0) 4))
unfolding Stream.all_put_in Stream.put_in Stream.AllFit Stream.start Stream.step init write flush
    flush_loop set_mark
run-start-Delivers_example =
    Stream.run-start-Delivers stream_ops (λ i. 0) 4 (omega arith)
      (omega arith, (sink-IsSink, (omega arith, (tt, (omega arith, (sink-IsSink, tt))))))

flush-write_full_example :
    (flush false sink (write (5 ∷ 6 ∷ 7 ∷ []) (init (λ i. 0) 3))).result ≡ none
unfolding init
flush-write_full_example =
    flush-write_full sink (5 ∷ 6 ∷ 7 ∷ []) (init (λ i. 0) 3)
      (omega arith, omega arith, omega arith, inl refl) (omega arith) refl (omega arith)

abbrev asked : Asked
asked = record { opt = no_opt; flushout = false; log = [] }

abbrev fresh : Negotiation
fresh = record { opt = no_opt; not42 = true; turn_on_sga = false; gone = false; log = [] }

-- Both wish for NAWS at once, then the client wishes it off.
abbrev wishes : List (Option Bool × Option Bool)
wishes = (some true, some true) ∷ (some false, none) ∷ []

client_options_agree_example :
    ((exchanges (Client.holder false 31) (Server.other 31) wishes asked fresh).to_near ≡ none)
    × ((exchanges (Client.holder false 31) (Server.other 31) wishes asked fresh).to_far ≡ none)
    × (((Client.holder false 31).view
          (exchanges (Client.holder false 31) (Server.other 31) wishes asked fresh).near).want
        ≡ ((Server.other 31).view
            (exchanges (Client.holder false 31) (Server.other 31) wishes asked fresh).far).want)
unfolding Client.holder Server.other Options.do_ok
client_options_agree_example =
    client_options_agree false 31 refl wishes off asked fresh refl refl refl

server_options_agree_example :
    ((exchanges (Server.holder 1) (Client.other true 1) wishes fresh asked).to_near ≡ none)
    × ((exchanges (Server.holder 1) (Client.other true 1) wishes fresh asked).to_far ≡ none)
    × (((Server.holder 1).view
          (exchanges (Server.holder 1) (Client.other true 1) wishes fresh asked).near).want
        ≡ ((Client.other true 1).view
            (exchanges (Server.holder 1) (Client.other true 1) wishes fresh asked).far).want)
unfolding Client.other Server.holder Answers.do_ok
server_options_agree_example =
    server_options_agree true 1 refl (λ e. absurd (ground (arith, e))) wishes off fresh asked refl
      refl refl
