-- ===== src/Telnet/Ends/Agree.antt =====
-- The telnet client and the telnet server agree on an option that one of them takes.
use netkit.Base.{ℕ, ◌≡◌, ◌≢◌, Bool, true, false, none, Option, List, ◌||◌, arith}
use netkit.Telnetd.Options.{telopt_tm, telopt_echo, telopt_sga, telopt_logout, Negotiation}
use netkit.Telnetd.Options.Answers
use netkit.Telnet.Options
use netkit.Telnet.Options.{Asked}
use netkit.Telnet.Peer.{exchanges}
use netkit.Telnet.Peer.Agree.{Rest, near_of, far_of, is_rest, exchanges-agree}
use netkit.Telnet.Ends.Client
use netkit.Telnet.Ends.Server

-- The client takes it for itself, or the server of the client.
abbrev pub is_client_option : Bool → ℕ → Bool
is_client_option has_display option = Options.do_ok has_display option || Answers.will_ok option

-- The server takes it for itself, or the client of the server.
abbrev pub is_server_option : ℕ → Bool
is_server_option option = Answers.do_ok option || Options.will_ok option

client_option-ne :
    (has_display : Bool) (option : ℕ)
    → is_client_option has_display option ≡ true
    → (option ≢ telopt_tm) × (option ≢ telopt_echo)
unfolding Options.do_ok Answers.will_ok
client_option-ne has_display option h = (λ e. ground (arith, h, e), λ e. ground (arith, h, e))

server_option-ne :
    (option : ℕ) → is_server_option option ≡ true → (option ≢ telopt_tm) × (option ≢ telopt_logout)
unfolding Answers.do_ok Options.will_ok
server_option-ne option h = (λ e. ground (arith, h, e), λ e. ground (arith, h, e))

-- Of an option of the client that one of the two takes: from rest, whatever the client and the
-- server wish of it, one after the other or at once, what they answer comes to an end: after each
-- wish, and two rounds of answers, nothing is on its way, and both want the same.
pub client_options_agree :
    (has_display : Bool) (option : ℕ)
    → is_client_option has_display option ≡ true
    → (ws : List (Option Bool × Option Bool)) (r : Rest) (c : Asked) (n : Negotiation)
    → is_rest (Options.do_ok has_display option) (Answers.will_ok option) true r ≡ true
    → (Client.holder has_display option).view c ≡ near_of r
    → (Server.other option).view n ≡ far_of r
    → let l = exchanges (Client.holder has_display option) (Server.other option) ws c n in
      (l.to_near ≡ none)
      × (l.to_far ≡ none)
      × (((Client.holder has_display option).view l.near).want
          ≡ ((Server.other option).view l.far).want)
client_options_agree has_display option h ws r c n i e f =
    let (not_tm, not_echo) = client_option-ne has_display option h in
    exchanges-agree (Options.do_ok has_display option) (Answers.will_ok option) true
      (Client.holder has_display option) (Server.other option)
      (Client.holder-IsPeer has_display option not_tm) (Server.other-IsPeer option not_tm not_echo)
      h ws r c n i e f

-- The same of an option of the server, but SGA, which the server does not leave off.
pub server_options_agree :
    (kludge : Bool) (option : ℕ)
    → is_server_option option ≡ true
    → option ≢ telopt_sga
    → (ws : List (Option Bool × Option Bool)) (r : Rest) (n : Negotiation) (c : Asked)
    → is_rest (Answers.do_ok option) (Options.will_ok option) false r ≡ true
    → (Server.holder option).view n ≡ near_of r
    → (Client.other kludge option).view c ≡ far_of r
    → let l = exchanges (Server.holder option) (Client.other kludge option) ws n c in
      (l.to_near ≡ none)
      × (l.to_far ≡ none)
      × (((Server.holder option).view l.near).want ≡ ((Client.other kludge option).view l.far).want)
server_options_agree kludge option h not_sga ws r n c i e f =
    let (not_tm, not_logout) = server_option-ne option h in
    exchanges-agree (Answers.do_ok option) (Options.will_ok option) false (Server.holder option)
      (Client.other kludge option) (Server.holder-IsPeer option not_tm not_logout not_sga)
      (Client.other-IsPeer kludge option not_tm) h ws r n c i e f
