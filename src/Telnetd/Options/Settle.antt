-- ===== src/Telnetd/Options/Settle.antt =====
-- How a negotiation comes to rest.
use netkit.Base.{ℕ, ◌+◌, ◌≡◌, ◌≢◌, true, false, List, [], ◌∷◌, ◌⊎◌, inl, inr, arith}
use netkit.Telnetd.Options.{
  Action, say_do, say_dont, say_will, say_wont, Opt, Negotiation, telopt_tm, telopt_echo,
  telopt_logout, telopt_sga, send_do, send_dont, send_will, send_wont,
}
use netkit.Telnetd.Options.Answers.{will_ok, do_ok, willoption, wontoption, dooption, dontoption}

-- How many messages of the negotiation were sent.
abbrev pub said : List Action → ℕ
said [] = 0
said (say_do _ ∷ as') = said as' + 1
said (say_dont _ ∷ as') = said as' + 1
said (say_will _ ∷ as') = said as' + 1
said (say_wont _ ∷ as') = said as' + 1
said (_ ∷ as') = said as'

-- The peer does not have the option on, and no answer about it is awaited.
abbrev pub HeIsIdle : Opt → Type 0
HeIsIdle o = (o.his_state ≡ false) × (o.his_want_state ≡ false) × (o.do_dont_resp ≡ 0)

abbrev pub IAmIdle : Opt → Type 0
IAmIdle o = (o.my_state ≡ false) × (o.my_want_state ≡ false) × (o.will_wont_resp ≡ 0)

module _ (option : ℕ) (n : Negotiation) where
  -- A DO that the server sends at rest is settled by the peer's answer, with nothing more said: a
  -- WILL has the option on, a WONT leaves it off.
  pub send_do-settles :
      option ≢ telopt_tm
      → HeIsIdle n.opt
      → ((willoption option (send_do option n)).opt
          ≡ record n.opt { his_state = true; his_want_state = true })
        × (said (willoption option (send_do option n)).log ≡ said n.log + 1)
        × ((wontoption option (send_do option n)).opt ≡ n.opt)
        × (said (wontoption option (send_do option n)).log ≡ said n.log + 1)
  unfolding willoption wontoption send_do
  send_do-settles ne idle = ground arith

  -- A WILL that comes at rest is answered once. For an option that the server wants the answer is
  -- DO, and the option is on. For another one, but ECHO and TM, it is DONT, and the peer's WONT is
  -- then taken with nothing more said.
  pub willoption-settles :
      HeIsIdle n.opt
      → option ≢ telopt_tm
      → ((will_ok option ≡ true)
          × ((willoption option n).opt ≡ record n.opt { his_state = true; his_want_state = true })
          × (said (willoption option n).log ≡ said n.log + 1))
        ⊎ ((will_ok option ≡ false)
            × ((wontoption option (willoption option n)).opt ≡ record n.opt { his_state = true })
            × (said (wontoption option (willoption option n)).log ≡ said n.log + 1))
  unfolding willoption wontoption
  willoption-settles idle ne = ground arith

  -- A DO that comes at rest is answered once. For an option that the server has the answer is WILL,
  -- and a later DONT turns the option off again with one more message, but for SGA; for another
  -- one, but TM and LOGOUT, it is WONT, and the peer's DONT then restores the rest.
  pub dooption-settles :
      IAmIdle n.opt
      → option ≢ telopt_tm
      → option ≢ telopt_logout
      → option ≢ telopt_sga
      → ((do_ok option ≡ true)
          × ((dooption option n).opt ≡ record n.opt { my_state = true; my_want_state = true })
          × (said (dooption option n).log ≡ said n.log + 1)
          × ((dontoption option (dooption option n)).opt ≡ n.opt)
          × (said (dontoption option (dooption option n)).log ≡ said n.log + 2))
        ⊎ ((do_ok option ≡ false)
            × ((dontoption option (dooption option n)).opt ≡ n.opt)
            × (said (dontoption option (dooption option n)).log ≡ said n.log + 1))
  unfolding dooption dontoption
  dooption-settles idle not_tm not_logout not_sga = ground arith

  -- A WILL that answers the server's DO ECHO is not answered: the DONT of `willoption` for it is
  -- held back by `send_dont`, to which the option is still off.
  pub echo_unanswered :
      HeIsIdle n.opt
      → (said (willoption telopt_echo (send_do telopt_echo n)).log ≡ said n.log + 1)
        × ((willoption telopt_echo (send_do telopt_echo n)).opt.his_state ≡ true)
        × ((willoption telopt_echo (send_do telopt_echo n)).opt.his_want_state ≡ true)
  unfolding willoption send_do send_dont
  echo_unanswered idle = ground arith

-- What comes in about an option.
pub data Message : Type 0 where
  will wont do_it dont : Message

pub on_message : Message → ℕ → Negotiation → Negotiation
unfolding willoption wontoption dooption dontoption
on_message will option n = willoption option n
on_message wont option n = wontoption option n
on_message do_it option n = dooption option n
on_message dont option n = dontoption option n

-- What the server itself may ask for.
pub data Wish : Type 0 where
  do_wish dont_wish will_wish wont_wish : Wish

pub wish : Wish → ℕ → Negotiation → Negotiation
unfolding send_do send_dont send_will send_wont
wish do_wish option n = send_do option n
wish dont_wish option n = send_dont option n
wish will_wish option n = send_will option n
wish wont_wish option n = send_wont option n

pub run : ℕ → List (Message ⊎ Wish) → Negotiation → Negotiation
unfolding on_message wish
run option [] n = n
run option (inl m ∷ es) n = run option es (on_message m option n)
run option (inr w ∷ es) n = run option es (wish w option n)

-- With no answer awaited, the server's own state is the one that it wants.
abbrev pub IsAgreed : Opt → Type 0
IsAgreed o = o.will_wont_resp ≡ 0 → o.my_state ≡ o.my_want_state

on_message-IsAgreed :
    (m : Message) (option : ℕ) (n : Negotiation)
    → IsAgreed n.opt
    → IsAgreed (on_message m option n).opt
unfolding on_message
on_message-IsAgreed will option n h z = ground (arith, h)
on_message-IsAgreed wont option n h z = ground (arith, h)
on_message-IsAgreed do_it option n h z = ground arith
on_message-IsAgreed dont option n h z = ground arith

wish-IsAgreed :
    (w : Wish) (option : ℕ) (n : Negotiation) → IsAgreed n.opt → IsAgreed (wish w option n).opt
unfolding wish
wish-IsAgreed do_wish option n h z = ground (arith, h)
wish-IsAgreed dont_wish option n h z = ground (arith, h)
wish-IsAgreed will_wish option n h z = ground (arith, h)
wish-IsAgreed wont_wish option n h z = ground (arith, h)

-- Whatever comes in and whatever the server wishes, where no answer is awaited its own state is
-- the one that it wants.
pub run-IsAgreed :
    (option : ℕ) (es : List (Message ⊎ Wish)) (n : Negotiation)
    → IsAgreed n.opt
    → IsAgreed (run option es n).opt
unfolding run
run-IsAgreed option [] n h = h
run-IsAgreed option (inl m ∷ es) n h =
    run-IsAgreed option es (on_message m option n) (on_message-IsAgreed m option n h)
run-IsAgreed option (inr w ∷ es) n h =
    run-IsAgreed option es (wish w option n) (wish-IsAgreed w option n h)

on_message-his_state :
    (m : Message) (option : ℕ) (n : Negotiation)
    → n.opt.his_state ≡ true
    → (on_message m option n).opt.his_state ≡ true
unfolding on_message
on_message-his_state will option n h = ground arith
on_message-his_state wont option n h = ground arith
on_message-his_state do_it option n h = ground arith
on_message-his_state dont option n h = ground arith

wish-his_state :
    (w : Wish) (option : ℕ) (n : Negotiation)
    → n.opt.his_state ≡ true
    → (wish w option n).opt.his_state ≡ true
unfolding wish
wish-his_state do_wish option n h = ground arith
wish-his_state dont_wish option n h = ground arith
wish-his_state will_wish option n h = ground arith
wish-his_state wont_wish option n h = ground arith

-- Once the peer has an option on, the server holds it to be on for ever, also behind its WONT.
pub run-his_state :
    (option : ℕ) (es : List (Message ⊎ Wish)) (n : Negotiation)
    → n.opt.his_state ≡ true
    → (run option es n).opt.his_state ≡ true
unfolding run
run-his_state option [] n h = h
run-his_state option (inl m ∷ es) n h =
    run-his_state option es (on_message m option n) (on_message-his_state m option n h)
run-his_state option (inr w ∷ es) n h =
    run-his_state option es (wish w option n) (wish-his_state w option n h)
