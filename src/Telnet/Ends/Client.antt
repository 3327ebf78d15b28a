-- ===== src/Telnet/Ends/Client.antt =====
-- The telnet client as an end of an option that it has itself, or that the server has.
use netkit.Base.{
  ℕ, ◌≡◌, ◌≢◌, Bool, true, false, Option, none, some, List, [], ◌∷◌, if◌then◌else◌, arith,
}
use netkit.Telnetd.Options.{telopt_tm}
use netkit.Telnet.Peer.{Side, answer_side, wish_side, Peer, IsPeer}
use netkit.Telnet.Options.{
  Action, say_do, say_dont, say_will, say_wont, Asked, send_do, send_dont, send_will, send_wont,
  will_ok, do_ok, willoption, wontoption, dooption, dontoption,
}

-- The last message about the client's own option, or the server's.
abbrev pub said_will : List Action → Option Bool
said_will [] = none
said_will (say_will _ ∷ as') = some true
said_will (say_wont _ ∷ as') = some false
said_will (_ ∷ as') = said_will as'

abbrev pub said_do : List Action → Option Bool
said_do [] = none
said_do (say_do _ ∷ as') = some true
said_do (say_dont _ ∷ as') = some false
said_do (_ ∷ as') = said_do as'

-- What a handler makes of the state, and its message.
abbrev pub handled : (List Action → Option Bool) → (Asked → Asked) → Asked → Asked × Option Bool
handled said f c = let c' = f (record c { log = [] }) in (c', said c'.log)

-- An option of the client's own.
unfoldable pub holder : Bool → ℕ → Peer Asked
holder has_display option = record {
  answer = λ m. handled said_will (if m then dooption has_display option else dontoption option);
  wish = λ m. handled said_will (if m then send_will option else send_wont option);
  view = λ c. record {
    state = c.opt.my_state;
    want = c.opt.my_want_state;
    resp = c.opt.will_wont_resp;
  };
}

-- An option of the server's.
unfoldable pub other : Bool → ℕ → Peer Asked
other kludge option = record {
  answer = λ m. handled said_do (if m then willoption option else wontoption kludge option);
  wish = λ m. handled said_do (if m then send_do option else send_dont option);
  view = λ c. record {
    state = c.opt.his_state;
    want = c.opt.his_want_state;
    resp = c.opt.do_dont_resp;
  };
}

-- Both parts of what an operation comes to.
abbrev pub Does : (Asked → Side) → Asked × Option Bool → Side × Option Bool → Type 0
Does view a b = (view a.0 ≡ b.0) × (a.1 ≡ b.1)

module _ (has_display : Bool) (option : ℕ) (not_tm : option ≢ telopt_tm) where
  holder-answer :
      (m : Bool) (c : Asked)
      → Does
          (holder has_display option).view
          ((holder has_display option).answer m c)
          (answer_side (do_ok has_display option) false m ((holder has_display option).view c))
  unfolding holder dooption dontoption answer_side
  holder-answer true c = ground arith
  holder-answer false c = ground arith

  holder-wish :
      (m : Bool) (c : Asked)
      → Does
          (holder has_display option).view
          ((holder has_display option).wish m c)
          (wish_side m ((holder has_display option).view c))
  unfolding holder send_will send_wont wish_side
  holder-wish true c = ground arith
  holder-wish false c = ground arith

  pub holder-IsPeer : IsPeer (do_ok has_display option) false (holder has_display option)
  holder-IsPeer = record {
    view_answer = λ m c. (holder-answer m c).0;
    sent_answer = λ m c. (holder-answer m c).1;
    view_wish = λ m c. (holder-wish m c).0;
    sent_wish = λ m c. (holder-wish m c).1;
  }

module _ (kludge : Bool) (option : ℕ) (not_tm : option ≢ telopt_tm) where
  other-answer :
      (m : Bool) (c : Asked)
      → Does
          (other kludge option).view
          ((other kludge option).answer m c)
          (answer_side (will_ok option) false m ((other kludge option).view c))
  unfolding other willoption wontoption answer_side
  other-answer true c = ground arith
  other-answer false c = ground arith

  other-wish :
      (m : Bool) (c : Asked)
      → Does
          (other kludge option).view
          ((other kludge option).wish m c)
          (wish_side m ((other kludge option).view c))
  unfolding other send_do send_dont wish_side
  other-wish true c = ground arith
  other-wish false c = ground arith

  pub other-IsPeer : IsPeer (will_ok option) false (other kludge option)
  other-IsPeer = record {
    view_answer = λ m c. (other-answer m c).0;
    sent_answer = λ m c. (other-answer m c).1;
    view_wish = λ m c. (other-wish m c).0;
    sent_wish = λ m c. (other-wish m c).1;
  }
