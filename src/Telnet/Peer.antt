-- ===== src/Telnet/Peer.antt =====
-- One direction of one option between the two ends of a telnet connection: what the messages about
-- it make of the two bits and the counter that each end keeps of it.

pub mod Agree
use netkit.Base.{
  ℕ, ◌+◌, ◌≡◌, Bool, true, false, not, Option, none, some, List, [], ◌∷◌, ◌==◌, ◌&&◌, ◌||◌,
  if◌then◌else◌,
}
use netkit.Telnetd.Options.Answers.{discount}

-- `state` and `want` are MY_STATE_x and MY_WANT_STATE_x of the option, and `resp` its counter.
pub record Side : Type 0 where
  pub state : Bool
  pub want : Bool
  pub resp : ℕ

-- What an end does with a message, WILL or DO, or WONT or DONT (`false`): its bits, and its answer.
-- `ok` says that it takes the option, and `keeps` that it leaves `state` as it is at a refusal.
unfoldable pub answer_side : Bool → Bool → Bool → Side → Side × Option Bool
answer_side ok keeps true s =
    let r = discount s.state s.resp in
    if r == 0 && not s.want
    then (if ok
        then (record { state = true; want = true; resp = r }, some true)
        else (record { state = true; want = false; resp = r + 1 }, some false))
    else (record { state = true; want = s.want; resp = r }, none)
answer_side ok keeps false s =
    let r = discount (not s.state) s.resp in
    let state = keeps && s.state in
    if r == 0 && s.want
    then (record { state = state; want = false; resp = r }, if s.state then some false else none)
    else (record { state = state; want = s.want; resp = r }, none)

-- What an end does that wishes the option on or off by itself.
unfoldable pub wish_side : Bool → Side → Side × Option Bool
wish_side true s =
    if s.resp == 0 && s.state || s.want
    then (s, none)
    else (record s { want = true; resp = s.resp + 1 }, some true)
wish_side false s =
    if s.resp == 0 && not s.state || not s.want
    then (s, none)
    else (record s { want = false; resp = s.resp + 1 }, some false)

-- The operations of an end with states `S`, and what it holds of the option.
pub record Peer (S : Type 0) : Type 0 where
  pub answer : Bool → S → S × Option Bool
  pub wish : Bool → S → S × Option Bool
  pub view : S → Side

-- The operations do what `answer_side` and `wish_side` say.
pub record IsPeer {S : Type 0} (ok keeps : Bool) (p : Peer S) : Type 0 where
  pub view_answer :
      (m : Bool) (s : S) → p.view (p.answer m s).0 ≡ (answer_side ok keeps m (p.view s)).0
  pub sent_answer : (m : Bool) (s : S) → (p.answer m s).1 ≡ (answer_side ok keeps m (p.view s)).1
  pub view_wish : (m : Bool) (s : S) → p.view (p.wish m s).0 ≡ (wish_side m (p.view s)).0
  pub sent_wish : (m : Bool) (s : S) → (p.wish m s).1 ≡ (wish_side m (p.view s)).1

-- The two ends, and what is on its way to each.
pub record Link (S T : Type 0) : Type 0 where
  pub near : S
  pub far : T
  pub to_near : Option Bool
  pub to_far : Option Bool

receive : {U : Type 0} → Peer U → Option Bool → U → U × Option Bool
receive u none s = (s, none)
receive u (some m) s = u.answer m s

ask : {U : Type 0} → Peer U → Option Bool → U → U × Option Bool
ask u none s = (s, none)
ask u (some m) s = u.wish m s

module _ {S T : Type 0} (p : Peer S) (q : Peer T) where
  -- What is on its way arrives, and the answers are on their way.
  round : Link S T → Link S T
  unfolding receive
  round l =
      let (s, a) = receive p l.to_near l.near in
      let (t, b) = receive q l.to_far l.far in record { near = s; far = t; to_near = b; to_far = a }

  -- Both ends may wish for a change, at once, and then two rounds pass.
  pub exchange : Option Bool → Option Bool → S → T → Link S T
  unfolding ask round
  exchange v w s t =
      let (s', a) = ask p v s in
      let (t', b) = ask q w t in
      round (round (record { near = s'; far = t'; to_near = b; to_far = a }))

  pub exchanges : List (Option Bool × Option Bool) → S → T → Link S T
  unfolding exchange
  exchanges [] s t = record { near = s; far = t; to_near = none; to_far = none }
  exchanges ((v, w) ∷ ws) s t = let l = exchange v w s t in exchanges ws l.near l.far
