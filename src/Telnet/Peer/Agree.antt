-- ===== src/Telnet/Peer/Agree.antt =====
-- Two ends of which one takes the option come to agree on it.
use mathlib.Core.Path.{subst}
use netkit.Base.{
  sym, ℕ, ◌≡◌, refl, ap, ap₂, ◌∙◌, Bool, true, false, not, Option, none, some, List, [], ◌∷◌, ◌==◌,
  ◌||◌, if◌then◌else◌, arith,
}
use netkit.Telnetd.Options.Answers.{discount}
use netkit.Telnet.Peer.{
  Side, answer_side, wish_side, Peer, IsPeer, Link, receive, ask, round, exchange, exchanges,
}

abbrev side : Bool → Bool → ℕ → Side
side state want resp = record { state = state; want = want; resp = resp }

-- The ways in which the two ends may be at rest: the option is on at both; or off, also where the
-- far end keeps its bit of it, or one end has refused it and has not heard of that.
pub data Rest : Type 0 where
  on off kept near_refused far_refused : Rest

abbrev pub near_of : Rest → Side
near_of on = side true true 0
near_of near_refused = side true false 1
near_of _ = side false false 0

abbrev pub far_of : Rest → Side
far_of on = side true true 0
far_of kept = side true false 0
far_of far_refused = side true false 1
far_of _ = side false false 0

-- Whether the ends are at rest, and nothing is on its way.
abbrev pub is_rest : Bool → Bool → Bool → Rest → Bool
is_rest ok ok' keeps on = true
is_rest ok ok' keeps off = true
is_rest ok ok' keeps kept = keeps
is_rest ok ok' keeps near_refused = not ok
is_rest ok ok' keeps far_refused = not ok'

abbrev at_rest : Rest → Link Side Side
at_rest r = record { near = near_of r; far = far_of r; to_near = none; to_far = none }

module _ (ok ok' keeps : Bool) where
  abbrev near_peer : Peer Side
  near_peer = record { answer = answer_side ok false; wish = wish_side; view = λ s. s }

  abbrev far_peer : Peer Side
  far_peer = record { answer = answer_side ok' keeps; wish = wish_side; view = λ s. s }

  -- How a link is at rest that is.
  abbrev pub rest_of : Link Side Side → Rest
  rest_of l =
      if l.near.want
      then on
      else if l.near.state
      then near_refused
      else if not l.far.state
      then off
      else if l.far.resp == 0
      then kept
      else far_refused

  abbrev IsRest : Link Side Side → Type 0
  IsRest l = (is_rest ok ok' keeps (rest_of l) ≡ true) × (l ≡ at_rest (rest_of l))

exchange-IsRest :
    (ok ok' keeps : Bool) (v w : Option Bool) (r : Rest)
    → (ok || ok') ≡ true
    → is_rest ok ok' keeps r ≡ true
    → IsRest ok ok' keeps
        (exchange (near_peer ok ok' keeps) (far_peer ok ok' keeps) v w (near_of r) (far_of r))
unfolding exchange ask round receive answer_side wish_side discount
exchange-IsRest ok ok' keeps v w r h i = ground arith

link-ext :
    {s s' t t' : Side} {a a' b b' : Option Bool}
    → s ≡ s'
    → t ≡ t'
    → a ≡ a'
    → b ≡ b'
    → ◌≡◌ {A = Link Side Side}
        (record { near = s; far = t; to_near = a; to_far = b })
        (record { near = s'; far = t'; to_near = a'; to_far = b' })
link-ext e f g h = λ i. record { near = e i; far = f i; to_near = g i; to_far = h i }

near-IsRest :
    (ok ok' keeps : Bool) (r : Rest)
    → is_rest ok ok' keeps r ≡ true
    → IsRest ok ok' keeps (at_rest r)
near-IsRest ok ok' keeps r i = ground arith

near-far-want : (r : Rest) → (near_of r).want ≡ (far_of r).want
near-far-want r = ground arith

module _ {U : Type 0} (ok keeps : Bool) (u : Peer U) (law : IsPeer ok keeps u) where
  abbrev model : Peer Side
  model = record { answer = answer_side ok keeps; wish = wish_side; view = λ s. s }

  receive-view :
      (m : Option Bool) (s : U)
      → (u.view (receive u m s).0 ≡ (receive model m (u.view s)).0)
        × ((receive u m s).1 ≡ (receive model m (u.view s)).1)
  unfolding receive
  receive-view none s = (refl, refl)
  receive-view (some m) s = (law.view_answer m s, law.sent_answer m s)

  ask-view :
      (m : Option Bool) (s : U)
      → (u.view (ask u m s).0 ≡ (ask model m (u.view s)).0)
        × ((ask u m s).1 ≡ (ask model m (u.view s)).1)
  unfolding ask
  ask-view none s = (refl, refl)
  ask-view (some m) s = (law.view_wish m s, law.sent_wish m s)

module _ {S T : Type 0} (p : Peer S) (q : Peer T) where
  abbrev pub view_link : Link S T → Link Side Side
  view_link l = record {
    near = p.view l.near;
    far = q.view l.far;
    to_near = l.to_near;
    to_far = l.to_far;
  }

module _ {S T : Type 0} (ok ok' keeps : Bool) (p : Peer S) (q : Peer T)
    (near_law : IsPeer ok false p) (far_law : IsPeer ok' keeps q) where
  abbrev P : Peer Side
  P = near_peer ok ok' keeps

  abbrev Q : Peer Side
  Q = far_peer ok ok' keeps

  round-view : (l : Link S T) → view_link p q (round p q l) ≡ round P Q (view_link p q l)
  unfolding round
  round-view l =
      let (a, b) = receive-view ok false p near_law l.to_near l.near in
      let (c, d) = receive-view ok' keeps q far_law l.to_far l.far in link-ext a c d b

  exchange-view :
      (v w : Option Bool) (s : S) (t : T)
      → view_link p q (exchange p q v w s t) ≡ exchange P Q v w (p.view s) (q.view t)
  unfolding exchange
  exchange-view v w s t =
      let (a, b) = ask-view ok false p near_law v s in
      let (c, d) = ask-view ok' keeps q far_law w t in
      let begun : Link S T = record {
        near = (ask p v s).0;
        far = (ask q w t).0;
        to_near = (ask q w t).1;
        to_far = (ask p v s).1;
      } in
      round-view (round p q begun)
      ∙ ap (round P Q) (round-view begun ∙ ap (round P Q) (link-ext a c d b))

  exchanges-IsRest :
      (ok || ok') ≡ true
      → (ws : List (Option Bool × Option Bool)) (r : Rest) (s : S) (t : T)
      → is_rest ok ok' keeps r ≡ true
      → p.view s ≡ near_of r
      → q.view t ≡ far_of r
      → IsRest ok ok' keeps (view_link p q (exchanges p q ws s t))
  unfolding exchanges
  exchanges-IsRest h [] r s t i e f = rw (e, f) (near-IsRest ok ok' keeps r i)
  exchanges-IsRest h ((v, w) ∷ ws) r s t i e f =
      let l = exchange p q v w s t in
      let seen : view_link p q l ≡ exchange P Q v w (near_of r) (far_of r) =
        exchange-view v w s t ∙ ap₂ (exchange P Q v w) e f in
      let (j, rests) =
        subst (IsRest ok ok' keeps) (sym seen) (exchange-IsRest ok ok' keeps v w r h i) in
      exchanges-IsRest h ws (rest_of ok ok' keeps (view_link p q l)) l.near l.far j
        (ap (λ k. k.near) rests) (ap (λ k. k.far) rests)

  -- Two ends of which one takes the option, and which are at rest, are at rest again after any
  -- wishes of the two, one after the other or at once: nothing is on its way, and both want the
  -- same.
  pub exchanges-agree :
      (ok || ok') ≡ true
      → (ws : List (Option Bool × Option Bool)) (r : Rest) (s : S) (t : T)
      → is_rest ok ok' keeps r ≡ true
      → p.view s ≡ near_of r
      → q.view t ≡ far_of r
      → let l = exchanges p q ws s t in
        (l.to_near ≡ none) × (l.to_far ≡ none) × ((p.view l.near).want ≡ (q.view l.far).want)
  exchanges-agree h ws r s t i e f =
      let l = exchanges p q ws s t in
      let (j, rests) = exchanges-IsRest h ws r s t i e f in
      (
        ap (λ k. k.to_near) rests,
        ap (λ k. k.to_far) rests,
        ap (λ k. k.near.want) rests
            ∙ near-far-want (rest_of ok ok' keeps (view_link p q l))
            ∙ sym (ap (λ k. k.far.want) rests),
      )
