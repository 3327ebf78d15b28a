-- ===== src/Routed/Timer/Forget.antt =====
-- What the timer leaves in the tables.
use netkit.Base.{
  ℕ, zero, suc, ◌+◌, ◌*◌, ◌≤◌, ◌<◌, ◌≡◌, Bool, true, false, Option, none, some, List, [], ◌∷◌,
  arith, All, leb, ltb, ◌&&◌, Option-cases, inl, inr, ◌⊎◌,
}
use mathlib.Core.Path.{subst}
use netkit.Routed.Route.{
  Sockaddr, Route, Surroundings, timer_rate, garbage_time, expire_time, hopcnt_infinity,
}
use netkit.Routed.Table.{Routes, rtchange}
use netkit.Routed.Timer.{advance, settle, age, age_bucket, age_table, timer}

-- A route that the timer does not count: it is passive, or it is of an interface and the daemon
-- supplies nothing.
abbrev pub Stays : Bool → Route → Type 0
Stays supplier rt =
    (rt.state.passive ≡ true) ⊎ ((supplier ≡ false) × (rt.state.interface_route ≡ true))

-- A route `t` seconds after the timer began, if nothing was heard of it: it is passive; or of an
-- interface, and not to be poisoned; or its time advances and has come to `t` at least.
abbrev Unheard : Bool → ℕ → Route → Type 0
Unheard supplier t rt =
    (rt.state.passive ≡ true)
    ⊎ (((supplier ≡ false)
          × (rt.state.interface_route ≡ true)
          × ((rt.rt_timer < expire_time) ⊎ (hopcnt_infinity ≤ rt.metric)))
        ⊎ (((supplier ≡ true) ⊎ (rt.state.interface_route ≡ false)) × (t ≤ rt.rt_timer)))

abbrev Kept : (Route → Type 0) → Option Route → Type 0
Kept P none = Unit
Kept P (some rt) = P rt

-- Whether the timer sets a route to infinity.
abbrev is_due : Route → Bool
is_due rt = leb expire_time rt.rt_timer && ltb rt.metric hopcnt_infinity

age-cases :
    (env : Surroundings) (supplier : Bool) (rt : Route)
    → let rt' = advance supplier rt in
      (((age env supplier rt).0 ≡ none) × (leb garbage_time rt'.rt_timer ≡ true))
      ⊎ ((leb garbage_time rt'.rt_timer ≡ false)
          × ((((age env supplier rt).0 ≡ some (settle rt')) × (is_due rt' ≡ false))
              ⊎ (((age env supplier rt).0
                    ≡ some (settle (rtchange env rt' rt'.router hopcnt_infinity).0))
                  × (is_due rt' ≡ true))))
unfolding age
age-cases env supplier rt = ground arith

-- A poisoned route keeps its time, and loses at most the mark of an interface.
rtchange_flags :
    (env : Surroundings) (gate : Sockaddr) (metric : ℕ) (rt : Route)
    → let rt' = (rtchange env rt gate metric).0 in
      (rt'.state.passive ≡ rt.state.passive)
      × (rt'.rt_timer ≡ rt.rt_timer)
      × (rt'.metric ≡ metric)
      × ((rt'.state.interface_route ≡ rt.state.interface_route)
          ⊎ (rt'.state.interface_route ≡ false))
unfolding rtchange
rtchange_flags env gate metric rt = ground arith

module _ (env : Surroundings) (supplier : Bool) where
  settle-Unheard :
      (t : ℕ) (rt : Route)
      → Unheard supplier t rt
      → is_due (advance supplier rt) ≡ false
      → Unheard supplier (t + timer_rate) (settle (advance supplier rt))
  unfolding advance settle
  settle-Unheard t rt u e = ground (arith, u, e)

  poison-Unheard :
      (t : ℕ) (rt : Route)
      → Unheard supplier t rt
      → is_due (advance supplier rt) ≡ true
      → Unheard supplier (t + timer_rate) (
          settle
            (rtchange env (advance supplier rt) (advance supplier rt).router hopcnt_infinity).0)
  unfolding advance settle
  poison-Unheard t rt u e =
      let f =
        rtchange_flags env (advance supplier rt).router hopcnt_infinity (advance supplier rt) in
      ground (arith, u, e, f)

  -- The first call, of a route of which nothing is known.
  settle_first :
      (rt : Route)
      → is_due (advance supplier rt) ≡ false
      → Unheard supplier timer_rate (settle (advance supplier rt))
  unfolding advance settle
  settle_first rt e = ground (arith, e)

  poison_first :
      (rt : Route)
      → is_due (advance supplier rt) ≡ true
      → Unheard supplier timer_rate (
          settle
            (rtchange env (advance supplier rt) (advance supplier rt).router hopcnt_infinity).0)
  unfolding advance settle
  poison_first rt e =
      let f =
        rtchange_flags env (advance supplier rt).router hopcnt_infinity (advance supplier rt) in
      ground (arith, e, f)

  -- The call at which the time of a route comes to GARBAGE_TIME.
  settle-Stays :
      (t : ℕ) (rt : Route)
      → Unheard supplier t rt
      → garbage_time ≤ t + timer_rate
      → leb garbage_time (advance supplier rt).rt_timer ≡ false
      → Stays supplier (settle (advance supplier rt))
  unfolding advance settle
  settle-Stays t rt u le y = ground (arith, u, le, y)

  poison-Stays :
      (t : ℕ) (rt : Route)
      → Unheard supplier t rt
      → garbage_time ≤ t + timer_rate
      → leb garbage_time (advance supplier rt).rt_timer ≡ false
      → is_due (advance supplier rt) ≡ true
      → Stays supplier (
          settle
            (rtchange env (advance supplier rt) (advance supplier rt).router hopcnt_infinity).0)
  unfolding advance settle
  poison-Stays t rt u le y e =
      let f =
        rtchange_flags env (advance supplier rt).router hopcnt_infinity (advance supplier rt) in
      ground (arith, u, le, y, e, f)

  -- What holds of a route that is kept, from what holds of it in either of the ways to keep it.
  age-Kept :
      (P : Route → Type 0) (rt : Route)
      → (leb garbage_time (advance supplier rt).rt_timer ≡ false
          → is_due (advance supplier rt) ≡ false
          → P (settle (advance supplier rt)))
      → (leb garbage_time (advance supplier rt).rt_timer ≡ false
          → is_due (advance supplier rt) ≡ true
          → P (
              settle
                (rtchange env
                  (advance supplier rt)
                  (advance supplier rt).router
                  hopcnt_infinity).0))
      → Kept P (age env supplier rt).0
  age-Kept P rt settled poisoned = elim (age-cases env supplier rt) [
    | inl (e, _) ↦ rw e tt
    | inr (y, inl (e, d)) ↦ rw e (settled y d)
    | inr (y, inr (e, d)) ↦ rw e (poisoned y d)
  ]

  pub age_bucket-none :
      (rt : Route) (rts : List Route)
      → (age env supplier rt).0 ≡ none
      → (age_bucket env supplier (rt ∷ rts)).0 ≡ (age_bucket env supplier rts).0
  unfolding age_bucket
  age_bucket-none rt rts e = ground (arith, e)

  pub age_bucket-some :
      (rt kept : Route) (rts : List Route)
      → (age env supplier rt).0 ≡ some kept
      → (age_bucket env supplier (rt ∷ rts)).0 ≡ kept ∷ (age_bucket env supplier rts).0
  unfolding age_bucket
  age_bucket-some rt kept rts e = ground (arith, e)

  -- What one call makes of all the routes of the tables, from what it makes of each.
  module _ (P Q : Route → Type 0)
      (each : (rt : Route) → P rt → Kept Q (age env supplier rt).0) where
    age_bucket-All : (rts : List Route) → All P rts → All Q (age_bucket env supplier rts).0
    unfolding age_bucket
    age_bucket-All [] h = tt
    age_bucket-All (rt ∷ rts) (h, hs) =
        let rest = age_bucket-All rts hs in
        elim (Option-cases (age env supplier rt).0) [
          | inl e ↦ rw (age_bucket-none rt rts e) rest
          | inr (kept, e) ↦
              let k : Kept Q (some kept) = subst (Kept Q) e (each rt h) in
              rw (age_bucket-some rt kept rts e) (k, rest)
        ]

    age_table-All :
        (bs : List (List Route)) → All (All P) bs → All (All Q) (age_table env supplier bs).0
    unfolding age_table
    age_table-All [] h = tt
    age_table-All (b ∷ bs) (h, hs) = (age_bucket-All b h, age_table-All bs hs)

-- Something holds of all routes of both tables.
abbrev pub AllRoutes : (Route → Type 0) → Routes → Type 0
AllRoutes P r = All (All P) r.hosthash × All (All P) r.nethash

-- The timer `k` times, with nothing heard.
unfoldable pub ticks : ℕ → Surroundings → Bool → Routes → Routes
ticks zero env supplier r = r
ticks (suc k) env supplier r = timer env supplier (ticks k env supplier r)

abbrev IsAny : Route → Type 0
IsAny rt = Unit

module _ (env : Surroundings) (supplier : Bool) where
  timer-AllRoutes :
      (P Q : Route → Type 0)
      → ((rt : Route) → P rt → Kept Q (age env supplier rt).0)
      → (r : Routes) → AllRoutes P r
      → AllRoutes Q (timer env supplier r)
  unfolding timer
  timer-AllRoutes P Q each r (h, n) = (
    age_table-All env supplier P Q each r.hosthash h,
    age_table-All env supplier P Q each r.nethash n,
  )

  IsAny-bucket : (rts : List Route) → All IsAny rts
  IsAny-bucket [] = tt
  IsAny-bucket (rt ∷ rts) = (tt, IsAny-bucket rts)

  IsAny-table : (bs : List (List Route)) → All (All IsAny) bs
  IsAny-table [] = tt
  IsAny-table (b ∷ bs) = (IsAny-bucket b, IsAny-table bs)

  ticks-Unheard :
      (k : ℕ) (r : Routes)
      → AllRoutes (Unheard supplier (suc k * timer_rate)) (ticks (suc k) env supplier r)
  unfolding ticks
  ticks-Unheard zero r =
      timer-AllRoutes IsAny (Unheard supplier timer_rate)
        (λ rt _.
          age-Kept env supplier (Unheard supplier timer_rate) rt
            (λ _ e. settle_first env supplier rt e) (λ _ e. poison_first env supplier rt e))
        r (IsAny-table r.hosthash, IsAny-table r.nethash)
  ticks-Unheard (suc k) r =
      let t = suc k * timer_rate in
      let e : suc (suc k) * timer_rate ≡ t + timer_rate = omega arith in
      rw e (
        timer-AllRoutes (Unheard supplier t) (Unheard supplier (t + timer_rate))
          (λ rt u.
            age-Kept env supplier (Unheard supplier (t + timer_rate)) rt
              (λ _ d. settle-Unheard env supplier t rt u d)
              (λ _ d. poison-Unheard env supplier t rt u d))
          (ticks (suc k) env supplier r) (ticks-Unheard k r))

  -- Whatever the tables hold, a route that is left in them after 8 calls of the timer, GARBAGE_TIME,
  -- in which nothing was heard, is passive, or is of an interface while the daemon supplies nothing:
  -- all others are forgotten, wherever they stand among those.
  pub ticks-AllStay : (r : Routes) → AllRoutes (Stays supplier) (ticks 8 env supplier r)
  unfolding ticks
  ticks-AllStay r =
      timer-AllRoutes (Unheard supplier (7 * timer_rate)) (Stays supplier)
        (λ rt u.
          age-Kept env supplier (Stays supplier) rt
            (λ y _. settle-Stays env supplier (7 * timer_rate) rt u (omega arith) y)
            (λ y d. poison-Stays env supplier (7 * timer_rate) rt u (omega arith) y d))
        (ticks 7 env supplier r) (ticks-Unheard 6 r)
