-- ===== src/Routed/Timer/Keep.antt =====
-- What the timer does not touch: the routes whose time stands.
use netkit.Base.{
  ℕ, zero, suc, ◌<◌, ◌≡◌, refl, ap, ◌∙◌, sym, Bool, some, List, [], ◌∷◌, arith, Option-cases, inl,
  inr, ◌⊎◌,
}
use netkit.Routed.Route.{Route, Surroundings, expire_time}
use netkit.Routed.Table.{Routes}
use netkit.Routed.Timer.{advance, settle, age, age_bucket, age_table, timer}
use netkit.Routed.Timer.Forget.{Stays, ticks, age_bucket-none, age_bucket-some}

-- A route is one of a bucket; of a table; of the two tables.
abbrev pub InBucket : Route → List Route → Type 0
InBucket rt [] = ⊥
InBucket rt (x ∷ xs) = (rt ≡ x) ⊎ InBucket rt xs

abbrev pub InTable : Route → List (List Route) → Type 0
InTable rt [] = ⊥
InTable rt (b ∷ bs) = InBucket rt b ⊎ InTable rt bs

abbrev pub InRoutes : Route → Routes → Type 0
InRoutes rt r = InTable rt r.hosthash ⊎ InTable rt r.nethash

module _ (env : Surroundings) (supplier : Bool) where
  age-settle :
      (rt : Route)
      → Stays supplier rt
      → rt.rt_timer < expire_time
      → (age env supplier rt).0 ≡ some (settle rt)
  unfolding age advance
  age-settle rt s young = ground (arith, s, young)

  module _ (rt kept : Route) (e : (age env supplier rt).0 ≡ some kept) where
    age_bucket-InBucket :
        (rts : List Route) → InBucket rt rts → InBucket kept (age_bucket env supplier rts).0
    age_bucket-InBucket [] h = absurd h
    age_bucket-InBucket (x ∷ xs) (inl same) =
        rw
          (age_bucket-some env supplier x kept xs (sym (ap (λ y. (age env supplier y).0) same) ∙ e))
          (inl refl)
    age_bucket-InBucket (x ∷ xs) (inr h) =
        let rest = age_bucket-InBucket xs h in
        elim (Option-cases (age env supplier x).0) [
          | inl n ↦ rw (age_bucket-none env supplier x xs n) rest
          | inr (other, n) ↦ rw (age_bucket-some env supplier x other xs n) (inr rest)
        ]

    age_table-InTable :
        (bs : List (List Route)) → InTable rt bs → InTable kept (age_table env supplier bs).0
    unfolding age_table
    age_table-InTable [] h = absurd h
    age_table-InTable (b ∷ bs) (inl h) = inl (age_bucket-InBucket b h)
    age_table-InTable (b ∷ bs) (inr h) = inr (age_table-InTable bs h)

    timer-InRoutes : (r : Routes) → InRoutes rt r → InRoutes kept (timer env supplier r)
    unfolding timer
    timer-InRoutes r (inl h) = inl (age_table-InTable r.hosthash h)
    timer-InRoutes r (inr h) = inr (age_table-InTable r.nethash h)

  -- However often the timer is called with nothing heard, a route that is passive, or that is of an
  -- interface while the daemon supplies nothing, stays in the tables as it is, less the bit
  -- RTS_CHANGED, if its time is below EXPIRE_TIME.
  pub ticks-InRoutes :
      (k : ℕ) (rt : Route) (r : Routes)
      → Stays supplier rt
      → rt.rt_timer < expire_time
      → InRoutes rt r
      → InRoutes (settle rt) (ticks (suc k) env supplier r)
  unfolding ticks settle
  ticks-InRoutes zero rt r s young h = timer-InRoutes rt (settle rt) (age-settle rt s young) r h
  ticks-InRoutes (suc k) rt r s young h =
      timer-InRoutes (settle rt) (settle rt) (age-settle (settle rt) s young)
        (ticks (suc k) env supplier r) (ticks-InRoutes k rt r s young h)
