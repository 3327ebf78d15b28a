-- ===== src/Routed/Input/Bounded.antt =====
-- No metric of the tables exceeds HOPCNT_INFINITY.
use netkit.Base.{ℕ, ◌≡◌, ◌≤◌, ◌%◌, zero, suc, List, [], ◌∷◌, ◌⊎◌, arith, inl, inr, All, modify_at}
use netkit.Routed.Route.{Netinfo, Sockaddr, Route, Surroundings, State, hopcnt_infinity}
use netkit.Routed.Table.{
  Routes, Place, KernelCall, routehashsiz, change_at, insque, rtadd, new_route, with_buckets,
}
use netkit.Routed.Table.Lookup.{rtadd-cases}
use netkit.Routed.Input.{updated, adjust, add_new, take_route, take_routes, no_bits}
use netkit.Routed.Input.Vector.{update-metric, change_at-cases, add_new-cases, take_route-cases}

abbrev pub IsBounded : Route → Type 0
IsBounded rt = rt.metric ≤ hopcnt_infinity

abbrev pub AllBounded : Routes → Type 0
AllBounded r = All (All IsBounded) r.hosthash × All (All IsBounded) r.nethash

adjust-bound : (int_metric metric : ℕ) → adjust int_metric metric ≤ hopcnt_infinity
unfolding adjust
adjust-bound int_metric metric = ground arith

module _ (f : Route → Route) (kept : (rt : Route) → IsBounded rt → IsBounded (f rt)) where
  modify_bucket : (j : ℕ) (b : List Route) → All IsBounded b → All IsBounded (modify_at j f b)
  unfolding modify_at
  modify_bucket j [] h = tt
  modify_bucket zero (rt ∷ b) (h, hs) = (kept rt h, hs)
  modify_bucket (suc j) (rt ∷ b) (h, hs) = (h, modify_bucket j b hs)

  modify_table :
      (k j : ℕ) (bs : List (List Route))
      → All (All IsBounded) bs
      → All (All IsBounded) (modify_at k (modify_at j f) bs)
  unfolding modify_at
  modify_table k j [] h = tt
  modify_table zero j (b ∷ bs) (h, hs) = (modify_bucket j b h, hs)
  modify_table (suc k) j (b ∷ bs) (h, hs) = (h, modify_table k j bs hs)

module _ (rt : Route) (bounded : IsBounded rt) where
  insert_bucket :
      (k : ℕ) (bs : List (List Route))
      → All (All IsBounded) bs
      → All (All IsBounded) (modify_at k (λ b. rt ∷ b) bs)
  unfolding modify_at
  insert_bucket k [] h = tt
  insert_bucket zero (b ∷ bs) (h, hs) = ((bounded, h), hs)
  insert_bucket (suc k) (b ∷ bs) (h, hs) = (h, insert_bucket k bs hs)

insque-cases :
    (rt : Route) (r : Routes)
    → (((insque rt r).hosthash ≡ r.hosthash)
        ⊎ ((insque rt r).hosthash ≡ modify_at (rt.hash % routehashsiz) (λ b. rt ∷ b) r.hosthash))
      × (((insque rt r).nethash ≡ r.nethash)
          ⊎ ((insque rt r).nethash ≡ modify_at (rt.hash % routehashsiz) (λ b. rt ∷ b) r.nethash))
unfolding insque with_buckets
insque-cases rt r = ground arith

insque-AllBounded :
    (rt : Route) (r : Routes) → IsBounded rt → AllBounded r → AllBounded (insque rt r)
insque-AllBounded rt r b (wh, wn) =
    let (ch, cn) = insque-cases rt r in
    (
      elim ch [
        | inl e ↦ rw e wh
        | inr e ↦ rw e (insert_bucket rt b (rt.hash % routehashsiz) r.hosthash wh)
      ],
      elim cn [
        | inl e ↦ rw e wn
        | inr e ↦ rw e (insert_bucket rt b (rt.hash % routehashsiz) r.nethash wn)
      ],
    )

module _ (env : Surroundings) (dst gate : Sockaddr) (metric : ℕ) (state : State) (r : Routes) where
  rtadd-AllBounded :
      metric ≤ hopcnt_infinity → AllBounded r → AllBounded (rtadd env dst gate metric state r)
  unfolding new_route
  rtadd-AllBounded le w = elim (rtadd-cases env dst gate metric state r) [
    | inl (a, b) ↦ (rw a w.0, rw b w.1)
    | inr (a, b) ↦
        let (x, y) = insque-AllBounded (new_route env dst gate metric state) r le w in
        (rw a x, rw b y)
  ]

module _ (env : Surroundings) (from : Sockaddr) where
  updated-bound :
      (metric : ℕ)
      → metric ≤ hopcnt_infinity
      → (rt : Route) → IsBounded rt
      → IsBounded (updated env from metric rt).0
  unfolding updated
  updated-bound metric le rt b = ground (arith, le, b, update-metric env from metric rt)

  change_at-AllBounded :
      (p : Place) (f : Route → Route × List KernelCall) (r : Routes)
      → ((rt : Route) → IsBounded rt → IsBounded (f rt).0)
      → AllBounded r
      → AllBounded (change_at p f r)
  change_at-AllBounded p f r kept (wh, wn) =
      let (ch, cn) = change_at-cases p f r in
      let g : Route → Route = λ rt. (f rt).0 in
      (
        elim ch [
          | inl e ↦ rw e wh
          | inr e ↦ rw e (modify_table g kept p.bucket p.index r.hosthash wh)
        ],
        elim cn [
          | inl e ↦ rw e wn
          | inr e ↦ rw e (modify_table g kept p.bucket p.index r.nethash wn)
        ],
      )

  add_new-AllBounded :
      (dst : Sockaddr) (metric : ℕ) (r : Routes)
      → metric ≤ hopcnt_infinity
      → AllBounded r
      → AllBounded (add_new env from dst metric r).0
  add_new-AllBounded dst metric r le w = elim (add_new-cases env from dst metric r) [
    | inl e ↦ rw e w
    | inr e ↦ rw e (rtadd-AllBounded env dst from metric no_bits r le w)
  ]

  take_route-AllBounded :
      (int_metric : ℕ) (n : Netinfo) (r : Routes)
      → AllBounded r
      → AllBounded (take_route env int_metric from n r).0
  take_route-AllBounded int_metric n r w =
      let metric = adjust int_metric n.rip_metric in
      let le = adjust-bound int_metric n.rip_metric in
      elim (take_route-cases env from int_metric n r) [
        | inl e ↦ rw e w
        | inr (inl e) ↦ rw e (add_new-AllBounded n.rip_dst metric r le w)
        | inr (inr (p, e)) ↦
            rw e (change_at-AllBounded p (updated env from metric) r (updated-bound metric le) w)
      ]

  -- Whatever metrics a response holds, and whatever the metric of its interface, no metric of the
  -- tables comes to exceed HOPCNT_INFINITY.
  pub take_routes-AllBounded :
      (int_metric : ℕ) (ns : List Netinfo) (r : Routes)
      → AllBounded r
      → AllBounded (take_routes env int_metric from ns r).0
  unfolding take_routes
  take_routes-AllBounded int_metric [] r w = w
  take_routes-AllBounded int_metric (n ∷ ns) r w =
      take_routes-AllBounded int_metric ns (take_route env int_metric from n r).0
        (take_route-AllBounded int_metric n r w)
