-- ===== src/Routed/Input/Vector.antt =====
-- The distance vector: what a response makes of the routes.
use netkit.Base.{
  ℕ, ◌≡◌, zero, suc, min, refl, ◌&&◌, List, [], ◌∷◌, ◌⊎◌, arith, if◌then◌else◌, Bool-cases,
  Option-cases, inl, inr, All, modify_at,
}
use netkit.Routed.Route.{Netinfo, Sockaddr, equal, Route, Surroundings}
use netkit.Routed.Table.{
  Routes, Place, rtchange, KernelCall, change_at, with_buckets, route_at, rtadd, rtlookup,
}
use netkit.Routed.Table.Hash.{IsPlaced, AllPlaced}
use netkit.Routed.Table.Lookup.{rtadd-WellPlaced}
use netkit.Routed.Table.Insert.{WellPlaced, host_key, net_key}
use netkit.Routed.Input.{
  update, updated, adjust, is_sound, add_new, take_route, take_routes, no_bits,
}

module _ (env : Surroundings) (rt : Route) (gate : Sockaddr) (metric : ℕ) where
  rtchange-metric : (rtchange env rt gate metric).0.metric ≡ metric
  unfolding rtchange
  rtchange-metric = refl

  rtchange-hash : (rtchange env rt gate metric).0.hash ≡ rt.hash
  unfolding rtchange
  rtchange-hash = ground arith

  rtchange-dst : (rtchange env rt gate metric).0.dst ≡ rt.dst
  unfolding rtchange
  rtchange-dst = ground arith

-- The router of a route sets its metric, and any other router can only lower it.
pub update-metric :
    (env : Surroundings) (from : Sockaddr) (metric : ℕ) (rt : Route)
    → (update env from metric rt).0.metric
      ≡ (if equal from rt.router then metric else min metric rt.metric)
unfolding update
update-metric env from metric rt = ground (arith, rtchange-metric env rt from metric)

update-hash :
    (env : Surroundings) (from : Sockaddr) (metric : ℕ) (rt : Route)
    → (update env from metric rt).0.hash ≡ rt.hash
unfolding update
update-hash env from metric rt = ground (arith, rtchange-hash env rt from metric)

update-dst :
    (env : Surroundings) (from : Sockaddr) (metric : ℕ) (rt : Route)
    → (update env from metric rt).0.dst ≡ rt.dst
unfolding update
update-dst env from metric rt = ground (arith, rtchange-dst env rt from metric)

-- A change that keeps the hash and the destination of every route.
module _ (key : Sockaddr → ℕ) (f : Route → Route) (same_hash : (rt : Route) → (f rt).hash ≡ rt.hash)
    (same_dst : (rt : Route) → (f rt).dst ≡ rt.dst) where
  modify_bucket :
      (i j : ℕ) (b : List Route) → All (IsPlaced key i) b → All (IsPlaced key i) (modify_at j f b)
  unfolding modify_at
  modify_bucket i j [] h = tt
  modify_bucket i zero (rt ∷ b) ((h, at), hs) =
      ((rw (same_hash rt, same_dst rt) h, rw (same_hash rt) at), hs)
  modify_bucket i (suc j) (rt ∷ b) (h, hs) = (h, modify_bucket i j b hs)

  modify-AllPlaced :
      (i k j : ℕ) (bs : List (List Route))
      → AllPlaced key i bs
      → AllPlaced key i (modify_at k (modify_at j f) bs)
  unfolding modify_at
  modify-AllPlaced i k j [] h = tt
  modify-AllPlaced i zero j (b ∷ bs) (h, hs) = (modify_bucket i j b h, hs)
  modify-AllPlaced i (suc k) j (b ∷ bs) (h, hs) = (h, modify-AllPlaced (suc i) k j bs hs)

pub change_at-cases :
    (p : Place) (f : Route → Route × List KernelCall) (r : Routes)
    → (((change_at p f r).hosthash ≡ r.hosthash)
        ⊎ ((change_at p f r).hosthash
            ≡ modify_at p.bucket (modify_at p.index (λ rt. (f rt).0)) r.hosthash))
      × (((change_at p f r).nethash ≡ r.nethash)
          ⊎ ((change_at p f r).nethash
              ≡ modify_at p.bucket (modify_at p.index (λ rt. (f rt).0)) r.nethash))
unfolding change_at with_buckets
change_at-cases p f r = ground arith

module _ (env : Surroundings) (from : Sockaddr) where
  change_at-WellPlaced :
      (p : Place) (f : Route → Route × List KernelCall) (r : Routes)
      → ((rt : Route) → (f rt).0.hash ≡ rt.hash)
      → ((rt : Route) → (f rt).0.dst ≡ rt.dst)
      → WellPlaced env r
      → WellPlaced env (change_at p f r)
  change_at-WellPlaced p f r same_hash same_dst (wh, wn) =
      let (ch, cn) = change_at-cases p f r in
      let g : Route → Route = λ rt. (f rt).0 in
      (
        elim ch [
          | inl e ↦ rw e wh
          | inr e ↦ rw e (
              modify-AllPlaced (host_key env) g same_hash same_dst 0 p.bucket p.index r.hosthash wh)
        ],
        elim cn [
          | inl e ↦ rw e wn
          | inr e ↦
              rw e (
                modify-AllPlaced (net_key env) g same_hash same_dst 0 p.bucket p.index r.nethash wn)
        ],
      )

  pub add_new-cases :
      (dst : Sockaddr) (metric : ℕ) (r : Routes)
      → ((add_new env from dst metric r).0 ≡ r)
        ⊎ ((add_new env from dst metric r).0 ≡ rtadd env dst from metric no_bits r)
  unfolding add_new
  add_new-cases dst metric r = ground arith

  add_new-WellPlaced :
      (dst : Sockaddr) (metric : ℕ) (r : Routes)
      → WellPlaced env r
      → WellPlaced env (add_new env from dst metric r).0
  add_new-WellPlaced dst metric r w = elim (add_new-cases dst metric r) [
    | inl e ↦ rw e w
    | inr e ↦ rw e (rtadd-WellPlaced env dst from metric no_bits r w)
  ]

  pub take_route-cases :
      (int_metric : ℕ) (n : Netinfo) (r : Routes)
      → ((take_route env int_metric from n r).0 ≡ r)
        ⊎ (((take_route env int_metric from n r).0
              ≡ (add_new env from n.rip_dst (adjust int_metric n.rip_metric) r).0)
            ⊎ ((p : Place) × ((take_route env int_metric from n r).0
                  ≡ change_at p (updated env from (adjust int_metric n.rip_metric)) r)))
  unfolding take_route
  take_route-cases int_metric n r = elim (Bool-cases (is_sound env n)) [
    | inr e ↦ inl (rw e refl)
    | inl e ↦ elim (Option-cases (rtlookup env n.rip_dst r)) [
      | inl l ↦ inr (inl (rw (e, l) refl))
      | inr (p, l) ↦ elim (Option-cases (route_at r p)) [
        | inl g ↦ inl (rw (e, l, g) refl)
        | inr (rt, g) ↦ elim (Bool-cases (rt.state.internal && rt.state.interface_route)) [
          | inr i ↦ inr (inr (p, rw (e, l, g, i) refl))
          | inl i ↦
              elim (Bool-cases
                (rt.state.subnet && (env.afswitch n.rip_dst.sa_family).af_sendroute rt from)) [
                  | inl s ↦ inl (rw (e, l, g, i, s) refl)
                  | inr s ↦ inr (inl (rw (e, l, g, i, s) refl))
                ]
        ]
      ]
    ]
  ]

  take_route-WellPlaced :
      (int_metric : ℕ) (n : Netinfo) (r : Routes)
      → WellPlaced env r
      → WellPlaced env (take_route env int_metric from n r).0
  unfolding updated
  take_route-WellPlaced int_metric n r w = elim (take_route-cases int_metric n r) [
    | inl e ↦ rw e w
    | inr (inl e) ↦ rw e (add_new-WellPlaced n.rip_dst (adjust int_metric n.rip_metric) r w)
    | inr (inr (p, e)) ↦ rw e (
        change_at-WellPlaced p (updated env from (adjust int_metric n.rip_metric)) r
          (update-hash env from (adjust int_metric n.rip_metric))
          (update-dst env from (adjust int_metric n.rip_metric)) w)
  ]

  -- Whatever routes a response holds, every route of both tables stays in the bucket of its key.
  pub take_routes-WellPlaced :
      (int_metric : ℕ) (ns : List Netinfo) (r : Routes)
      → WellPlaced env r
      → WellPlaced env (take_routes env int_metric from ns r).0
  unfolding take_routes
  take_routes-WellPlaced int_metric [] r w = w
  take_routes-WellPlaced int_metric (n ∷ ns) r w =
      take_routes-WellPlaced int_metric ns (take_route env int_metric from n r).0
        (take_route-WellPlaced int_metric n r w)
