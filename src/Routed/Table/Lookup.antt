-- ===== src/Routed/Table/Lookup.antt =====
-- `rtlookup` finds what the tables hold, and the operations keep every route in its place.
use netkit.Base.{
  ℕ, ◌<◌, ◌≡◌, ◌↔◌, refl, true, false, none, some, ◌||◌, arith, leb, Option-cases, inl, inr, ◌⊎◌,
}
use netkit.Routed.Route.{Sockaddr, equal, equal_refl, Surroundings, State}
use netkit.Routed.Table.{
  search_bucket, search_both, Routes, Place, rtlookup, insque, rtadd, new_route,
}
use netkit.Routed.Table.Hash.{NoRoute, search_bucket-NoRoute}
use netkit.Routed.Table.Insert.{
  host_key, net_key, WellPlaced, Sized, key_of, insque-WellPlaced, insque-NoneOf,
}

-- The walks of `rtlookup`, for an address of a known family.
module _ (env : Surroundings) (dst : Sockaddr) (r : Routes)
    (known : dst.sa_family < env.af_max) where
  rtlookup-none :
      search_bucket (λ rt. equal rt.dst dst) (host_key env dst) r.hosthash ≡ none
      → search_bucket (λ rt. equal rt.dst dst) (net_key env dst) r.nethash ≡ none
      → rtlookup env dst r ≡ none
  unfolding rtlookup search_both
  rtlookup-none h n =
      let k : leb env.af_max dst.sa_family ≡ false = ground arith in ground (arith, k, h, n)

  none-rtlookup :
      rtlookup env dst r ≡ none
      → (search_bucket (λ rt. equal rt.dst dst) (host_key env dst) r.hosthash ≡ none)
        × (search_bucket (λ rt. equal rt.dst dst) (net_key env dst) r.nethash ≡ none)
  unfolding rtlookup search_both
  none-rtlookup h =
      let k : leb env.af_max dst.sa_family ≡ false = ground arith in ground (arith, k, h)

  -- For an address of a known family, `rtlookup`, which walks one bucket of each table, finds
  -- nothing just when no route of either table leads to it.
  pub rtlookup-NoRoute :
      WellPlaced env r
      → (rtlookup env dst r ≡ none) ↔ (NoRoute dst r.hosthash × NoRoute dst r.nethash)
  rtlookup-NoRoute (wh, wn) =
      let host = search_bucket-NoRoute (host_key env) dst r.hosthash wh in
      let net = search_bucket-NoRoute (net_key env) dst r.nethash wn in
      (
        λ h. (host.0 (none-rtlookup h).0, net.0 (none-rtlookup h).1),
        λ h. rtlookup-none (host.1 h.0) (net.1 h.1),
      )

module _ (env : Surroundings) (dst gate : Sockaddr) (metric : ℕ) (state : State) (r : Routes) where
  -- `rtadd` keeps the route: it is not for the kernel, or the kernel takes it.
  abbrev pub IsKept : Type 0
  IsKept =
      ((state.internal || state.external) ≡ true)
      ⊎ (env.unreachable (new_route env dst gate metric state) ≡ false)

  pub rtadd-kept :
      dst.sa_family < env.af_max
      → IsKept
      → ((rtadd env dst gate metric state r).hosthash
          ≡ (insque (new_route env dst gate metric state) r).hosthash)
        × ((rtadd env dst gate metric state r).nethash
            ≡ (insque (new_route env dst gate metric state) r).nethash)
  unfolding rtadd
  rtadd-kept known kept =
      let k : leb env.af_max dst.sa_family ≡ false = ground arith in ground (arith, k, kept)

  pub new_route-dst : (new_route env dst gate metric state).dst ≡ dst
  unfolding new_route
  new_route-dst = refl

  pub new_route-key-dst :
      (new_route env dst gate metric state).hash
      ≡ key_of env (new_route env dst gate metric state) (new_route env dst gate metric state).dst
  unfolding new_route
  new_route-key-dst = ground arith

  pub rtadd-cases :
      ((rtadd env dst gate metric state r).hosthash ≡ r.hosthash)
        × ((rtadd env dst gate metric state r).nethash ≡ r.nethash)
      ⊎ ((rtadd env dst gate metric state r).hosthash
          ≡ (insque (new_route env dst gate metric state) r).hosthash)
        × ((rtadd env dst gate metric state r).nethash
            ≡ (insque (new_route env dst gate metric state) r).nethash)
  unfolding rtadd
  rtadd-cases = ground arith

  -- `rtadd` keeps every route of both tables in the bucket of its key.
  pub rtadd-WellPlaced : WellPlaced env r → WellPlaced env (rtadd env dst gate metric state r)
  rtadd-WellPlaced w = elim rtadd-cases [
    | inl (a, b) ↦ (rw a w.0, rw b w.1)
    | inr (a, b) ↦
        let (x, y) =
          insque-WellPlaced env (new_route env dst gate metric state) (new_route-key-dst) r w in
        (rw a x, rw b y)
  ]

  -- A route that `rtadd` keeps makes `rtlookup` find one to its address.
  pub rtlookup-rtadd :
      WellPlaced env r
      → Sized r
      → dst.sa_family < env.af_max
      → IsKept
      → (p : Place) × (rtlookup env dst (rtadd env dst gate metric state r) ≡ some p)
  rtlookup-rtadd w s known kept =
      let after = rtadd env dst gate metric state r in
      elim (Option-cases (rtlookup env dst after)) [
        | inr y ↦ y
        | inl n ↦
            let (nh, nn) = (rtlookup-NoRoute env dst after known (rtadd-WellPlaced w)).0 n in
            let (a, b) = rtadd-kept known kept in
            let rt = new_route env dst gate metric state in
            let f =
              insque-NoneOf env rt new_route-key-dst r (λ x. equal x.dst dst) (λ x. equal x.dst dst)
                s (rw⁻¹ a nh) (rw⁻¹ b nn) in
            let y : equal rt.dst dst ≡ true = rw new_route-dst (equal_refl dst) in
            absurd (ground (arith, f, y))
      ]
