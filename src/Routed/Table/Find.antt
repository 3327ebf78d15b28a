-- ===== src/Routed/Table/Find.antt =====
-- `rtfind` finds what the tables hold, where the family's addresses of one network have one key.
use netkit.Base.{ℕ, ◌<◌, ◌≡◌, ◌↔◌, Bool, true, false, none, arith, leb, ◌==◌, ◌&&◌, ap, ◌∙◌}
use netkit.Routed.Route.{Sockaddr, equal, Route, Surroundings}
use netkit.Routed.Table.{search_bucket, search_both, Routes, rtfind}
use netkit.Routed.Table.Hash.{NoRoute, NoneOf, search_bucket-NoRoute, search_bucket-NoneOf}
use netkit.Routed.Table.Insert.{WellPlaced, host_key, net_key}

-- The test of the second walk: the route leads to the network of the address.
abbrev pub leads_to_net : Surroundings → Sockaddr → Route → Bool
leads_to_net env dst rt =
    rt.dst.sa_family == dst.sa_family && (env.afswitch dst.sa_family).af_netmatch rt.dst dst

-- Addresses of one network have one key.
abbrev pub IsKeyed : Surroundings → ℕ → Type 0
IsKeyed env af =
    (a b : Sockaddr)
    → (env.afswitch af).af_netmatch a b ≡ true
    → ((env.afswitch af).af_hash a).nethash ≡ ((env.afswitch af).af_hash b).nethash

module _ (env : Surroundings) (dst : Sockaddr) (r : Routes) (known : dst.sa_family < env.af_max)
    (keyed : IsKeyed env dst.sa_family) where
  leads_to_net-net_key :
      (rt : Route) → leads_to_net env dst rt ≡ true → net_key env rt.dst ≡ net_key env dst
  leads_to_net-net_key rt h =
      let e : rt.dst.sa_family ≡ dst.sa_family = ground (arith, h) in
      let m : (env.afswitch dst.sa_family).af_netmatch rt.dst dst ≡ true = ground (arith, h) in
      ap (λ af. ((env.afswitch af).af_hash rt.dst).nethash) e ∙ keyed rt.dst dst m

  rtfind-none :
      search_bucket (λ rt. equal rt.dst dst) (host_key env dst) r.hosthash ≡ none
      → search_bucket (leads_to_net env dst) (net_key env dst) r.nethash ≡ none
      → rtfind env dst r ≡ none
  unfolding rtfind search_both
  rtfind-none h n =
      let k : leb env.af_max dst.sa_family ≡ false = ground arith in ground (arith, k, h, n)

  none-rtfind :
      rtfind env dst r ≡ none
      → (search_bucket (λ rt. equal rt.dst dst) (host_key env dst) r.hosthash ≡ none)
        × (search_bucket (leads_to_net env dst) (net_key env dst) r.nethash ≡ none)
  unfolding rtfind search_both
  none-rtfind h =
      let k : leb env.af_max dst.sa_family ≡ false = ground arith in ground (arith, k, h)

  -- For an address of a known family whose networks have one key each, `rtfind` finds nothing just
  -- when no route leads to the address as a host, and none to its network.
  pub rtfind-NoneOf :
      WellPlaced env r
      → (rtfind env dst r ≡ none)
        ↔ (NoRoute dst r.hosthash × NoneOf (leads_to_net env dst) r.nethash)
  rtfind-NoneOf (wh, wn) =
      let host = search_bucket-NoRoute (host_key env) dst r.hosthash wh in
      let net =
        search_bucket-NoneOf (net_key env) (leads_to_net env dst) (net_key env dst)
          leads_to_net-net_key r.nethash wn in
      (
        λ h. (host.0 (none-rtfind h).0, net.0 (none-rtfind h).1),
        λ h. rtfind-none (host.1 h.0) (net.1 h.1),
      )
