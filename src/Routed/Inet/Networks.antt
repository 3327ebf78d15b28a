-- ===== src/Routed/Inet/Networks.antt =====
-- The routes to networks of the Internet, as `rtadd` keeps them and `rtfind` finds them.
use mathlib.Core.Path.{subst}
use netkit.Base.{
  sym, ℕ, zero, suc, ◌/◌, ◌%◌, ◌^◌, ◌<◌, ◌≡◌, ◌≢◌, refl, true, false, some, List, arith, ◌==◌,
  Option-cases, Bool-cases, inl, inr,
}
use netkit.Routed.Route.{Sockaddr, equal, Surroundings, State}
use netkit.Routed.Interface.{Interface}
use netkit.Routed.Inet.{
  System, surroundings, afswitch, inet_switch, inet_hash, inet_netmatch, inet_netof_subnet, address,
  shift_down, inet_rtflags,
}
use netkit.Routed.Table.{Routes, Place, rtadd, rtfind, new_route}
use netkit.Routed.Table.Lookup.{IsKept, rtadd-kept, rtadd-WellPlaced, new_route-key-dst}
use netkit.Routed.Table.Insert.{WellPlaced, Sized, insque-NoneOf}
use netkit.Routed.Table.Find.{IsKeyed, leads_to_net, rtfind-NoneOf}

==-lem : (a b : ℕ) → (a == b) ≡ true → a ≡ b
==-lem a b h = ground (arith, h)

-- The loop of `inet_hash` ends: it shifts a number of four bytes that is not 0 until its last byte
-- is not 0.
pub shift_down-nonzero : (fuel n : ℕ) → n ≢ 0 → n < 256 ^ fuel → shift_down fuel n % 256 ≢ 0
unfolding shift_down
shift_down-nonzero zero n ne lt = absurd (ne (omega arith))
shift_down-nonzero (suc fuel) n ne lt = elim (Bool-cases (n % 256 == 0)) [
  | inl y ↦
      let deeper =
        shift_down-nonzero fuel (n / 256) (λ e. ne (ground (arith, e, y))) (omega (arith, lt)) in
      rw y deeper
  | inr y ↦ λ e. absurd (ground (arith, e, y))
]

inet_netmatch-nethash :
    (ifnet : List Interface) (a b : Sockaddr)
    → inet_netmatch ifnet a b ≡ true
    → (inet_hash ifnet a).nethash ≡ (inet_hash ifnet b).nethash
unfolding inet_netmatch inet_hash
inet_netmatch-nethash ifnet a b h =
    let e : inet_netof_subnet ifnet (address a) ≡ inet_netof_subnet ifnet (address b) =
      ground (arith, h) in
    rw e refl

surroundings-IsKeyed : (sys : System) (ifnet : List Interface) → IsKeyed (surroundings sys ifnet) 2
unfolding surroundings afswitch inet_switch
surroundings-IsKeyed sys ifnet a b h = inet_netmatch-nethash ifnet a b h

module _ (sys : System) (ifnet : List Interface) (dst gate : Sockaddr) (metric : ℕ) (state : State)
    (r : Routes) where
  abbrev env : Surroundings
  env = surroundings sys ifnet

  abbrev after : Routes
  after = rtadd env dst gate metric state r

  new_route-net :
      dst.sa_family ≡ 2
      → (inet_rtflags ifnet dst).0 ≡ false
      → (new_route env dst gate metric state).flags.host ≡ false
  unfolding new_route surroundings afswitch inet_switch
  new_route-net af net = ground (arith, af, net)

  new_route-leads_to_net :
      (a : Sockaddr)
      → dst.sa_family ≡ 2
      → a.sa_family ≡ 2
      → inet_netmatch ifnet dst a ≡ true
      → leads_to_net env a (new_route env dst gate metric state) ≡ true
  unfolding new_route surroundings afswitch inet_switch
  new_route-leads_to_net a d e m = ground (arith, d, e, m)

  inet_family : (a : Sockaddr) → a.sa_family ≡ 2 → 2 < sys.af_max → a.sa_family < env.af_max
  unfolding surroundings
  inet_family a e h = omega (arith, e, h)

  -- A route to a network of the Internet that `rtadd` keeps makes `rtfind` find one for every
  -- address of that network, its subnets as the interfaces have them.
  pub rtfind-rtadd :
      WellPlaced env r
      → Sized r
      → 2 < sys.af_max
      → dst.sa_family ≡ 2
      → (inet_rtflags ifnet dst).0 ≡ false
      → IsKept env dst gate metric state r
      → (a : Sockaddr) → a.sa_family ≡ 2
      → inet_netmatch ifnet dst a ≡ true
      → (p : Place) × (rtfind env a after ≡ some p)
  rtfind-rtadd w s inet d net kept a e m = elim (Option-cases (rtfind env a after)) [
    | inr y ↦ y
    | inl n ↦
        let known : a.sa_family < env.af_max = inet_family a e inet in
        let keyed : IsKeyed env a.sa_family =
          subst (λ f. IsKeyed env f) (sym e) (surroundings-IsKeyed sys ifnet) in
        let (nh, nn) =
          (rtfind-NoneOf env a after known keyed (rtadd-WellPlaced env dst gate metric state r w)).0
            n in
        let (x, y) = rtadd-kept env dst gate metric state r (inet_family dst d inet) kept in
        let f =
          insque-NoneOf env (new_route env dst gate metric state)
            (new_route-key-dst env dst gate metric state r) r (λ rt. equal rt.dst a)
            (leads_to_net env a) s (rw⁻¹ x nh) (rw⁻¹ y nn) in
        let host = new_route-net d net in
        let leads = new_route-leads_to_net a d e m in absurd (ground (arith, f, host, leads))
  ]
