-- ===== src/Routed/Message/Stranger.antt =====
-- A response from a host that is on none of the networks of the interfaces.
use netkit.Base.{
  ◌<◌, ℕ, suc, zero, ◌≡◌, refl, sym, ap, ◌∙◌, true, false, none, some, List, [], ◌∷◌, arith, All,
  map, modify_at, Bool-cases, Option-cases, inl, inr, ◌||◌, ◌⊎◌,
}
use netkit.Routed.Route.{Sockaddr, Route, Netinfo}
use netkit.Routed.Interface.{Interface, if_iflookup, if_ifwithdstaddr}
use netkit.Routed.Interface.Strangers.{
  IsStranger, if_iflookup-IsStranger, if_ifwithaddr-none, if_ifwithdstaddr-none,
}
use netkit.Routed.Inet.{surroundings, inet_canon, afswitch, inet_switch}
use netkit.Routed.Table.{Routes, Place, change_at, with_buckets, route_at}
use netkit.Routed.Startup.{found}
use netkit.Routed.Update.{Timeval}
use netkit.Routed.Message.{
  Config, Daemon, response, env_of, interface_at, hear_interface, heard_route, on_response,
  rip_input,
}

-- A route, a table and the tables without their timers.
abbrev pub untimed : Route → Route
untimed rt = record rt { rt_timer = 0 }

abbrev pub untimed_table : List (List Route) → List (List Route)
untimed_table t = map (map untimed) t

abbrev pub untimed_routes : Routes → Routes
untimed_routes r = record r {
  hosthash = untimed_table r.hosthash;
  nethash = untimed_table r.nethash;
}

-- A change of a route's timer alone does not show without the timers.
module _ (f : Route → Route) (same_route : (rt : Route) → untimed (f rt) ≡ untimed rt) where
  bucket-untimed : (i : ℕ) (b : List Route) → map untimed (modify_at i f b) ≡ map untimed b
  unfolding modify_at
  bucket-untimed i [] = refl
  bucket-untimed zero (rt ∷ b) = ap (λ x. x ∷ map untimed b) (same_route rt)
  bucket-untimed (suc i) (rt ∷ b) = ap (λ x. untimed rt ∷ x) (bucket-untimed i b)

  table-untimed :
      (j i : ℕ) (t : List (List Route))
      → untimed_table (modify_at j (modify_at i f) t) ≡ untimed_table t
  unfolding modify_at
  table-untimed j i [] = refl
  table-untimed zero i (b ∷ t) = ap (λ x. x ∷ untimed_table t) (bucket-untimed i b)
  table-untimed (suc j) i (b ∷ t) = ap (λ x. map untimed b ∷ x) (table-untimed j i t)

heard_route-untimed : (rt : Route) → untimed (heard_route rt) ≡ untimed rt
unfolding heard_route
heard_route-untimed rt = refl

change_at-none :
    (p : Place) (r : Routes) → route_at r p ≡ none → change_at p (λ rt. (heard_route rt, [])) r ≡ r
unfolding change_at
change_at-none p r n = ground (arith, n)

-- The tables behind a change of a timer.
change_at-host :
    (p : Place) (r : Routes) (rt : Route)
    → route_at r p ≡ some rt
    → p.is_host ≡ true
    → change_at p (λ rt. (heard_route rt, [])) r
      ≡ record r { hosthash = modify_at p.bucket (modify_at p.index heard_route) r.hosthash }
unfolding change_at with_buckets
change_at-host p r rt e h = ground (arith, e, h)

change_at-net :
    (p : Place) (r : Routes) (rt : Route)
    → route_at r p ≡ some rt
    → p.is_host ≡ false
    → change_at p (λ rt. (heard_route rt, [])) r
      ≡ record r { nethash = modify_at p.bucket (modify_at p.index heard_route) r.nethash }
unfolding change_at with_buckets
change_at-net p r rt e h = ground (arith, e, h)

change_at-untimed :
    (p : Place) (r : Routes)
    → untimed_routes (change_at p (λ rt. (heard_route rt, [])) r) ≡ untimed_routes r
change_at-untimed p r = elim (Option-cases (route_at r p)) [
  | inl n ↦ ap untimed_routes (change_at-none p r n)
  | inr (rt, e) ↦ elim (Bool-cases p.is_host) [
    | inl y ↦
        ap untimed_routes (change_at-host p r rt e y)
        ∙ ap (λ t. record { hosthash = t; nethash = untimed_table r.nethash; calls = r.calls })
            (table-untimed heard_route heard_route-untimed p.bucket p.index r.hosthash)
    | inr n ↦
        ap untimed_routes (change_at-net p r rt e n)
        ∙ ap (λ t. record { hosthash = untimed_table r.hosthash; nethash = t; calls = r.calls })
            (table-untimed heard_route heard_route-untimed p.bucket p.index r.nethash)
  ]
]

-- Where no link leads to the host, at most a timer is set.
hear_interface-cases :
    (c : Config) (a : Sockaddr) (r : Routes)
    → if_ifwithdstaddr c.ifnet a ≡ none
    → (hear_interface c a r ≡ r)
      ⊎ (p : Place) × (hear_interface c a r ≡ change_at p (λ rt. (heard_route rt, [])) r)
unfolding hear_interface interface_at
hear_interface-cases c a r link = elim (Option-cases (found (env_of c) a r)) [
  | inl n ↦ inl (ground (arith, n, link))
  | inr ((p, rt), e) ↦ elim (Bool-cases (rt.state.interface_route || rt.state.remote)) [
    | inl y ↦ inr (p, ground (arith, e, y, link))
    | inr n ↦ inl (ground (arith, e, n, link))
  ]
]

module _ (c : Config) (a : Sockaddr) (inet : All (λ i. i.int_addr.sa_family ≡ a.sa_family) c.ifnet)
    (stranger : All (IsStranger a) c.ifnet) where
  hear_interface-untimed : (r : Routes) → untimed_routes (hear_interface c a r) ≡ untimed_routes r
  hear_interface-untimed r =
      elim (hear_interface-cases c a r (if_ifwithdstaddr-none a c.ifnet inet stranger)) [
        | inl e ↦ ap untimed_routes e
        | inr (p, e) ↦ ap untimed_routes e ∙ change_at-untimed p r
      ]

  on_response-stranger :
      (now : Timeval) (rand : ℕ) (nets : List Netinfo) (d : Daemon)
      → if_iflookup (env_of c).afswitch (env_of c).af_max c.ifnet a ≡ none
      → on_response c now rand a nets d ≡ (record d { routes = hear_interface c a d.routes }, [])
  unfolding on_response interface_at
  on_response-stranger now rand nets d h =
      let own = if_ifwithaddr-none a c.ifnet stranger in ground (arith, own, h)

inet_canon-family : (a : Sockaddr) → (inet_canon a).sa_family ≡ a.sa_family
unfolding inet_canon
inet_canon-family a = refl

env_of-af_max :
    (c : Config) (a : Sockaddr)
    → a.sa_family ≡ 2
    → 2 < c.sys.af_max
    → a.sa_family < (env_of c).af_max
unfolding surroundings
env_of-af_max c a f h = omega (arith, f, h)

family-All :
    (a : Sockaddr) (is : List Interface)
    → a.sa_family ≡ 2
    → All (λ i. i.int_addr.sa_family ≡ 2) is
    → All (λ i. i.int_addr.sa_family ≡ a.sa_family) is
family-All a [] f h = tt
family-All a (i ∷ is) f (h, hs) = (h ∙ sym f, family-All a is f hs)

-- What `rip_input` does with a response of a supported family.
rip_input-cases :
    (c : Config) (now : Timeval) (rand : ℕ) (from : Sockaddr) (version : ℕ) (nets : List Netinfo)
    (d : Daemon)
    → from.sa_family ≡ 2
    → (rip_input c now rand from version (response nets) d ≡ (d, []))
      ⊎ (2 < c.sys.af_max)
        × (rip_input c now rand from version (response nets) d
            ≡ on_response c now rand (inet_canon from) nets d)
unfolding rip_input surroundings afswitch inet_switch
rip_input-cases c now rand from version nets d f = ground (arith, f)

-- A response from a host of the Internet for which there is no interface, neither its own address
-- nor the other end of its link nor its network, changes no more than the timers of routes and is
-- answered with nothing, where all interfaces are of the Internet.
pub rip_input-stranger :
    (c : Config) (now : Timeval) (rand : ℕ) (from : Sockaddr) (version : ℕ) (nets : List Netinfo)
    (d : Daemon)
    → from.sa_family ≡ 2
    → All (λ i. i.int_addr.sa_family ≡ 2) c.ifnet
    → if_iflookup (env_of c).afswitch (env_of c).af_max c.ifnet (inet_canon from) ≡ none
    → (untimed_routes (rip_input c now rand from version (response nets) d).0.routes
        ≡ untimed_routes d.routes)
      × ((rip_input c now rand from version (response nets) d).0.updates ≡ d.updates)
      × ((rip_input c now rand from version (response nets) d).1 ≡ [])
rip_input-stranger c now rand from version nets d f inet h =
    elim (rip_input-cases c now rand from version nets d f) [
      | inl e ↦ rw e (refl, refl, refl)
      | inr (known, e) ↦
          let a = inet_canon from in
          let family : a.sa_family ≡ 2 = inet_canon-family from ∙ f in
          let strangers =
            if_iflookup-IsStranger a (env_of c).afswitch (env_of c).af_max c.ifnet
              (env_of-af_max c a family known) h in
          let same_family = family-All a c.ifnet family inet in
          let heard = on_response-stranger c a same_family strangers now rand nets d h in
          rw (e, heard) (hear_interface-untimed c a same_family strangers d.routes, refl, refl)
    ]
