-- ===== src/Routed/Tests.antt =====
-- Runs of the routing table on small inputs.
use netkit.Base.{refl, inl, inr, List, ℕ, ◌≡◌, ◌↔◌, true, false, none, some, [], ◌∷◌, arith}
use netkit.Routed.Route.{Netinfo, Route, Sockaddr, State, Surroundings}
use netkit.Routed.Table.{new_route, Routes, rtinit, rtlookup}
use netkit.Routed.Table.Hash.{NoRoute}
use netkit.Routed.Table.Insert.{WellPlaced}
use netkit.Routed.Table.Lookup.{rtlookup-NoRoute}
use netkit.Routed.Input.{take_routes}
use netkit.Routed.Input.Vector.{take_routes-WellPlaced}
use netkit.Routed.Input.Bounded.{AllBounded, take_routes-AllBounded}
use netkit.Routed.Timer.{settle}
use netkit.Routed.Timer.Forget.{AllRoutes, Stays, ticks, ticks-AllStay}
use netkit.Routed.Timer.Keep.{InRoutes, ticks-InRoutes}

abbrev at : ℕ → Sockaddr
at n = record { sa_family = 2; sa_data = n ∷ [] }

abbrev env : Surroundings
env = record {
  afswitch = λ af. record {
    af_hash = λ a. record { hosthash = 5; nethash = 5 };
    af_netmatch = λ a b. true;
    af_rtflags = λ a. (true, false);
    is_supported = true;
    af_checkhost = λ a. true;
    af_sendroute = λ rt a. false;
    af_portmatch = λ a. true;
    af_portcheck = λ a. true;
    af_canon = λ a. a;
  };
  af_max = 10;
  ifwithdstaddr = λ a. none;
  ifwithnet = λ a. some 0;
  is_new_kernel = true;
  unreachable = λ rt. false;
}

abbrev plain : State
plain = record {
  changed = false;
  external = false;
  internal = false;
  passive = false;
  interface_route = false;
  remote = false;
  subnet = false;
}

rtinit-WellPlaced : WellPlaced env rtinit
unfolding rtinit
rtinit-WellPlaced = ground arith

rtlookup-NoRoute_example :
    (rtlookup env (at 9) rtinit ≡ none)
    ↔ (NoRoute (at 9) rtinit.hosthash × NoRoute (at 9) rtinit.nethash)
rtlookup-NoRoute_example = rtlookup-NoRoute env (at 9) rtinit (omega arith) rtinit-WellPlaced

abbrev host_route : Route
host_route = record {
  hash = 5;
  dst = at 9;
  router = at 1;
  flags = record { host = true; gateway = true };
  state = plain;
  rt_timer = 0;
  metric = 2;
  ifp = none;
}

abbrev one_route : Routes
one_route = record { hosthash = (host_route ∷ []) ∷ []; nethash = []; calls = [] }

abbrev own_route : Route
own_route = record host_route { state = record plain { interface_route = true } }

-- A route of an interface in front of one that is forgotten.
abbrev two_routes : Routes
two_routes = record { hosthash = (own_route ∷ host_route ∷ []) ∷ []; nethash = []; calls = [] }

ticks-AllStay_example : AllRoutes (Stays false) (ticks 8 env false two_routes)
ticks-AllStay_example = ticks-AllStay env false two_routes

ticks-InRoutes_example : InRoutes (settle own_route) (ticks 9 env false two_routes)
ticks-InRoutes_example =
    ticks-InRoutes env false 8 own_route two_routes (inr (refl, refl)) (omega arith)
      (inl (inl (inl refl)))

abbrev heard : List Netinfo
heard = record { rip_dst = at 9; rip_metric = 15 } ∷ record { rip_dst = at 8; rip_metric = 1 } ∷ []

abbrev some_route : Route
some_route = new_route env (at 9) (at 1) 2 plain

take_routes-WellPlaced_example : WellPlaced env (take_routes env 1 (at 1) heard rtinit).0
take_routes-WellPlaced_example = take_routes-WellPlaced env (at 1) 1 heard rtinit rtinit-WellPlaced

one_route-AllBounded : AllBounded one_route
one_route-AllBounded = omega arith

take_routes-AllBounded_example : AllBounded (take_routes env 1 (at 1) heard one_route).0
take_routes-AllBounded_example =
    take_routes-AllBounded env (at 1) 1 heard one_route one_route-AllBounded
