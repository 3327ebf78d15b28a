-- ===== src/Routed/Startup.antt =====
-- netkit-routed/routed/startup.c: the routes of an interface.
use netkit.Base.{
  ℕ, ◌/◌, ◌%◌, ◌^◌, Bool, true, false, not, Option, none, some, List, ◌∷◌, ◌==◌, ◌&&◌, ltb,
  replicate, if◌then◌else◌,
}
use Prim.Native.Nat.{bit_and}
use netkit.Routed.Route.{Sockaddr, State, Route, Surroundings}
use netkit.Routed.Interface.{Interface}
use netkit.Routed.Inet.{inet_makeaddr, address}
use netkit.Routed.Table.{Routes, Place, rtfind, rtadd, rtdelete, rtchange, change_at, route_at}

-- A `struct sockaddr_in` of AF_INET, with nothing but its address, and INADDR_ANY as the host.
pub net_address : List Interface → ℕ → Sockaddr
net_address ifnet net =
    let i = inet_makeaddr ifnet net 0 in
    record {
      sa_family = 2;
      sa_data =
          0
          ∷ 0
          ∷ (i / 2 ^ 24 % 256)
          ∷ (i / 2 ^ 16 % 256)
          ∷ (i / 2 ^ 8 % 256)
          ∷ (i % 256)
          ∷ replicate 8 0;
    }

pub found : Surroundings → Sockaddr → Routes → Option (Place × Route)
found env dst r = elim (rtfind env dst r) [
  | none ↦ none
  | some p ↦ elim (route_at r p) [ none ↦ none | some rt ↦ some (p, rt) ]
]

-- The state of the routes that the daemon makes for itself.
abbrev own : State
own = record {
  changed = false;
  external = false;
  internal = false;
  passive = true;
  interface_route = true;
  remote = false;
  subnet = false;
}

-- `add_ptopt_localrt`, with `loopaddr`.
pub add_ptopt_localrt : Surroundings → List Interface → Sockaddr → Interface → Routes → Routes
unfolding found net_address
add_ptopt_localrt env ifnet loopaddr ifp r =
    let logical : Bool = elim (found env (net_address ifnet ifp.int_net) r) [
      | none ↦ false
      | some (_, rt) ↦ rt.state.internal
    ] in
    let state : State = record own { subnet = logical } in
    elim (found env ifp.int_addr r) [
      | none ↦ rtadd env ifp.int_addr loopaddr 1 state r
      | some (p, rt) ↦
          if rt.state.interface_route
          then r
          else rtadd env ifp.int_addr loopaddr 1 state (rtdelete p r)
    ]

-- The route of a subnetted interface to its network, "meant for external viewers".
network_route : Surroundings → List Interface → Interface → Routes → Routes
unfolding found net_address
network_route env ifnet ifp r =
    let dst = net_address ifnet ifp.int_net in
    elim (found env dst r) [
      | none ↦
          rtadd env dst ifp.int_addr ifp.int_metric
            (record own {
              interface_route = ifp.is_interface;
              remote = ifp.is_remote;
              internal = true;
              subnet = true;
            })
            r
      | some (p, rt) ↦
          if rt.state.internal && (rt.state.subnet && ltb ifp.int_metric rt.metric)
          then change_at p (λ rt. rtchange env rt rt.router ifp.int_metric) r
          else r
    ]

-- The state of the interface's route.
interface_state : Interface → State
interface_state ifp =
    let elsewhere =
      ifp.is_pointopoint && not (bit_and (address ifp.int_peer) ifp.int_netmask == ifp.int_net) in
    record own {
      interface_route = ifp.is_interface;
      passive = ifp.is_passive;
      remote = ifp.is_remote;
      subnet = ifp.is_subnet && not elsewhere;
      external = ifp.is_loopback;
    }

-- From the deletion of an old route on; `loopaddr` is there if `foundloopback`.
install : Surroundings → List Interface → Option Sockaddr → Interface → Sockaddr → Routes → Routes
unfolding network_route interface_state add_ptopt_localrt
install env ifnet loopaddr ifp dst r =
    let r1 = if ifp.is_subnet && not ifp.is_pointopoint then network_route env ifnet ifp r else r in
    let r2 = rtadd env dst ifp.int_addr ifp.int_metric (interface_state ifp) r1 in
    elim loopaddr [
      | none ↦ r2
      | some a ↦ if ifp.is_pointopoint then add_ptopt_localrt env ifnet a ifp r2 else r2
    ]

-- `addrouteforif`
pub addrouteforif : Surroundings → List Interface → Option Sockaddr → Interface → Routes → Routes
unfolding install found net_address
addrouteforif env ifnet loopaddr ifp r =
    let dst = if ifp.is_pointopoint then ifp.int_peer else net_address ifnet ifp.int_subnet in
    elim (found env dst r) [
      | none ↦ install env ifnet loopaddr ifp dst r
      | some (p, rt) ↦
          if rt.state.interface_route && not rt.state.internal
          then r
          else install env ifnet loopaddr ifp dst (rtdelete p r)
    ]
