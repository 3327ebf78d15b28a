-- ===== src/Routed/Output.antt =====
-- netkit-routed/routed/output.c: the packets that tell others of the routes.
pub mod Packets
use netkit.Base.{
  ℕ, suc, ◌+◌, ◌*◌, Bool, true, false, not, Option, none, some, List, [], ◌∷◌, ◌++◌, ◌==◌, ◌&&◌,
  ◌||◌, ltb, get_elem?, length, rev_onto, if◌then◌else◌,
}
use netkit.Routed.Route.{Sockaddr, Route, Netinfo, Surroundings}
use netkit.Routed.Interface.{Interface}
use netkit.Routed.Table.{Routes}

-- A response as it is sent: to whom, with MSG_DONTROUTE or not, and its routes.
pub record Packet : Type 0 where
  pub to : Sockaddr
  pub is_direct : Bool
  pub nets : List Netinfo

-- How `supply` is called: `dst`, the interface of `ifp`, if any, its place in `ifnet`, and whether
-- `rtstate` is RTS_CHANGED or 0.
pub record Target : Type 0 where
  pub dst : Sockaddr
  pub flags : Bool
  pub ifp : Option (ℕ × Interface)
  pub only_changed : Bool

-- The routes in the order of the walk, each with `doinghost`.
tagged : Bool → List Route → List (Bool × Route)
tagged doinghost [] = []
tagged doinghost (rt ∷ rts) = (doinghost, rt) ∷ tagged doinghost rts

tagged_table : Bool → List (List Route) → List (Bool × Route)
unfolding tagged
tagged_table doinghost [] = []
tagged_table doinghost (b ∷ bs) = tagged doinghost b ++ tagged_table doinghost bs

pub walk : Routes → List (Bool × Route)
unfolding tagged_table
walk r = tagged_table true r.hosthash ++ tagged_table false r.nethash

-- `rt->rt_ifp == ifp`, where `ifp` is not null.
pub came_over : Target → Route → Bool
came_over t rt = elim t.ifp [
  | none ↦ false
  | some (n, _) ↦ elim rt.ifp [ none ↦ false | some m ↦ m == n ]
]

-- The tests of the loop behind which a route is told.
pub is_told : Surroundings → Target → Bool → Route → Bool
unfolding came_over
is_told env t doinghost rt =
    if came_over t rt && not rt.state.interface_route
    then false
    else if rt.state.external
    then false
    else if t.only_changed && not rt.state.changed
    then false
    else if not doinghost && rt.state.subnet
    then rt.dst.sa_family == t.dst.sa_family && (env.afswitch t.dst.sa_family).af_sendroute rt t.dst
    else true

-- A route as a message has it.
pub netinfo_of : Route → Netinfo
netinfo_of rt = record { rip_dst = rt.dst; rip_metric = rt.metric }

-- MAXPACKETSIZE of protocols/routed.h; a message has 4 bytes in front of its routes, of 20 each.
abbrev pub maxpacketsize : ℕ
maxpacketsize = 512

abbrev pub size_of : List Netinfo → ℕ
size_of nets = 4 + 20 * length nets

-- The message holds no further route.
pub is_full : List Netinfo → Bool
is_full nets = ltb maxpacketsize (size_of nets + 20)

-- The interface leads to nobody else.
unfoldable pub only_self : Target → Bool
only_self t = elim t.ifp [
  | none ↦ false
  | some (_, i) ↦ not (i.is_broadcast || (i.is_pointopoint || i.is_remote))
]

pub is_empty : List Netinfo → Bool
is_empty [] = true
is_empty (_ ∷ _) = false

-- The loop of `supply` with `npackets` and the message's routes so far, the last one first: the
-- messages that are sent.
pub supply_from :
    Surroundings → Target → ℕ → List Netinfo → List (Bool × Route) → List (List Netinfo)
unfolding is_told netinfo_of is_full only_self is_empty
supply_from env t npackets nets [] =
    if not (is_empty nets) || npackets == 0 && not t.only_changed then rev_onto nets [] ∷ [] else []
supply_from env t npackets nets ((doinghost, rt) ∷ rts) =
    let told = is_told env t doinghost rt in
    let flush = told && is_full nets in
    let kept : List Netinfo = if flush then [] else nets in
    let rest =
      supply_from env t (if flush then suc npackets else npackets)
        (if told then netinfo_of rt ∷ kept else kept) rts in
    if flush then rev_onto nets [] ∷ (if only_self t then [] else rest) else rest

packets : Target → List (List Netinfo) → List Packet
packets t [] = []
packets t (nets ∷ rest) = record { to = t.dst; is_direct = t.flags; nets = nets } ∷ packets t rest

-- `supply`
pub supply : Surroundings → Target → Routes → List Packet
unfolding walk supply_from packets
supply env t r = packets t (supply_from env t 0 [] (walk r))

-- The arguments that `toall` calls `supply` with.
target : Bool → ℕ → Interface → Target
target only_changed n i = record {
  dst = if i.is_broadcast || i.is_pointopoint then i.int_peer else i.int_addr;
  flags = i.is_interface;
  ifp = some (n, i);
  only_changed = only_changed;
}

is_skipped : Option ℕ → ℕ → Bool
is_skipped skipif n = elim skipif [ none ↦ false | some m ↦ m == n ]

-- The loop of `toall (supply, ...)` from the `n`th interface on.
toall_from : Surroundings → Bool → Option ℕ → Routes → ℕ → List Interface → List Packet
unfolding target is_skipped supply
toall_from env only_changed skipif r n [] = []
toall_from env only_changed skipif r n (i ∷ is) =
    let sent : List Packet =
      if i.is_passive || is_skipped skipif n then [] else supply env (target only_changed n i) r in
    sent ++ toall_from env only_changed skipif r (suc n) is

pub toall : Surroundings → List Interface → Bool → Option ℕ → Routes → List Packet
unfolding toall_from
toall env ifnet only_changed skipif r = toall_from env only_changed skipif r 0 ifnet
