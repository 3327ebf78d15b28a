-- ===== src/Routed/Message.antt =====
-- netkit-routed/routed/input.c: `rip_input`, from the tests of the sender to the update it sends.
pub mod Stranger
use netkit.Base.{
  ℕ, Bool, true, false, not, Option, none, some, List, [], ◌∷◌, ◌++◌, ◌==◌, ◌&&◌, ◌||◌, leb, map,
  get_elem?, if◌then◌else◌,
}
use netkit.Routed.Route.{Sockaddr, Route, Netinfo, Surroundings}
use netkit.Routed.Interface.{Interface, if_ifwithaddr, if_ifwithdstaddr, if_iflookup}
use netkit.Routed.Inet.{System, surroundings, afswitch}
use netkit.Routed.Table.{Routes, change_at}
use netkit.Routed.Input.{take_routes, Reply, silent, all_routes, answers, answer_request}
use netkit.Routed.Output.{Packet, Target, supply, toall}
use netkit.Routed.Startup.{found, addrouteforif}
use netkit.Routed.Update.{Timeval, Updates, dynamic_update, broadcast, full_broadcast}
use netkit.Routed.Timer.{timer, hup}

-- A message by `rip_cmd`; the routes are the whole ones, in the order of the host, and `beyond` the
-- number of the bytes behind them.
pub data Message : Type 0 where
  request : List Netinfo → ℕ → Message
  traceon_command traceoff_command : Message
  response : List Netinfo → Message
  other_command : Message

-- What the daemon does: it sends a message, or turns its trace on or off.
pub data Action : Type 0 where
  send : Packet → Action
  set_trace : Bool → Action

-- The globals that `rip_input` reads: the interfaces, `loopaddr` if `foundloopback`, `supplier`.
pub record Config : Type 0 where
  pub sys : System
  pub ifnet : List Interface
  pub loopaddr : Option Sockaddr
  pub supplier : Bool

pub record Daemon : Type 0 where
  pub routes : Routes
  pub updates : Updates

-- `afswitch`, `af_max` and the rest, for these interfaces.
abbrev pub env_of : Config → Surroundings
env_of c = surroundings c.sys c.ifnet

-- The interface at a place.
pub interface_at : List Interface → Option ℕ → Option (ℕ × Interface)
interface_at ifnet at = elim at [
  | none ↦ none
  | some n ↦ elim (get_elem? ifnet n) [ none ↦ none | some i ↦ some (n, i) ]
]

pub sends : List Packet → List Action
sends [] = []
sends (p ∷ ps) = send p ∷ sends ps

-- The interface has others on it, and they may send routes.
pub is_trusted : Interface → Bool
is_trusted i = (i.is_broadcast || (i.is_pointopoint || i.is_remote)) && not i.is_passive

-- `rt->rt_timer = 0`
pub heard_route : Route → Route
heard_route rt = record rt { rt_timer = 0 }

-- RIPCMD_REQUEST
on_request : Config → Sockaddr → List Netinfo → ℕ → Routes → List Action
unfolding sends
on_request c from nets beyond r =
    let env = env_of c in
    let afs = env.afswitch from.sa_family in
    elim (answer_request env r (c.supplier || not (afs.af_portmatch from)) beyond nets) [
      | silent ↦ []
      | all_routes ↦
          sends
            (supply env (record { dst = from; flags = false; ifp = none; only_changed = false }) r)
      | answers ns ↦ send (record { to = from; is_direct = false; nets = ns }) ∷ []
    ]

-- RIPCMD_TRACEON and RIPCMD_TRACEOFF
on_trace : Config → Sockaddr → Bool → List Action
unfolding interface_at is_trusted
on_trace c from on =
    let env = env_of c in
    let at = if_iflookup env.afswitch env.af_max c.ifnet from in
    if not ((env.afswitch from.sa_family).af_portcheck from)
    then []
    else elim (interface_at c.ifnet at) [
      | none ↦ []
      | some (_, i) ↦ if is_trusted i then set_trace on ∷ [] else []
    ]

-- A response of the daemon's own.
hear_own : Config → Sockaddr → Interface → Routes → Routes
unfolding heard_route
hear_own c from i r =
    let env = env_of c in
    let added = addrouteforif env c.ifnet c.loopaddr i r in
    if i.is_passive then r else elim (found env from r) [
      | none ↦ added
      | some (p, rt) ↦
          if not rt.state.interface_route && leb i.int_metric rt.metric
          then added
          else change_at p (λ rt. (heard_route rt, [])) r
    ]

-- The timer of the interface that a response came in over, or the route to the other end of a link.
pub hear_interface : Config → Sockaddr → Routes → Routes
unfolding heard_route interface_at
hear_interface c from r =
    let env = env_of c in
    let link = interface_at c.ifnet (if_ifwithdstaddr c.ifnet from) in
    elim (found env from r) [
      | none ↦ elim link [ none ↦ r | some (_, i) ↦ addrouteforif env c.ifnet c.loopaddr i r ]
      | some (p, rt) ↦
          if rt.state.interface_route || rt.state.remote
          then change_at p (λ rt. (heard_route rt, [])) r
          else elim link [
            | none ↦ r
            | some (_, i) ↦
                if leb i.int_metric rt.metric then addrouteforif env c.ifnet c.loopaddr i r else r
          ]
    ]

-- The end of `rip_input` behind `changes`: nothing, or an update of all interfaces but one.
send_update : Config → Timeval → ℕ → ℕ → ℕ → Daemon → Daemon × List Action
unfolding sends
send_update c now rand skipif changes d =
    let (due, updates) = dynamic_update c.supplier changes now rand d.updates in
    (
      record d { updates = updates },
      if due then sends (toall (env_of c) c.ifnet true (some skipif) d.routes) else [],
    )

-- RIPCMD_RESPONSE from an address that `af_canon` has left.
pub on_response : Config → Timeval → ℕ → Sockaddr → List Netinfo → Daemon → Daemon × List Action
unfolding hear_own hear_interface interface_at is_trusted send_update
on_response c now rand from nets d =
    let env = env_of c in
    let heard = record d { routes = hear_interface c from d.routes } in
    let at = if_iflookup env.afswitch env.af_max c.ifnet from in
    elim (interface_at c.ifnet (if_ifwithaddr c.ifnet from)) [
      | some (_, i) ↦ (record d { routes = hear_own c from i d.routes }, [])
      | none ↦ elim (interface_at c.ifnet at) [
        | none ↦ (heard, [])
        | some (n, i) ↦
            if not (is_trusted i)
            then (heard, [])
            else (let (r, changes) = take_routes env i.int_metric from nets heard.routes in
                send_update c now rand n changes (record heard { routes = r }))
      ]
    ]

-- `rip_input` of a message of a version.
pub rip_input : Config → Timeval → ℕ → Sockaddr → ℕ → Message → Daemon → Daemon × List Action
unfolding on_request on_trace on_response
rip_input c now rand from version message d =
    let env = env_of c in
    let afs = env.afswitch from.sa_family in
    if leb env.af_max from.sa_family || not afs.is_supported
    then (d, [])
    else if version == 0
    then (d, [])
    else elim message [
      | request nets beyond ↦ (d, on_request c from nets beyond d.routes)
      | traceon_command ↦ (d, on_trace c from true)
      | traceoff_command ↦ (d, on_trace c from false)
      | response nets ↦
          if afs.af_portmatch from
          then on_response c now rand (afs.af_canon from) nets d
          else (d, [])
      | other_command ↦ (d, [])
    ]

-- `timer` in full, where `due` is `timetobroadcast`.
pub on_alarm : Config → Bool → Timeval → Daemon → Daemon × List Action
unfolding sends
on_alarm c due now d =
    let r = timer (env_of c) c.supplier d.routes in
    if due
    then (
      record { routes = r; updates = full_broadcast now d.updates },
      sends (toall (env_of c) c.ifnet false none r),
    )
    else (record d { routes = r }, [])

-- The update of `main` that was held off, when its `select` times out.
pub on_time_out : Config → Timeval → Daemon → Daemon × List Action
unfolding sends
on_time_out c now d = if d.updates.needupdate == 0 then (d, []) else (
  record d { updates = broadcast now d.updates },
  sends (toall (env_of c) c.ifnet true none d.routes),
)

-- `hup` in full, up to its `exit`.
pub on_hangup : Config → Daemon → Daemon × List Action
unfolding sends
on_hangup c d =
    let r = hup c.supplier d.routes in
    (
      record d { routes = r },
      if c.supplier then sends (toall (env_of c) c.ifnet false none r) else [],
    )
