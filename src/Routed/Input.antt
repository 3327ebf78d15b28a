-- ===== src/Routed/Input.antt =====
-- `rip_input` of netkit-routed/routed/input.c: the routes of a response from a router that is
-- known, which came in over an interface.
pub mod Vector
pub mod Bounded
use netkit.Base.{
  ℕ, ◌+◌, ◌-◌, ◌/◌, Bool, true, false, not, Option, none, some, List, [], ◌∷◌, ◌==◌, ◌&&◌, ◌||◌,
  leb, ltb, if◌then◌else◌,
}
use netkit.Routed.Route.{
  Sockaddr, equal, Route, Netinfo, State, Surroundings, expire_time, garbage_time, hopcnt_infinity,
}
use netkit.Routed.Table.{
  KernelCall, Routes, Place, rtlookup, rtfind, route_at, rtadd, rtchange, change_at,
}

-- The metric by the interface that it came in over.
pub adjust : ℕ → ℕ → ℕ
adjust int_metric metric =
    let sum = if ltb metric hopcnt_infinity then metric + int_metric else metric in
    if ltb hopcnt_infinity sum then hopcnt_infinity else sum

-- The tests at the head of the loop, behind which a route is looked at.
pub is_sound : Surroundings → Netinfo → Bool
is_sound env n =
    let afs = env.afswitch n.rip_dst.sa_family in
    not (leb env.af_max n.rip_dst.sa_family || not afs.is_supported)
    && (afs.af_checkhost n.rip_dst && not (n.rip_metric == 0 || ltb hopcnt_infinity n.rip_metric))

-- `rt->rt_timer = t`
set_timer : ℕ → Route → Route
set_timer t rt = record rt { rt_timer = t }

-- The update of a route that is known: the route, the calls, and whether it changed.
pub update : Surroundings → Sockaddr → ℕ → Route → Route × List KernelCall × Bool
unfolding set_timer
update env from metric rt =
    let (rt', calls) = rtchange env rt from metric in
    if equal from rt.router
    then (if not (metric == rt.metric)
        then (
          set_timer (if leb hopcnt_infinity rt'.metric then garbage_time - expire_time else 0) rt',
          calls,
          true,
        )
        else (if ltb rt.metric hopcnt_infinity then set_timer 0 rt else rt, [], false))
    else if ltb metric rt.metric
        || (rt.metric == metric
            && (ltb (expire_time / 2) rt.rt_timer && ltb metric hopcnt_infinity))
    then (set_timer 0 rt', calls, true)
    else (rt, [], false)

abbrev pub no_bits : State
no_bits = record {
  changed = false;
  external = false;
  internal = false;
  passive = false;
  interface_route = false;
  remote = false;
  subnet = false;
}

-- A route that is not known, or only as the daemon's own: it is added if it is finite and no
-- route that includes it leads to the same router.
pub add_new : Surroundings → Sockaddr → Sockaddr → ℕ → Routes → Routes × ℕ
add_new env from dst metric r =
    let added = rtadd env dst from metric no_bits r in
    let same : Bool = elim (rtfind env dst r) [
      | none ↦ false
      | some p ↦ elim (route_at r p) [ none ↦ false | some rt ↦ equal from rt.router ]
    ] in
    if not (ltb metric hopcnt_infinity) then (r, 0) else if same then (r, 0) else (added, 1)

-- The route and the calls.
pub updated : Surroundings → Sockaddr → ℕ → Route → Route × List KernelCall
unfolding update
updated env from metric rt = let (rt', calls, _) = update env from metric rt in (rt', calls)

-- The body of the loop; the number is that of the changes.
pub take_route : Surroundings → ℕ → Sockaddr → Netinfo → Routes → Routes × ℕ
unfolding adjust is_sound updated add_new
take_route env int_metric from n r =
    let metric = adjust int_metric n.rip_metric in
    let fresh = add_new env from n.rip_dst metric r in
    if not (is_sound env n) then (r, 0) else elim (rtlookup env n.rip_dst r) [
      | none ↦ fresh
      | some p ↦ elim (route_at r p) [
        | none ↦ (r, 0)
        | some rt ↦
            if rt.state.internal && rt.state.interface_route
            then (if rt.state.subnet && (env.afswitch n.rip_dst.sa_family).af_sendroute rt from
                then (r, 0)
                else fresh)
            else (
              change_at p (updated env from metric) r,
              if (update env from metric rt).2 then 1 else 0,
            )
      ]
    ]

-- The loop.
pub take_routes : Surroundings → ℕ → Sockaddr → List Netinfo → Routes → Routes × ℕ
unfolding take_route
take_routes env int_metric from [] r = (r, 0)
take_routes env int_metric from (n ∷ ns) r =
    let (r', changes) = take_route env int_metric from n r in
    let (r'', more) = take_routes env int_metric from ns r' in (r'', changes + more)

-- What comes of a request: nothing, the whole table, or the routes asked for.
pub data Reply : Type 0 where
  silent all_routes : Reply
  answers : List Netinfo → Reply

-- One route of a request: its metric from here.
pub answer_route : Surroundings → Routes → Netinfo → Netinfo
answer_route env r n =
    let afs = env.afswitch n.rip_dst.sa_family in
    let place : Option Place =
      if ltb n.rip_dst.sa_family env.af_max && afs.is_supported
      then rtlookup env n.rip_dst r
      else none in
    let found : Option Route = elim place [ none ↦ none | some p ↦ route_at r p ] in
    record n {
      rip_metric = elim found [
        | none ↦ hopcnt_infinity
        | some rt ↦ if ltb (rt.metric + 1) hopcnt_infinity then rt.metric + 1 else hopcnt_infinity
      ];
    }

pub is_last : List Netinfo → Bool
is_last [] = true
is_last (_ ∷ _) = false

-- The loop over a request, behind whose routes `beyond` more bytes stand. `tells_all` says whether
-- the whole table is supplied to the sender: the daemon is a supplier, or the sender no router.
pub answer_from : Surroundings → Routes → Bool → ℕ → List Netinfo → Reply
unfolding answer_route is_last
answer_from env r tells_all beyond [] = answers []
answer_from env r tells_all beyond (n ∷ ns) =
    let rest = answer_from env r tells_all beyond ns in
    if n.rip_dst.sa_family == 0 && (n.rip_metric == hopcnt_infinity && (is_last ns && beyond == 0))
    then (if tells_all then all_routes else silent)
    else elim rest [ answers as' ↦ answers (answer_route env r n ∷ as') | other ↦ other ]

-- RIPCMD_REQUEST
pub answer_request : Surroundings → Routes → Bool → ℕ → List Netinfo → Reply
unfolding answer_from
answer_request env r tells_all beyond [] = silent
answer_request env r tells_all beyond (n ∷ ns) = answer_from env r tells_all beyond (n ∷ ns)
