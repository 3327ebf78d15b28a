-- ===== src/Routed/Timer.antt =====
-- `timer` of netkit-routed/routed/timer.c, less the search for interfaces and the broadcast.
pub mod Forget
pub mod Keep
use netkit.Base.{
  ℕ, ◌+◌, Bool, true, false, not, Option, none, some, List, [], ◌∷◌, ◌++◌, ◌==◌, ◌&&◌, ◌||◌, leb,
  ltb, if◌then◌else◌,
}
use netkit.Routed.Route.{
  Route, State, Surroundings, timer_rate, expire_time, garbage_time, hopcnt_infinity,
}
use netkit.Routed.Table.{KernelCall, Routes, rtchange, rtdelete_calls}

-- The time of a route advances, unless it is passive, or of an interface while the daemon supplies
-- nothing.
pub advance : Bool → Route → Route
advance supplier rt =
    if not rt.state.passive && (supplier || not rt.state.interface_route)
    then record rt { rt_timer = rt.rt_timer + timer_rate }
    else rt

-- The bit RTS_CHANGED is cleared.
pub settle : Route → Route
settle rt = record rt { state = record rt.state { changed = false } }

-- The body of the loop: the route, if it stays, and the calls made, the last one first.
pub age : Surroundings → Bool → Route → Option Route × List KernelCall
unfolding advance settle
age env supplier rt =
    let rt' = advance supplier rt in
    let (poisoned, calls) = rtchange env rt' rt'.router hopcnt_infinity in
    if leb garbage_time rt'.rt_timer
    then (none, rtdelete_calls rt')
    else if leb expire_time rt'.rt_timer && ltb rt'.metric hopcnt_infinity
    then (some (settle poisoned), calls)
    else (some (settle rt'), [])

-- The walk of a bucket: from `rt_back` of a route that was deleted it goes on with the next one.
pub age_bucket : Surroundings → Bool → List Route → List Route × List KernelCall
unfolding age
age_bucket env supplier [] = ([], [])
age_bucket env supplier (rt ∷ rts) =
    let (kept, calls) = age env supplier rt in
    let (rest, later) = age_bucket env supplier rts in
    (elim kept [ none ↦ rest | some rt' ↦ rt' ∷ rest ], later ++ calls)

pub age_table : Surroundings → Bool → List (List Route) → List (List Route) × List KernelCall
unfolding age_bucket
age_table env supplier [] = ([], [])
age_table env supplier (b ∷ bs) =
    let (b', calls) = age_bucket env supplier b in
    let (rest, later) = age_table env supplier bs in (b' ∷ rest, later ++ calls)

-- `timer`: first the routes to hosts, then those to networks.
pub timer : Surroundings → Bool → Routes → Routes
unfolding age_table
timer env supplier r =
    let (hosts, calls) = age_table env supplier r.hosthash in
    let (nets, later) = age_table env supplier r.nethash in
    record { hosthash = hosts; nethash = nets; calls = later ++ (calls ++ r.calls) }

poison_bucket : List Route → List Route
poison_bucket [] = []
poison_bucket (rt ∷ rts) = record rt { metric = hopcnt_infinity } ∷ poison_bucket rts

poison_table : List (List Route) → List (List Route)
unfolding poison_bucket
poison_table [] = []
poison_table (b ∷ bs) = poison_bucket b ∷ poison_table bs

-- `hup`, before it tells everyone and exits: a supplier's routes are all at infinity.
pub hup : Bool → Routes → Routes
unfolding poison_table
hup supplier r =
    if supplier
    then record r { hosthash = poison_table r.hosthash; nethash = poison_table r.nethash }
    else r
