-- ===== src/Routed/Update.antt =====
-- netkit-routed/routed/input.c, timer.c and main.c: when the daemon tells others of its routes.
pub mod Spaced
use netkit.Base.{
  ℕ, ◌+◌, ◌-◌, ◌*◌, ◌/◌, ◌%◌, Bool, true, false, not, List, [], ◌∷◌, ◌==◌, ◌&&◌, ◌||◌, leb, ltb,
  if◌then◌else◌,
}

-- `struct timeval`
pub record Timeval : Type 0 where
  pub tv_sec : ℕ
  pub tv_usec : ℕ

-- `lastbcast` and `lastfullupdate`, of which only the seconds are read, `nextbcast`, `needupdate`.
pub record Updates : Type 0 where
  pub lastbcast : ℕ
  pub lastfullupdate : ℕ
  pub nextbcast : Timeval
  pub needupdate : ℕ

-- Of protocols/routed.h.
abbrev pub supply_interval : ℕ
supply_interval = 30

abbrev pub min_waittime : ℕ
min_waittime = 2

abbrev pub max_waittime : ℕ
max_waittime = 5

-- `timercmp (a, b, <)`
pub is_before : Timeval → Timeval → Bool
is_before a b = ltb a.tv_sec b.tv_sec || a.tv_sec == b.tv_sec && ltb a.tv_usec b.tv_usec

-- `timevaladd`
pub timevaladd : Timeval → Timeval → Timeval
timevaladd a b =
    let usec = a.tv_usec + b.tv_usec in
    let sec = a.tv_sec + b.tv_sec in
    if ltb 1000000 usec
    then record { tv_sec = sec + 1; tv_usec = usec - 1000000 }
    else record { tv_sec = sec; tv_usec = usec }

-- `nextbcast` from RANDOMDELAY on, where `rand` is what `random` returns.
pub next_time : ℕ → Timeval → ℕ → Timeval
unfolding timevaladd
next_time rand now lastfull =
    let delay = min_waittime * 1000000 + rand % ((max_waittime - min_waittime) * 1000000) in
    let next = timevaladd (record { tv_sec = delay / 1000000; tv_usec = delay % 1000000 }) now in
    if ltb (lastfull + supply_interval - min_waittime) next.tv_sec
    then record next { tv_sec = lastfull + supply_interval + 1 }
    else next

-- A broadcast at a time; that of the whole table is one of `timer`.
pub broadcast : Timeval → Updates → Updates
broadcast now u = record u {
  lastbcast = now.tv_sec;
  needupdate = 0;
  nextbcast = record u.nextbcast { tv_sec = 0 };
}

pub full_broadcast : Timeval → Updates → Updates
unfolding broadcast
full_broadcast now u = record (broadcast now u) { lastfullupdate = now.tv_sec }

-- The end of `rip_input`, where `supplier` is 0 or 1: whether it sends the update, and the times.
pub dynamic_update : Bool → ℕ → Timeval → ℕ → Updates → Bool × Updates
unfolding broadcast next_time is_before
dynamic_update supplier changes now rand u =
    let sends = leb (u.lastbcast + min_waittime) now.tv_sec && is_before u.nextbcast now in
    let u' = if sends then broadcast now u else record u { needupdate = u.needupdate + 1 } in
    if not (changes == 0)
      && (supplier && ltb now.tv_sec (u.lastfullupdate + (supply_interval - max_waittime)))
    then (
      sends,
      (if u'.nextbcast.tv_sec == 0
          then record u' { nextbcast = next_time rand now u'.lastfullupdate }
          else u'),
    )
    else (false, u)

-- What sets the times: a call of `timer`, which broadcasts the whole table or not, the end of a
-- `select` in `main` after a delay, and the end of a `rip_input` behind a number of changes.
pub data Event : Type 0 where
  alarm : Bool → Timeval → Event
  time_out : Timeval → Event
  changes : ℕ → Timeval → ℕ → Event

-- A broadcast, and whether it is a dynamic update of `rip_input`.
pub record Broadcast : Type 0 where
  pub at : Timeval
  pub is_dynamic : Bool

-- One event; the broadcasts so far, the last one first.
pub step : Bool → Event → Updates × List Broadcast → Updates × List Broadcast
unfolding full_broadcast broadcast dynamic_update
step supplier (alarm due now) (u, log) =
    if due then (full_broadcast now u, record { at = now; is_dynamic = false } ∷ log) else (u, log)
step supplier (time_out now) (u, log) =
    if u.needupdate == 0
    then (u, log)
    else (broadcast now u, record { at = now; is_dynamic = false } ∷ log)
step supplier (changes n now rand) (u, log) =
    let (due, u') = dynamic_update supplier n now rand u in
    (u', if due then record { at = now; is_dynamic = true } ∷ log else log)

pub run : Bool → List Event → Updates × List Broadcast → Updates × List Broadcast
unfolding step
run supplier [] s = s
run supplier (e ∷ es) s = run supplier es (step supplier e s)
