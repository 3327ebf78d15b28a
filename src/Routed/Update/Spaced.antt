-- ===== src/Routed/Update/Spaced.antt =====
-- The time between a dynamic update and the broadcast in front of it.
use netkit.Base.{
  ◌∙◌, ◌⊎◌, inl, inr, Bool-cases, ◌==◌, ℕ, ◌+◌, ◌≤◌, ◌≡◌, refl, Bool, true, false, List, [], ◌∷◌,
  arith,
}
use netkit.Routed.Update.{
  Updates, Timeval, Event, alarm, time_out, changes, Broadcast, step, run, dynamic_update,
  broadcast, full_broadcast, min_waittime,
}

-- The clock of a dynamic update shows at least MIN_WAITTIME more in its seconds, which are all that
-- is compared, than that of the broadcast in front of it.
abbrev pub IsLater : Broadcast → List Broadcast → Type 0
IsLater b [] = Unit
IsLater b (p ∷ _) = b.is_dynamic ≡ true → p.at.tv_sec + min_waittime ≤ b.at.tv_sec

abbrev pub Spaced : List Broadcast → Type 0
Spaced [] = Unit
Spaced (b ∷ bs) = IsLater b bs × Spaced bs

-- `lastbcast` is the second of the last broadcast.
abbrev IsLast : Updates → List Broadcast → Type 0
IsLast u [] = Unit
IsLast u (b ∷ _) = u.lastbcast ≡ b.at.tv_sec

abbrev IsKept : Updates × List Broadcast → Type 0
IsKept (u, log) = IsLast u log × Spaced log

plain-IsLater :
    (at : Timeval) (log : List Broadcast) → IsLater (record { at = at; is_dynamic = false }) log
plain-IsLater at [] = tt
plain-IsLater at (p ∷ log) = λ e. absurd (ground (arith, e))

dynamic_update-lastbcast :
    (supplier : Bool) (n : ℕ) (now : Timeval) (rand : ℕ) (u : Updates)
    → ((dynamic_update supplier n now rand u).0 ≡ false)
        × ((dynamic_update supplier n now rand u).1.lastbcast ≡ u.lastbcast)
      ⊎ ((dynamic_update supplier n now rand u).0 ≡ true)
        × ((dynamic_update supplier n now rand u).1.lastbcast ≡ now.tv_sec)
        × (u.lastbcast + min_waittime ≤ now.tv_sec)
unfolding dynamic_update broadcast
dynamic_update-lastbcast supplier n now rand u = ground arith

dynamic-IsLater :
    (u : Updates) (at : Timeval) (log : List Broadcast)
    → IsLast u log
    → u.lastbcast + min_waittime ≤ at.tv_sec
    → IsLater (record { at = at; is_dynamic = true }) log
dynamic-IsLater u at [] last h = tt
dynamic-IsLater u at (p ∷ log) last h = λ e. omega (arith, last, h)

IsLast-at :
    (u u' : Updates) (log : List Broadcast)
    → u'.lastbcast ≡ u.lastbcast
    → IsLast u log
    → IsLast u' log
IsLast-at u u' [] e h = tt
IsLast-at u u' (b ∷ log) e h = e ∙ h

step-IsKept :
    (supplier : Bool) (e : Event) (u : Updates) (log : List Broadcast)
    → IsKept (u, log)
    → IsKept (step supplier e (u, log))
unfolding step full_broadcast broadcast
step-IsKept supplier (alarm true now) u log (last, spaced) = (refl, (plain-IsLater now log, spaced))
step-IsKept supplier (alarm false now) u log (last, spaced) = (last, spaced)
step-IsKept supplier (time_out now) u log (last, spaced) = elim (Bool-cases (u.needupdate == 0)) [
  | inl y ↦ rw y (last, spaced)
  | inr n ↦ rw n (refl, (plain-IsLater now log, spaced))
]
step-IsKept supplier (changes n now rand) u log (last, spaced) =
    elim (dynamic_update-lastbcast supplier n now rand u) [
      | inl (due, same) ↦
          rw due (IsLast-at u (dynamic_update supplier n now rand u).1 log same last, spaced)
      | inr (due, set, later) ↦ rw due (set, (dynamic-IsLater u now log last later, spaced))
    ]

run-IsKept :
    (supplier : Bool) (es : List Event) (s : Updates × List Broadcast)
    → IsKept s
    → IsKept (run supplier es s)
unfolding run
run-IsKept supplier [] s h = h
run-IsKept supplier (e ∷ es) s h =
    run-IsKept supplier es (step supplier e s) (step-IsKept supplier e s.0 s.1 h)

-- Whatever happens, and whenever, the `tv_sec` of a dynamic update of `rip_input` is at least
-- MIN_WAITTIME (2) more than the `tv_sec` of the broadcast in front of it, be it of `timer`, of
-- `main` or of `rip_input`. The microseconds are not compared: what lies between the two can be
-- little more than one second.
pub run-Spaced :
    (supplier : Bool) (es : List Event) (u : Updates) → Spaced (run supplier es (u, [])).1
run-Spaced supplier es u = (run-IsKept supplier es (u, []) (tt, tt)).1
