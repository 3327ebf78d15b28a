-- ===== src/Talkd/Process/Users.antt =====
-- Who `find_user` finds.
use netkit.Base.{
  ℕ, ◌≡◌, refl, Bool, true, false, not, List, [], ◌∷◌, ◌&&◌, arith, All, ◌==◌, Bool-cases, inl, inr,
  ◌↔◌, sym, ap, ◌∙◌,
}
use netkit.Talkd.Message.{not_here, success, c_string, same_string}
use netkit.Talkd.Process.{
  System, Utmp, Search, is_users, look_at, result_of, search_utmp, find_user, is_empty,
}

-- No record is of the user's.
abbrev pub Absent : List ℕ → List Utmp → Type 0
Absent name = All (λ ut. is_users name ut ≡ false)

no : (success == not_here) ≡ true → ⊥
no h = ground arith

clash : {b : Bool} → b ≡ false → b ≡ true → ⊥
clash f t = cc

look_at-found : (sys : System) (s : Search) (ut : Utmp) → (look_at sys s ut).found ≡ true
unfolding look_at
look_at-found sys s ut = ground arith

result_of-found : (s : Search) → (result_of s == not_here) ≡ not s.found
unfolding result_of
result_of-found s = ground arith

asked_for : List ℕ → Utmp → Bool
asked_for tty ut = not (is_empty tty) && same_string tty (c_string ut.ut_line)

module _ (sys : System) (name tty : List ℕ) where
  search_utmp-skip :
      (s : Search) (ut : Utmp) (uts : List Utmp)
      → is_users name ut ≡ false
      → search_utmp sys name tty s (ut ∷ uts) ≡ search_utmp sys name tty s uts
  unfolding search_utmp
  search_utmp-skip s ut uts u = rw u refl

  search_utmp-hit :
      (s : Search) (ut : Utmp) (uts : List Utmp)
      → is_users name ut ≡ true
      → asked_for tty ut ≡ true
      → search_utmp sys name tty s (ut ∷ uts) ≡ (success, tty)
  unfolding search_utmp asked_for
  search_utmp-hit s ut uts u a = rw (u, a) refl

  search_utmp-other :
      (s : Search) (ut : Utmp) (uts : List Utmp)
      → is_users name ut ≡ true
      → asked_for tty ut ≡ false
      → search_utmp sys name tty s (ut ∷ uts) ≡ search_utmp sys name tty (look_at sys s ut) uts
  unfolding search_utmp asked_for
  search_utmp-other s ut uts u a = rw (u, a) refl

  search_utmp-Absent :
      (s : Search) (uts : List Utmp)
      → Absent name uts
      → search_utmp sys name tty s uts ≡ (result_of s, s.best_tty)
  unfolding search_utmp
  search_utmp-Absent s [] h = refl
  search_utmp-Absent s (ut ∷ uts) (hu, hs) =
      search_utmp-skip s ut uts hu ∙ search_utmp-Absent s uts hs

  search_utmp-not_here :
      (s : Search) (uts : List Utmp)
      → ((search_utmp sys name tty s uts).0 == not_here) ≡ true
      → (s.found ≡ false) × Absent name uts
  unfolding search_utmp
  search_utmp-not_here s [] h = (ground (arith, result_of-found s), tt)
  search_utmp-not_here s (ut ∷ uts) h = elim (Bool-cases (is_users name ut)) [
    | inr u ↦
        let (f, a) =
          search_utmp-not_here s uts
            (ap (λ r. r.0 == not_here) (sym (search_utmp-skip s ut uts u)) ∙ h) in
        (f, (u, a))
    | inl u ↦ elim (Bool-cases (asked_for tty ut)) [
      | inl a ↦ absurd (no (sym (ap (λ r. r.0 == not_here) (search_utmp-hit s ut uts u a)) ∙ h))
      | inr a ↦
          let (f, _) =
            search_utmp-not_here (look_at sys s ut) uts
              (ap (λ r. r.0 == not_here) (sym (search_utmp-other s ut uts u a)) ∙ h) in
          absurd (clash f (look_at-found sys s ut))
    ]
  ]

-- `find_user` answers NOT_HERE just when no record of utmp is of the user's.
pub find_user-not_here :
    (sys : System) (name tty : List ℕ)
    → ((find_user sys name tty).0 ≡ not_here) ↔ Absent name sys.utmp
unfolding find_user result_of
find_user-not_here sys name tty =
    let start : Search = record { found = false; ok = false; best_time = 0; best_tty = [] } in
    (
      λ h.
          (search_utmp-not_here sys name (c_string tty) start sys.utmp
            (ap (λ k. k == not_here) h)).1,
      λ a. ap (λ r. r.0) (search_utmp-Absent sys name (c_string tty) start sys.utmp a),
    )
