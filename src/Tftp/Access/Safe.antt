-- ===== src/Tftp/Access/Safe.antt =====
-- Which names `validate_access` lets through.
use netkit.Base.{
  ℕ, ◌≡◌, ◌≢◌, refl, true, false, List, [], ◌∷◌, ◌++◌, ◌⊎◌, inl, inr, arith, ap, Bool-cases,
}
use netkit.Tftp.Segments.{Has}
use netkit.Tftp.Access.{
  System, has_prefix, any_prefix, climbs, refuses, validate_access, slash, dot, starts_with_slash,
}

has_prefix-append : (t s : List ℕ) → has_prefix t (t ++ s) ≡ true
unfolding has_prefix
has_prefix-append [] s = refl
has_prefix-append (c ∷ t) s = ground (arith, has_prefix-append t s)

-- A component `..` behind a slash and before a slash is found, wherever it stands.
climbs-append :
    (prev : ℕ) (pre post : List ℕ) → climbs prev (pre ++ (slash ∷ dot ∷ dot ∷ slash ∷ post)) ≡ true
unfolding climbs
climbs-append prev [] post = ground arith
climbs-append prev (c ∷ pre) post = ground (arith, climbs-append c pre post)

refuses-climbing :
    (dirs : List (List ℕ)) (behind pre post : List ℕ)
    → refuses dirs behind (pre ++ (slash ∷ dot ∷ dot ∷ slash ∷ post)) ≡ true
unfolding refuses
refuses-climbing dirs behind [] post = unfold climbs has_prefix in ground arith
refuses-climbing dirs behind (c ∷ pre) post = ground (arith, climbs-append c pre post)

refuses-leading :
    (dirs : List (List ℕ)) (behind post : List ℕ)
    → refuses dirs behind (dot ∷ dot ∷ slash ∷ post) ≡ true
unfolding refuses has_prefix
refuses-leading dirs behind post = ground arith

has_prefix-split : (t s : List ℕ) → has_prefix t s ≡ true → (rest : List ℕ) × (s ≡ t ++ rest)
unfolding has_prefix
has_prefix-split [] s h = (s, refl)
has_prefix-split (c ∷ t) [] h = cc
has_prefix-split (c ∷ t) (d ∷ s) h =
    let (rest, e) = has_prefix-split t s (ground arith) in (rest, ground arith)

any_prefix-split :
    (dirs : List (List ℕ)) (s : List ℕ)
    → any_prefix dirs s ≡ true
    → (dir : List ℕ) × Has dir dirs × ((rest : List ℕ) × (s ≡ dir ++ rest))
unfolding any_prefix
any_prefix-split [] s h = cc
any_prefix-split (t ∷ ts) s h = elim (Bool-cases (has_prefix t s)) [
  | inl e ↦ (t, inl refl, has_prefix-split t s e)
  | inr e ↦ let (dir, m, r) = any_prefix-split ts s (ground arith) in (dir, inr m, r)
]

-- An absolute name that is let through lies below one of the directories, if any are given.
let_through-absolute :
    (first : List ℕ) (dirs : List (List ℕ)) (behind filename : List ℕ)
    → refuses (first ∷ dirs) behind filename ≡ false
    → (starts_with_slash filename ≡ false) ⊎ (any_prefix (first ∷ dirs) filename ≡ true)
unfolding refuses
let_through-absolute first dirs behind [] h = inl refl
let_through-absolute first dirs behind (c ∷ cs) h = ground arith

validate_access-refuses :
    (sys : System) (dirs : List (List ℕ)) (behind filename : List ℕ) (mode : ℕ)
    → validate_access sys dirs behind filename mode ≡ 0
    → refuses dirs behind filename ≡ false
unfolding validate_access
validate_access-refuses sys dirs behind filename mode h = ground arith

-- A name for which `validate_access` returns 0 has no component `..` but the last, and if it is
-- absolute it begins with one of the directories given.
pub validate_access_safe :
    (sys : System) (first : List ℕ) (dirs : List (List ℕ)) (behind filename : List ℕ) (mode : ℕ)
    → validate_access sys (first ∷ dirs) behind filename mode ≡ 0
    → ((pre post : List ℕ) → filename ≢ pre ++ (slash ∷ dot ∷ dot ∷ slash ∷ post))
      × ((post : List ℕ) → filename ≢ dot ∷ dot ∷ slash ∷ post)
      × ((starts_with_slash filename ≡ false)
          ⊎ ((dir : List ℕ) × Has dir (first ∷ dirs)
              × ((rest : List ℕ) × (filename ≡ dir ++ rest))))
validate_access_safe sys first dirs behind filename mode h =
    let ok = validate_access-refuses sys (first ∷ dirs) behind filename mode h in
    (
      λ pre post e. cc (
        ok,
        ap (refuses (first ∷ dirs) behind) e,
        refuses-climbing (first ∷ dirs) behind pre post,
      ),
      λ post e.
          cc (ok, ap (refuses (first ∷ dirs) behind) e, refuses-leading (first ∷ dirs) behind post),
      elim (let_through-absolute first dirs behind filename ok) [
        | inl r ↦ inl r
        | inr a ↦ inr (any_prefix-split (first ∷ dirs) filename a)
      ],
    )
