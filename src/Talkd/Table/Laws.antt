-- ===== src/Talkd/Table/Laws.antt =====
-- The table holds at most one entry for each pair of names, kind and process.
use netkit.Base.{
  ℕ, zero, suc, ◌≡◌, refl, Bool, true, false, none, some, List, [], ◌∷◌, arith, All, Bool-cases,
  Option-cases, inl, inr, get_elem?, ◌==◌, ◌⊎◌,
}
use netkit.Talkd.Message.{CtlMsg, success, not_here}
use netkit.Talkd.Table.{
  Entry, too_old, expire, find_index, find_match, repeats, update_at, find_request, delete_at,
  delete_invite,
}

-- No entry repeats the request.
abbrev pub Fresh : CtlMsg → List Entry → Type 0
Fresh m = All (λ e. repeats m e ≡ false)

abbrev pub DistinctKeys : List Entry → Type 0
DistinctKeys [] = Unit
DistinctKeys (e ∷ es) = Fresh e.request es × DistinctKeys es

expire-Fresh : (now : ℕ) (m : CtlMsg) (es : List Entry) → Fresh m es → Fresh m (expire now es)
unfolding expire
expire-Fresh now m [] h = tt
expire-Fresh now m (e ∷ es) (he, hs) = ground (arith, expire-Fresh now m es hs)

pub expire-DistinctKeys :
    (now : ℕ) (es : List Entry) → DistinctKeys es → DistinctKeys (expire now es)
unfolding expire
expire-DistinctKeys now [] h = tt
expire-DistinctKeys now (e ∷ es) (he, hs) = elim (Bool-cases (too_old now e)) [
  | inl o ↦ rw o (expire-DistinctKeys now es hs)
  | inr o ↦ rw o (expire-Fresh now e.request es he, expire-DistinctKeys now es hs)
]

pub find_index-none :
    (p : Entry → Bool) (es : List Entry) → find_index p es ≡ none → All (λ e. p e ≡ false) es
unfolding find_index
find_index-none p [] h = tt
find_index-none p (e ∷ es) h = elim (Bool-cases (p e)) [
  | inl y ↦ absurd (ground (arith, y))
  | inr y ↦ (y, find_index-none p es (ground (arith, y)))
]

-- What is found is there, and passes the test.
pub find_index-some :
    (p : Entry → Bool) (es : List Entry) (i : ℕ)
    → find_index p es ≡ some i
    → (e : Entry) × (get_elem? es i ≡ some e) × (p e ≡ true)
unfolding find_index
find_index-some p [] i h = cc
find_index-some p (e ∷ es) zero h = elim (Bool-cases (p e)) [
  | inl y ↦ (e, refl, y)
  | inr y ↦ absurd (ground (arith, y))
]
find_index-some p (e ∷ es) (suc i) h = find_index-some p es i (ground arith)

-- A change that touches no key.
module _ (f : Entry → Entry) (seen : (m : CtlMsg) (e : Entry) → repeats m (f e) ≡ repeats m e)
    (sees : (e x : Entry) → repeats (f e).request x ≡ repeats e.request x) where
  Fresh-sees : (e : Entry) (es : List Entry) → Fresh e.request es → Fresh (f e).request es
  Fresh-sees e [] h = tt
  Fresh-sees e (x ∷ xs) (hx, hs) = (rw sees hx, Fresh-sees e xs hs)

  update_at-Fresh : (i : ℕ) (m : CtlMsg) (es : List Entry) → Fresh m es → Fresh m (update_at i f es)
  unfolding update_at
  update_at-Fresh i m [] h = tt
  update_at-Fresh zero m (e ∷ es) (he, hs) = (rw seen he, hs)
  update_at-Fresh (suc i) m (e ∷ es) (he, hs) = (he, update_at-Fresh i m es hs)

  pub update_at-DistinctKeys :
      (i : ℕ) (es : List Entry) → DistinctKeys es → DistinctKeys (update_at i f es)
  unfolding update_at
  update_at-DistinctKeys i [] h = tt
  update_at-DistinctKeys zero (e ∷ es) (he, hs) = (Fresh-sees e es he, hs)
  update_at-DistinctKeys (suc i) (e ∷ es) (he, hs) =
      (update_at-Fresh i e.request es he, update_at-DistinctKeys i es hs)

delete_at-Fresh : (i : ℕ) (m : CtlMsg) (es : List Entry) → Fresh m es → Fresh m (delete_at i es)
unfolding delete_at
delete_at-Fresh i m [] h = tt
delete_at-Fresh zero m (e ∷ es) (he, hs) = hs
delete_at-Fresh (suc i) m (e ∷ es) (he, hs) = (he, delete_at-Fresh i m es hs)

pub delete_at-DistinctKeys :
    (i : ℕ) (es : List Entry) → DistinctKeys es → DistinctKeys (delete_at i es)
unfolding delete_at
delete_at-DistinctKeys i [] h = tt
delete_at-DistinctKeys zero (e ∷ es) (he, hs) = hs
delete_at-DistinctKeys (suc i) (e ∷ es) (he, hs) =
    (delete_at-Fresh i e.request es he, delete_at-DistinctKeys i es hs)

pub touch : ℕ → Entry → Entry
touch stamp e = record e { time = stamp }

module _ (now stamp : ℕ) (m : CtlMsg) (es : List Entry) where
  pub find_match-table : (find_match now m es).1 ≡ expire now es
  unfolding find_match
  find_match-table = ground arith

  pub find_request-none :
      find_index (repeats m) (expire now es) ≡ none
      → find_request now stamp m es ≡ (none, expire now es)
  unfolding find_request
  find_request-none h = ground arith

  pub find_request-some :
      (i : ℕ)
      → find_index (repeats m) (expire now es) ≡ some i
      → find_request now stamp m es ≡ (some i, update_at i (touch stamp) (expire now es))
  unfolding find_request touch
  find_request-some i h = ground arith

  pub find_request-DistinctKeys : DistinctKeys es → DistinctKeys (find_request now stamp m es).1
  unfolding touch repeats
  find_request-DistinctKeys h =
      let live = expire-DistinctKeys now es h in
      elim (Option-cases (find_index (repeats m) (expire now es))) [
        | inl e ↦ rw (find_request-none e) live
        | inr (i, e) ↦ rw (find_request-some i e) (
            update_at-DistinctKeys (touch stamp) (λ a b. refl) (λ a b. refl) i (expire now es) live)
      ]

  pub find_request-Fresh :
      (find_request now stamp m es).0 ≡ none → Fresh m (find_request now stamp m es).1
  find_request-Fresh h = elim (Option-cases (find_index (repeats m) (expire now es))) [
    | inl e ↦ rw (find_request-none e) (find_index-none (repeats m) (expire now es) e)
    | inr (i, e) ↦ cc (find_request-some i e)
  ]

-- DELETE answers SUCCESS and takes out one entry with the id, or answers NOT_HERE and changes
-- nothing, when none has it.
pub delete_invite_lem :
    (id : ℕ) (es : List Entry)
    → ((delete_invite id es ≡ (not_here, es)) × All (λ e. (e.request.id_num == id) ≡ false) es)
      ⊎ ((i : ℕ) × (e : Entry) × (get_elem? es i ≡ some e)
          × (e.request.id_num ≡ id)
          × (delete_invite id es ≡ (success, delete_at i es)))
unfolding delete_invite
delete_invite_lem id es =
    let p : Entry → Bool = λ e. e.request.id_num == id in
    elim (Option-cases (find_index p es)) [
      | inl h ↦ inl (ground (arith, h), find_index-none p es h)
      | inr (i, h) ↦
          let (e, at, y) = find_index-some p es i h in
          inr (i, e, at, ground (arith, y), ground (arith, h))
    ]

pub delete_invite-DistinctKeys :
    (id : ℕ) (es : List Entry) → DistinctKeys es → DistinctKeys (delete_invite id es).1
delete_invite-DistinctKeys id es h = elim (delete_invite_lem id es) [
  | inl (e, _) ↦ rw e h
  | inr (i, _, _, _, e) ↦ rw e (delete_at-DistinctKeys i es h)
]
