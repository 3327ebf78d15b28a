-- ===== src/Routed/Table/Hash.antt =====
-- The walk of one bucket against a search of the whole table.
use netkit.Base.{
  Bool, true, ℕ, zero, suc, ◌+◌, ◌%◌, ◌<◌, ◌≡◌, ◌≢◌, false, none, List, [], ◌∷◌, ◌==◌, ◌&&◌, arith,
  All, get_or, find_place, find_place-none, All-find_place, ◌↔◌, ◌∙◌, Bool-cases, inl, inr, ap,
}
use netkit.Routed.Route.{Sockaddr, equal, equal_lem, Route}
use netkit.Routed.Table.{routehashsiz, search_bucket}

-- The route has the key of its destination, and stands in the bucket that the key names.
abbrev pub IsPlaced : (Sockaddr → ℕ) → ℕ → Route → Type 0
IsPlaced key i rt = (rt.hash ≡ key rt.dst) × (rt.hash % routehashsiz ≡ i)

-- So do all routes of the buckets from the `i`th on.
abbrev pub AllPlaced : (Sockaddr → ℕ) → ℕ → List (List Route) → Type 0
AllPlaced key i [] = Unit
AllPlaced key i (b ∷ bs) = All (IsPlaced key i) b × AllPlaced key (suc i) bs

-- No route of the table passes the test.
abbrev pub NoneOf : (Route → Bool) → List (List Route) → Type 0
NoneOf p = All (All (λ rt. p rt ≡ false))

-- No route of the table leads to the address.
abbrev pub NoRoute : Sockaddr → List (List Route) → Type 0
NoRoute dst = NoneOf (λ rt. equal rt.dst dst)

-- A test that only routes of the key `k` pass.
module _ (key : Sockaddr → ℕ) (p : Route → Bool) (k : ℕ)
    (keyed : (rt : Route) → p rt ≡ true → key rt.dst ≡ k) where
  IsPlaced-other : (i : ℕ) (rt : Route) → IsPlaced key i rt → k % routehashsiz ≢ i → p rt ≡ false
  IsPlaced-other i rt (h, at) ne = elim (Bool-cases (p rt)) [
    | inr n ↦ n
    | inl y ↦ let e = keyed rt y in absurd (ne (omega (arith, h, at, e)))
  ]

  bucket-other :
      (i : ℕ) (b : List Route)
      → All (IsPlaced key i) b
      → k % routehashsiz ≢ i
      → All (λ rt. p rt ≡ false) b
  bucket-other i [] h ne = tt
  bucket-other i (rt ∷ b) (h, hs) ne = (IsPlaced-other i rt h ne, bucket-other i b hs ne)

  NoneOf-below :
      (i : ℕ) (bs : List (List Route)) → AllPlaced key i bs → k % routehashsiz < i → NoneOf p bs
  NoneOf-below i [] h lt = tt
  NoneOf-below i (b ∷ bs) (h, hs) lt =
      (bucket-other i b h (λ e. absurd (omega arith)), NoneOf-below (suc i) bs hs (omega arith))

  hit : (i : ℕ) (rt : Route) → IsPlaced key i rt → (rt.hash == k && p rt) ≡ false → p rt ≡ false
  hit i rt (h, at) n = elim (Bool-cases (p rt)) [
    | inr f ↦ f
    | inl y ↦ let e : rt.hash ≡ k = h ∙ keyed rt y in absurd (ground (arith, n, e, y))
  ]

  bucket-hit :
      (i : ℕ) (b : List Route)
      → All (IsPlaced key i) b
      → All (λ rt. (rt.hash == k && p rt) ≡ false) b
      → All (λ rt. p rt ≡ false) b
  bucket-hit i [] h n = tt
  bucket-hit i (rt ∷ b) (h, hs) (n, ns) = (hit i rt h n, bucket-hit i b hs ns)

  NoneOf-from :
      (i j : ℕ) (bs : List (List Route))
      → AllPlaced key i bs
      → k % routehashsiz ≡ i + j
      → find_place (λ rt. rt.hash == k && p rt) (get_or bs j []) ≡ none
      → NoneOf p bs
  NoneOf-from i j [] h at n = tt
  NoneOf-from i zero (b ∷ bs) (h, hs) at n = (
    bucket-hit i b h (find_place-none (λ rt. rt.hash == k && p rt) b n),
    NoneOf-below (suc i) bs hs (omega arith),
  )
  NoneOf-from i (suc j) (b ∷ bs) (h, hs) at n =
      (bucket-other i b h (λ e. absurd (omega arith)), NoneOf-from (suc i) j bs hs (omega arith) n)

  missed :
      (b : List Route) → All (λ rt. p rt ≡ false) b → All (λ rt. (rt.hash == k && p rt) ≡ false) b
  missed [] h = tt
  missed (rt ∷ b) (h, hs) = (ground (arith, h), missed b hs)

  NoneOf-get_or :
      (j : ℕ) (bs : List (List Route)) → NoneOf p bs → All (λ rt. p rt ≡ false) (get_or bs j [])
  NoneOf-get_or j [] h = tt
  NoneOf-get_or zero (b ∷ bs) (h, hs) = h
  NoneOf-get_or (suc j) (b ∷ bs) (h, hs) = NoneOf-get_or j bs hs

  -- In a table where every route is placed, the walk of one bucket finds no route that passes the
  -- test just when the whole table has none.
  pub search_bucket-NoneOf :
      (bs : List (List Route)) → AllPlaced key 0 bs → (search_bucket p k bs ≡ none) ↔ NoneOf p bs
  unfolding search_bucket
  search_bucket-NoneOf bs h = (
    λ n. NoneOf-from 0 (k % routehashsiz) bs h (omega arith) n,
    λ n.
        All-find_place (λ rt. rt.hash == k && p rt) (get_or bs (k % routehashsiz) [])
          (missed (get_or bs (k % routehashsiz) []) (NoneOf-get_or (k % routehashsiz) bs n)),
  )

-- The walk for an address, under its own key.
pub search_bucket-NoRoute :
    (key : Sockaddr → ℕ) (dst : Sockaddr) (bs : List (List Route))
    → AllPlaced key 0 bs
    → (search_bucket (λ rt. equal rt.dst dst) (key dst) bs ≡ none) ↔ NoRoute dst bs
search_bucket-NoRoute key dst =
    search_bucket-NoneOf key (λ rt. equal rt.dst dst) (key dst)
      (λ rt y. ap key (equal_lem rt.dst dst y))
