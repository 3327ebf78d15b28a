-- ===== src/Routed/Table/Insert.antt =====
-- `insque` keeps every route in the bucket of its key.
use netkit.Base.{
  length, Bool, ℕ, zero, suc, ◌+◌, ◌%◌, ◌<◌, ◌≡◌, Bool, true, false, List, [], ◌∷◌, arith,
  modify_at, Bool-cases, inl, inr, length, if◌then◌else◌,
}
use netkit.Routed.Route.{Sockaddr, Route, Surroundings}
use netkit.Routed.Table.{routehashsiz, Routes, insque, with_buckets}
use netkit.Routed.Table.Hash.{AllPlaced, NoneOf}

abbrev pub host_key : Surroundings → Sockaddr → ℕ
host_key env a = ((env.afswitch a.sa_family).af_hash a).hosthash

abbrev pub net_key : Surroundings → Sockaddr → ℕ
net_key env a = ((env.afswitch a.sa_family).af_hash a).nethash

-- Every route of both tables stands in the bucket of its key.
abbrev pub WellPlaced : Surroundings → Routes → Type 0
WellPlaced env r = AllPlaced (host_key env) 0 r.hosthash × AllPlaced (net_key env) 0 r.nethash

-- A route put at the head of the bucket of its key.
module _ (key : Sockaddr → ℕ) (rt : Route) (right : rt.hash ≡ key rt.dst) where
  insert-AllPlaced :
      (i j : ℕ) (bs : List (List Route))
      → AllPlaced key i bs
      → rt.hash % routehashsiz ≡ i + j
      → AllPlaced key i (modify_at j (λ b. rt ∷ b) bs)
  unfolding modify_at
  insert-AllPlaced i j [] h at = tt
  insert-AllPlaced i zero (b ∷ bs) (h, hs) at = (((right, omega arith), h), hs)
  insert-AllPlaced i (suc j) (b ∷ bs) (h, hs) at =
      (h, insert-AllPlaced (suc i) j bs hs (omega arith))

-- Where no route of the table passes a test, the one put into it does not.
insert-NoneOf :
    (p : Route → Bool) (rt : Route) (j : ℕ) (bs : List (List Route))
    → j < length bs
    → NoneOf p (modify_at j (λ b. rt ∷ b) bs)
    → p rt ≡ false
unfolding modify_at
insert-NoneOf p rt j [] lt h = absurd (omega arith)
insert-NoneOf p rt zero (b ∷ bs) lt ((h, _), _) = h
insert-NoneOf p rt (suc j) (b ∷ bs) lt (_, hs) = insert-NoneOf p rt j bs (omega arith) hs

-- Each table has its 32 buckets.
abbrev pub Sized : Routes → Type 0
Sized r = (length r.hosthash ≡ routehashsiz) × (length r.nethash ≡ routehashsiz)

-- The key of a route in the table that its flags name.
abbrev pub key_of : Surroundings → Route → Sockaddr → ℕ
key_of env rt = if rt.flags.host then host_key env else net_key env

module _ (env : Surroundings) (rt : Route) (right : rt.hash ≡ key_of env rt rt.dst)
    (r : Routes) where
  abbrev pub headed : List (List Route) → List (List Route)
  headed bs = modify_at (rt.hash % routehashsiz) (λ b. rt ∷ b) bs

  pub insque-host :
      rt.flags.host ≡ true
      → ((insque rt r).hosthash ≡ headed r.hosthash) × ((insque rt r).nethash ≡ r.nethash)
  unfolding insque with_buckets
  insque-host h = ground (arith, h)

  pub insque-net :
      rt.flags.host ≡ false
      → ((insque rt r).hosthash ≡ r.hosthash) × ((insque rt r).nethash ≡ headed r.nethash)
  unfolding insque with_buckets
  insque-net h = ground (arith, h)

  pub insque-WellPlaced : WellPlaced env r → WellPlaced env (insque rt r)
  insque-WellPlaced (wh, wn) = elim (Bool-cases rt.flags.host) [
    | inl h ↦
        let e : rt.hash ≡ host_key env rt.dst = ground (arith, right, h) in
        let (a, b) = insque-host h in
        let placed =
          insert-AllPlaced (host_key env) rt e 0 (rt.hash % routehashsiz) r.hosthash wh
            (omega arith) in
        (rw a placed, rw b wn)
    | inr h ↦
        let e : rt.hash ≡ net_key env rt.dst = ground (arith, right, h) in
        let (a, b) = insque-net h in
        let placed =
          insert-AllPlaced (net_key env) rt e 0 (rt.hash % routehashsiz) r.nethash wn
            (omega arith) in
        (rw a wh, rw b placed)
  ]

  -- Where no route of the tables passes their test, the one put into them does not.
  pub insque-NoneOf :
      (p q : Route → Bool)
      → Sized r
      → NoneOf p (insque rt r).hosthash
      → NoneOf q (insque rt r).nethash
      → (if rt.flags.host then p rt else q rt) ≡ false
  insque-NoneOf p q (sh, sn) nh nn = elim (Bool-cases rt.flags.host) [
    | inl h ↦
        let n =
          insert-NoneOf p rt (rt.hash % routehashsiz) r.hosthash (omega arith)
            (rw⁻¹ (insque-host h).0 nh) in
        ground (arith, h, n)
    | inr h ↦
        let n =
          insert-NoneOf q rt (rt.hash % routehashsiz) r.nethash (omega arith)
            (rw⁻¹ (insque-net h).1 nn) in
        ground (arith, h, n)
  ]
