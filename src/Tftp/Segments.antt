-- ===== src/Tftp/Segments.antt =====
-- A byte string cut into segments of SEGSIZE bytes, the last one shorter: what a TFTP transfer is
-- to carry, block by block.
use netkit.Base.{
  ℕ, zero, suc, ◌+◌, ◌%◌, ◌^◌, ◌≤◌, ◌<◌, ◌≡◌, refl, ◌⊎◌, List, [], ◌∷◌, ◌++◌, append-nil,
  append_assoc, take, drop, length, arith, take-append-drop, sym, ap, ◌∙◌, length-take, length-drop,
  ◌*◌, ◌-◌, ◌/◌,
}
use netkit.Tftp.Buffers.{segsize}
use netkit.Tftp.Packet.{Packet, data_packet}

-- What stands behind the first `k` segments.
unfoldable pub after : ℕ → List ℕ → List ℕ
after zero xs = xs
after (suc k) xs = drop segsize (after k xs)

unfoldable pub segment : ℕ → List ℕ → List ℕ
segment k xs = take segsize (after k xs)

pub length-segment-le : (k : ℕ) (xs : List ℕ) → length (segment k xs) ≤ segsize
unfolding segment
length-segment-le k xs = omega (arith, length-take segsize (after k xs))

-- The first `k` segments.
unfoldable pub joined : ℕ → List ℕ → List ℕ
joined zero xs = []
joined (suc k) xs = joined k xs ++ segment k xs

pub joined-after : (k : ℕ) (xs : List ℕ) → joined k xs ++ after k xs ≡ xs
unfolding joined after segment
joined-after zero xs = refl
joined-after (suc k) xs = rw (append_assoc, take-append-drop) (joined-after k xs)

short-drop : (n : ℕ) (xs : List ℕ) → length (take n xs) < n → drop n xs ≡ []
short-drop zero xs h = absurd (omega arith)
short-drop (suc n) [] h = refl
short-drop (suc n) (x ∷ xs) h = short-drop n xs (omega arith)

-- A short segment is the last one: the segments up to it are the whole.
pub joined-short : (k : ℕ) (xs : List ℕ) → length (segment k xs) < segsize → joined (suc k) xs ≡ xs
joined-short k xs h =
    sym (append-nil (joined (suc k) xs))
    ∙ ap (λ l. joined (suc k) xs ++ l) (sym last)
    ∙ joined-after (suc k) xs
  where
    last : after (suc k) xs ≡ []
    last = unfold after segment in short-drop segsize (after k xs) (unfold segment in h)

-- The packet of segment `j`; block numbers begin at 1 and wrap at 2 ^ 16.
unfoldable pub segment_packet : List ℕ → ℕ → Packet
segment_packet xs j = data_packet ((j + 1) % 2 ^ 16) (segment j xs)

-- `p` carries one of the first `k + 1` segments under its block number.
abbrev pub IsGenuine : List ℕ → ℕ → Packet → Type 0
IsGenuine xs k p = (j : ℕ) × (j ≤ k) × (p ≡ segment_packet xs j)

abbrev pub Has : {A : Type 0} → A → List A → Type 0
Has a [] = ⊥
Has a (x ∷ xs) = (a ≡ x) ⊎ Has a xs

-- All of the first `k` segments are full.
abbrev pub AllFull : List ℕ → ℕ → Type 0
AllFull xs zero = Unit
AllFull xs (suc k) = AllFull xs k × (length (segment k xs) ≡ segsize)

-- From segment `k` on there are `m` full segments and a short one.
abbrev pub FullFrom : List ℕ → ℕ → ℕ → Type 0
FullFrom xs k zero = length (segment k xs) < segsize
FullFrom xs k (suc m) = (length (segment k xs) ≡ segsize) × FullFrom xs (suc k) m

length-after : (k : ℕ) (xs : List ℕ) → length (after k xs) ≡ length xs - k * segsize
unfolding after segsize
length-after zero xs = omega arith
length-after (suc k) xs = omega (arith, length-drop segsize (after k xs), length-after k xs)

FullFrom-of_length :
    (xs : List ℕ) (k m : ℕ)
    → (k + m) * segsize ≤ length xs
    → length xs < (k + m + 1) * segsize
    → FullFrom xs k m
unfolding segment segsize
FullFrom-of_length xs k zero lo hi =
    omega (arith, length-take segsize (after k xs), length-after k xs)
FullFrom-of_length xs k (suc m) lo hi = (
  omega (arith, length-take segsize (after k xs), length-after k xs),
  FullFrom-of_length xs (suc k) m (omega arith) (omega arith),
)

-- The number of full segments.
abbrev pub fulls : List ℕ → ℕ
unfolding segsize
fulls xs = length xs / segsize

pub FullFrom-fulls : (xs : List ℕ) → FullFrom xs 0 (fulls xs)
unfolding fulls
FullFrom-fulls xs = FullFrom-of_length xs 0 (fulls xs) (omega arith) (omega arith)

AllFull-le : (xs : List ℕ) (k : ℕ) → AllFull xs k → k * segsize ≤ length xs
unfolding segment segsize
AllFull-le xs zero h = omega arith
AllFull-le xs (suc k) h =
    omega (arith, AllFull-le xs k h.0, length-take segsize (after k xs), length-after k xs)

pub AllFull-le-fulls : (xs : List ℕ) (k : ℕ) → AllFull xs k → k ≤ fulls xs
unfolding fulls segsize
AllFull-le-fulls xs k h = omega (arith, AllFull-le xs k h)

take_self : (n : ℕ) (xs : List ℕ) → length xs ≤ n → take n xs ≡ xs
take_self zero [] h = refl
take_self zero (x ∷ xs) h = absurd (omega arith)
take_self (suc n) [] h = refl
take_self (suc n) (x ∷ xs) h = ap (λ l. x ∷ l) (take_self n xs (omega arith))

pub take-segment : (k : ℕ) (xs : List ℕ) → take segsize (segment k xs) ≡ segment k xs
take-segment k xs = take_self segsize (segment k xs) (length-segment-le k xs)
