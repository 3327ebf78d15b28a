-- ===== src/Telnet/Ring/Cells.antt =====
-- What a ring holds, from its tail on.
use netkit.Base.{
  ℕ, zero, suc, ◌+◌, ◌≤◌, ◌<◌, ◌≡◌, refl, ap, false, List, [], ◌∷◌, ◌++◌, length, ◌==◌,
  if◌then◌else◌, ◌⊎◌, arith,
}
use netkit.Telnet.Ring.{advance}

-- `n` bytes from the index `i` on.
unfoldable pub cells : (ℕ → ℕ) → ℕ → ℕ → ℕ → List ℕ
unfolding advance
cells buf size i zero = []
cells buf size i (suc n) = buf i ∷ cells buf size (advance size i 1) n

-- The index `j` is the one behind `n` bytes from `i` on.
abbrev pub Behind : ℕ → ℕ → ℕ → ℕ → Type 0
Behind size i n j = (i < size) × (j < size) × (n ≤ size) × ((i + n ≡ j) ⊎ (i + n ≡ j + size))

pub cells-append :
    (buf : ℕ → ℕ) (size i n j : ℕ)
    → n < size
    → Behind size i n j
    → cells buf size i (suc n) ≡ cells buf size i n ++ (buf j ∷ [])
unfolding cells advance
cells-append buf size i zero j l b = let e : i ≡ j = ground (arith, b) in ap (λ x. buf x ∷ []) e
cells-append buf size i (suc n) j l b =
    ap (λ x. buf i ∷ x)
      (cells-append buf size (advance size i 1) n j (omega (arith, l)) (ground (arith, b, l)))

-- A change at the index `j` is not seen.
pub cells-set :
    (buf : ℕ → ℕ) (c size i n j : ℕ)
    → n < size
    → Behind size i n j
    → cells (λ x. if x == j then c else buf x) size i n ≡ cells buf size i n
unfolding cells advance
cells-set buf c size i zero j l b = refl
cells-set buf c size i (suc n) j l b =
    let other : i == j ≡ false = ground (arith, b, l) in
    rw other (
      ap (λ x. buf i ∷ x)
        (cells-set buf c size (advance size i 1) n j (omega (arith, l)) (ground (arith, b, l))))

pub length-cells : (buf : ℕ → ℕ) (size i n : ℕ) → length (cells buf size i n) ≡ n
unfolding cells
length-cells buf size i zero = refl
length-cells buf size i (suc n) = ap suc (length-cells buf size (advance size i 1) n)
