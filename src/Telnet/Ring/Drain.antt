-- ===== src/Telnet/Ring/Drain.antt =====
-- The rings of the client's output: what `flush` gives to the sink.
use native.Mathlib.Nat.{mod-eq_of_lt, add-mod_left}
use netkit.Base.{
  ℕ, zero, suc, ◌+◌, ◌-◌, ◌%◌, ◌≤◌, ◌<◌, ◌≡◌, ap, ap₂, sym, ◌∙◌, true, none, some, ◌∷◌, ◌++◌, ◌==◌,
  ◌⊎◌, inl, inr, arith, Bool-cases,
}
use netkit.Telnet.Ring.{Ring, advance, is_marked, chunk, consistent, drained, slice}
use netkit.Telnet.Ring.Cells.{cells, Behind}
use netkit.Telnet.Ring.Queue.{IsRing, contents}

-- The mark, where there is one, is at a byte of the ring or behind the last one.
abbrev pub IsMarked : Ring → Type 0
IsMarked r =
    (r.marked ≡ none)
    ⊎ ((m : ℕ) × (k : ℕ) × (r.marked ≡ some m) × Behind r.size r.tail k m × (k ≤ r.count))

-- A ring of output that has not overflowed.
pub record IsOutput (r : Ring) : Type 0 where
  pub valid : IsRing r
  pub mark : IsMarked r
  pub spare : r.count < r.size

pub chunk-bounds :
    (r : Ring)
    → IsOutput r
    → 0 < r.count
    → (0 < chunk r) × (chunk r ≤ r.count) × (r.tail + chunk r ≤ r.size)
unfolding chunk
chunk-bounds r v h = ground (arith, v, h)

drained-IsMarked :
    (n : ℕ) (r : Ring) → IsOutput r → 0 < r.count → n ≤ chunk r → IsMarked (drained n r)
unfolding drained advance is_marked chunk
drained-IsMarked n r v h l = elim v.mark [
  | inl e ↦ inl (ground (arith, e))
  | inr (m, k, e, b, le) ↦ elim (Bool-cases (r.tail == m)) [
    | inl y ↦ inl (ground (arith, e, y))
    | inr y ↦ inr (
      m,
      k - n,
      ground (arith, e, y),
      ground (arith, b, le, e, y, l),
      ground (arith, b, le, e, y, l),
    )
  ]
]

pub drained-IsOutput :
    (n : ℕ) (r : Ring) → IsOutput r → 0 < r.count → n ≤ chunk r → IsOutput (drained n r)
unfolding drained advance is_marked chunk
drained-IsOutput n r v h l = record {
  valid = ground (arith, v, h, l);
  mark = drained-IsMarked n r v h l;
  spare = ground (arith, v);
}

advance-zero : (size i : ℕ) → i < size → advance size i 0 ≡ i
unfolding advance
advance-zero size i h = ground (arith, h)

advance-one : (size i : ℕ) → suc i < size → advance size i 1 ≡ suc i
unfolding advance
advance-one size i h = ground (arith, h)

advance-suc : (size i n : ℕ) → advance size (suc i) n ≡ advance size i (suc n)
unfolding advance
advance-suc size i n = ground arith

cells-slice :
    (buf : ℕ → ℕ) (size i n m : ℕ)
    → i < size
    → i + n ≤ size
    → cells buf size i (n + m) ≡ slice buf i n ++ cells buf size (advance size i n) m
unfolding cells slice
cells-slice buf size i zero m h l =
    let n : 0 + m ≡ m = omega arith in ap₂ (cells buf size) (sym (advance-zero size i h)) n
cells-slice buf size i (suc zero) m h l =
    let n : 1 + m ≡ suc m = omega arith in ap (cells buf size i) n
cells-slice buf size i (suc (suc n)) m h l =
    let next : suc i < size = omega (arith, l) in
    let s : suc (suc n) + m ≡ suc (suc n + m) = omega arith in
    let one = advance-one size i next in
    let far = advance-suc size i (suc n) in
    let rest = cells-slice buf size (suc i) (suc n) m next (omega (arith, l)) in
    ap (cells buf size i) s
    ∙ ap (λ x. buf i ∷ cells buf size x (suc n + m)) one
    ∙ ap (λ x. buf i ∷ x) rest
    ∙ ap (λ x. buf i ∷ (slice buf (suc i) (suc n) ++ cells buf size x m)) far

-- What is drained was at the front of the queue.
pub drained-contents :
    (n : ℕ) (r : Ring)
    → IsOutput r
    → 0 < r.count
    → n ≤ chunk r
    → contents r ≡ slice r.buf r.tail n ++ contents (drained n r)
unfolding contents drained
drained-contents n r v h l =
    let (a, b, c) = chunk-bounds r v h in
    let (x, y, z, w) = v.valid in
    let e : r.count ≡ n + (r.count - n) = omega (arith, l, b) in
    ap (cells r.buf r.size r.tail) e
    ∙ cells-slice r.buf r.size r.tail n (r.count - n) x (omega (arith, l, c))

pub consistent-IsOutput : (r : Ring) → IsOutput r → consistent r ≡ true
unfolding consistent
consistent-IsOutput r v =
    let small = mod-eq_of_lt v.spare in
    let e : (r.size + r.head - r.tail) % r.size ≡ r.count = elim v.valid.3 [
      | inl x ↦
          let y : r.size + r.head - r.tail ≡ r.size + r.count = omega (arith, x) in
          ap (λ x. x % r.size) y ∙ add-mod_left r.size r.count ∙ small
      | inr x ↦
          let y : r.size + r.head - r.tail ≡ r.count = omega (arith, x) in
          ap (λ x. x % r.size) y ∙ small
    ] in
    ground (arith, e)
