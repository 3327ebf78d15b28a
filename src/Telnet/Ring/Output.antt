-- ===== src/Telnet/Ring/Output.antt =====
-- The rings of the client's output: `write` puts bytes in, and `flush` gives them to the sink.
use native.Mathlib.Nat.{add-mod_left, mod_self}
use netkit.Base.{
  ℕ, zero, suc, ◌+◌, ◌-◌, ◌%◌, ◌≤◌, ◌<◌, ◌≡◌, refl, ap, sym, ◌∙◌, Bool, true, false, Option, none,
  some, List, [], ◌∷◌, ◌++◌, append_assoc, ◌==◌, ◌||◌, ltb, if◌then◌else◌, inl, inr, arith,
  Bool-cases, Option-cases,
}
use netkit.Telnet.Ring.{
  Ring, is_marked, chunk, consistent, drained, slice, Flushed, failed, blocked, nothing, all_out,
  part_out, Flush, flush_loop, flush,
}
use netkit.Telnet.Ring.Cells.{cells}
use netkit.Telnet.Ring.Queue.{IsRing, contents}
use netkit.Telnet.Ring.Drain.{
  IsOutput, chunk-bounds, drained-IsOutput, drained-contents, consistent-IsOutput,
}

-- The bytes that were written, the first one first.
unfoldable pub sent : List (Bool × List ℕ) → List ℕ
sent [] = []
sent ((urgent, cs) ∷ w) = sent w ++ cs

unfoldable pub Emptied : Flushed → List ℕ → Type 0
Emptied all_out cs = cs ≡ []
Emptied nothing cs = cs ≡ []
Emptied _ cs = Unit

-- Whatever `flush` returns, no assertion fails; what was written and what the ring still holds is
-- what was there, in order.
pub record Drains (w : List (Bool × List ℕ)) (r : Ring) (f : Flush) : Type 0 where
  pub code : Flushed
  pub ends : f.result ≡ some code
  pub order : sent f.written ++ contents f.ring ≡ sent w ++ contents r
  pub valid : IsOutput f.ring
  pub emptied : Emptied code (contents f.ring)

-- The sink takes no more than it is given.
abbrev pub IsSink : (ℕ → ℕ → Option ℕ) → Type 0
IsSink sink = (i len n : ℕ) → sink i len ≡ some n → n ≤ len

module _ (sink : ℕ → ℕ → Option ℕ) (i : ℕ) (w : List (Bool × List ℕ)) (r : Ring) where
  stopped : Option Flushed → Flush
  stopped code = record { result = code; written = w; ring = r }

  -- The writes when `n` bytes more were taken.
  wrote : ℕ → List (Bool × List ℕ)
  wrote n = (is_marked r, slice r.buf r.tail n) ∷ w

  turn-empty :
      (fuel : ℕ)
      → r.count ≡ 0
      → consistent r ≡ true
      → flush_loop (suc fuel) sink i w r ≡ stopped (some all_out)
  unfolding flush_loop stopped
  turn-empty fuel z c = ground (arith, z, c)

  turn-failed :
      (fuel : ℕ)
      → 0 < r.count
      → 0 < chunk r
      → chunk r ≤ r.count
      → sink i (chunk r) ≡ none
      → flush_loop (suc fuel) sink i w r ≡ stopped (some failed)
  unfolding flush_loop stopped
  turn-failed fuel h a b e =
      let nz : r.count == 0 ≡ false = ground arith in
      let len : (chunk r == 0 || ltb r.count (chunk r)) ≡ false = ground arith in
      rw (nz, len, e) refl

  turn-blocked :
      (fuel : ℕ)
      → 0 < r.count
      → 0 < chunk r
      → chunk r ≤ r.count
      → sink i (chunk r) ≡ some 0
      → flush_loop (suc fuel) sink i w r ≡ stopped (some blocked)
  unfolding flush_loop stopped
  turn-blocked fuel h a b e =
      let nz : r.count == 0 ≡ false = ground arith in
      let len : (chunk r == 0 || ltb r.count (chunk r)) ≡ false = ground arith in
      rw (nz, len, e) refl

  turn-wrote :
      (fuel n : ℕ)
      → 0 < r.count
      → 0 < chunk r
      → chunk r ≤ r.count
      → sink i (chunk r) ≡ some (suc n)
      → consistent (drained (suc n) r) ≡ true
      → flush_loop (suc fuel) sink i w r ≡ (
          if ltb (suc n) (chunk r)
          then record {
            result = some (part_out (suc n + 1));
            written = wrote (suc n);
            ring = drained (suc n) r;
          }
          else flush_loop fuel sink (suc i) (wrote (suc n)) (drained (suc n) r))
  unfolding flush_loop wrote
  turn-wrote fuel n h a b e c =
      let nz : r.count == 0 ≡ false = ground arith in
      let len : (chunk r == 0 || ltb r.count (chunk r)) ≡ false = ground arith in
      let some_out : suc n == 0 ≡ false = ground arith in rw (nz, len, e, some_out, c) refl

  -- What is there before the next turn.
  wrote-order :
      (n : ℕ)
      → IsOutput r
      → 0 < r.count
      → n ≤ chunk r
      → sent (wrote n) ++ contents (drained n r) ≡ sent w ++ contents r
  unfolding sent wrote
  wrote-order n v h l =
      append_assoc (sent w) (slice r.buf r.tail n) (contents (drained n r))
      ∙ ap (λ x. sent w ++ x) (sym (drained-contents n r v h l))

contents-empty : (r : Ring) → r.count ≡ 0 → contents r ≡ []
unfolding contents cells
contents-empty r z = ap (cells r.buf r.size r.tail) z

drained-less :
    (n : ℕ) (r : Ring) {fuel : ℕ}
    → r.count < suc fuel
    → 0 < r.count
    → (drained (suc n) r).count < fuel
unfolding drained
drained-less n r l h = omega (arith, l, h)

Drains-either :
    (w : List (Bool × List ℕ)) (r : Ring) (b : Bool) {f g : Flush}
    → Drains w r f
    → Drains w r g
    → Drains w r (if b then f else g)
Drains-either w r true x y = x
Drains-either w r false x y = y

flush_loop-Drains :
    (sink : ℕ → ℕ → Option ℕ)
    → IsSink sink
    → (fuel i : ℕ) (w : List (Bool × List ℕ)) (r : Ring) → IsOutput r
    → r.count < fuel
    → Drains w r (flush_loop fuel sink i w r)
unfolding Emptied stopped
flush_loop-Drains sink k zero i w r v l = absurd (ground (arith, l))
flush_loop-Drains sink k (suc fuel) i w r v l = elim (Bool-cases (r.count == 0)) [
  | inl y ↦
      let z : r.count ≡ 0 = ground (arith, y) in
      rw (turn-empty sink i w r fuel z (consistent-IsOutput r v)) (record {
        code = all_out;
        ends = refl;
        order = refl;
        valid = v;
        emptied = contents-empty r z;
      })
  | inr y ↦
      let h : 0 < r.count = ground (arith, y) in
      let (a, b, c) = chunk-bounds r v h in
      elim (Option-cases (sink i (chunk r))) [
        | inl e ↦
            rw (turn-failed sink i w r fuel h a b e)
              (record { code = failed; ends = refl; order = refl; valid = v; emptied = tt })
        | inr (zero, e) ↦
            rw (turn-blocked sink i w r fuel h a b e)
              (record { code = blocked; ends = refl; order = refl; valid = v; emptied = tt })
        | inr (suc n, e) ↦
            let le = k i (chunk r) (suc n) e in
            let u = drained-IsOutput (suc n) r v h le in
            let o = wrote-order sink i w r (suc n) v h le in
            let d =
              flush_loop-Drains sink k fuel (suc i) (wrote sink i w r (suc n)) (drained (suc n) r) u
                (drained-less n r l h) in
            rw (turn-wrote sink i w r fuel n h a b e (consistent-IsOutput _ u)) (
              Drains-either w r (ltb (suc n) (chunk r))
                (record {
                  code = part_out (suc n + 1);
                  ends = refl;
                  order = o;
                  valid = u;
                  emptied = tt;
                })
                (record {
                  code = d.code;
                  ends = d.ends;
                  order = d.order ∙ o;
                  valid = d.valid;
                  emptied = d.emptied;
                }))
      ]
]

pub flush-asserts :
    (r : Ring) → IsRing r → ((r.tail + r.count + r.size - r.head) % r.size == 0) ≡ true
flush-asserts r v =
    let self = mod_self r.size in
    let twice = add-mod_left r.size r.size in
    let e : (r.tail + r.count + r.size - r.head) % r.size ≡ 0 = elim v.3 [
      | inl x ↦
          let y : r.tail + r.count + r.size - r.head ≡ r.size = omega (arith, x) in
          ap (λ x. x % r.size) y ∙ self
      | inr x ↦
          let y : r.tail + r.count + r.size - r.head ≡ r.size + r.size = omega (arith, x) in
          ap (λ x. x % r.size) y ∙ twice ∙ self
    ] in
    ground (arith, e)

-- `flush` of a ring that has not overflowed ends with no assertion failed, whatever the sink takes:
-- what was written and what the ring still holds are what the ring held, in order, the ring is well
-- formed, and it is empty where the result says so.
pub flush-Drains :
    (busy : Bool) (sink : ℕ → ℕ → Option ℕ) (r : Ring)
    → IsSink sink
    → IsOutput r
    → Drains [] r (flush busy sink r)
unfolding flush Emptied sent
flush-Drains busy sink r k v = elim (Bool-cases (r.count == 0)) [
  | inl y ↦
      let z : r.count ≡ 0 = ground (arith, y) in
      rw y (record {
        code = nothing;
        ends = refl;
        order = refl;
        valid = v;
        emptied = contents-empty r z;
      })
  | inr y ↦
      rw (y, flush-asserts r v.valid)
        (Drains-either [] r busy
          (record { code = blocked; ends = refl; order = refl; valid = v; emptied = tt })
          (flush_loop-Drains sink k (suc r.count) 0 [] r v (omega arith)))
]
