-- ===== src/Telnet/Ring/Queue.antt =====
-- A ring is a queue.
use netkit.Base.{
  ℕ, zero, suc, ◌+◌, ◌-◌, ◌≤◌, ◌<◌, ◌≡◌, refl, ap, ap₂, sym, ◌∙◌, Bool, none, some, List, [], ◌∷◌,
  ◌++◌, append-nil, append_assoc, length, take, drop, if◌then◌else◌, ◌⊎◌, inl, inr, arith,
}
use netkit.Telnet.Ring.{Ring, advance, is_marked, getch, ungetch, gets_loop, put, write_loop}
use netkit.Telnet.Ring.Cells.{cells, Behind, cells-append, cells-set, length-cells}

abbrev pub IsRing : Ring → Type 0
IsRing r = Behind r.size r.tail r.count r.head

unfoldable pub contents : Ring → List ℕ
unfolding cells
contents r = cells r.buf r.size r.tail r.count

pub length-contents : (r : Ring) → length (contents r) ≡ r.count
unfolding contents
length-contents r = length-cells r.buf r.size r.tail r.count

zero_or_suc : (n : ℕ) → (n ≡ 0) ⊎ ((m : ℕ) × (n ≡ suc m))
zero_or_suc zero = inl refl
zero_or_suc (suc m) = inr (m, refl)

-- What `getch` takes off, the ring it leaves, and the one that `ungetch` restores.
pub record Pops (r : Ring) : Type 0 where
  pub byte : ℕ
  pub mark : Bool
  pub rest : Ring
  pub runs : getch r ≡ (some (byte, mark), rest)
  pub queue : contents r ≡ byte ∷ contents rest
  pub valid : IsRing rest
  pub same_size : rest.size ≡ r.size
  pub less : rest.count + 1 ≡ r.count
  pub back : contents (ungetch rest) ≡ contents r
  pub back_valid : IsRing (ungetch rest)

popped : Ring → Ring
unfolding advance is_marked
popped r = record r {
  tail = advance r.size r.tail 1;
  count = r.count - 1;
  marked = if is_marked r then none else r.marked;
}

getch-popped :
    (r : Ring) (m : ℕ) → r.count ≡ suc m → getch r ≡ (some (r.buf r.tail, is_marked r), popped r)
unfolding getch popped
getch-popped r m e = ground (arith, e)

popped-queue :
    (r : Ring) (m : ℕ) → r.count ≡ suc m → contents r ≡ r.buf r.tail ∷ contents (popped r)
unfolding contents popped cells
popped-queue r m e =
    let e' : m ≡ r.count - 1 = omega (arith, e) in
    ap (cells r.buf r.size r.tail) e
    ∙ ap (λ n. r.buf r.tail ∷ cells r.buf r.size (advance r.size r.tail 1) n) e'

popped-back :
    (r : Ring) (m : ℕ) → IsRing r → r.count ≡ suc m → contents (ungetch (popped r)) ≡ contents r
unfolding contents popped ungetch advance
popped-back r m v e =
    let t : (ungetch (popped r)).tail ≡ r.tail = ground (arith, v, e) in
    let n : r.count - 1 + 1 ≡ r.count = omega (arith, e) in ap₂ (cells r.buf r.size) t n

pub getch-Pops : (r : Ring) (m : ℕ) → IsRing r → r.count ≡ suc m → Pops r
unfolding popped ungetch advance
getch-Pops r m v e = record {
  byte = r.buf r.tail;
  mark = is_marked r;
  rest = popped r;
  runs = getch-popped r m e;
  queue = popped-queue r m e;
  valid = ground (arith, v, e);
  same_size = refl;
  less = omega (arith, e);
  back = popped-back r m v e;
  back_valid = ground (arith, v, e);
}

pub getch-cases :
    (r : Ring) → IsRing r → ((r.count ≡ 0) × (contents r ≡ []) × (getch r ≡ (none, r))) ⊎ Pops r
unfolding getch contents cells
getch-cases r v = elim (zero_or_suc r.count) [
  | inl e ↦ inl (e, ap (cells r.buf r.size r.tail) e, ground (arith, e))
  | inr (m, e) ↦ inr (getch-Pops r m v e)
]

pub put-contents :
    (c : ℕ) (r : Ring)
    → IsRing r
    → r.count < r.size
    → IsRing (put c r) × (contents (put c r) ≡ contents r ++ (c ∷ []))
unfolding put contents advance
put-contents c r v room =
    let w : IsRing (put c r) = ground (arith, v, room) in
    let a = cells-append (put c r).buf r.size r.tail r.count r.head room v in
    let b = cells-set r.buf c r.size r.tail r.count r.head room v in
    let same : (put c r).buf r.head ≡ c = ground arith in
    let n : r.count + 1 ≡ suc r.count = omega arith in
    (w, ap (cells (put c r).buf r.size r.tail) n ∙ a ∙ ap₂ (λ x y. x ++ (y ∷ [])) b same)

pub write_loop-contents :
    (cs : List ℕ) (r : Ring)
    → IsRing r
    → r.count + length cs ≤ r.size
    → IsRing (write_loop cs r)
      × (contents (write_loop cs r) ≡ contents r ++ cs)
      × ((write_loop cs r).size ≡ r.size)
      × ((write_loop cs r).count ≡ r.count + length cs)
unfolding write_loop put
write_loop-contents [] r v room = (v, sym (append-nil (contents r)), refl, omega arith)
write_loop-contents (c ∷ cs) r v room =
    let (v', e) = put-contents c r v (omega (arith, room)) in
    let (w, f, s, n) = write_loop-contents cs (put c r) v' (omega (arith, room)) in
    (w, f ∙ ap (λ x. x ++ cs) e ∙ append_assoc (contents r) (c ∷ []) cs, s, ground (arith, n))

gets_loop-none : (n : ℕ) (r : Ring) → getch r ≡ (none, r) → gets_loop (suc n) r ≡ ([], r)
unfolding gets_loop
gets_loop-none n r e = rw (e, gets_loop) (ap (λ g. ([], g.1)) e)

gets_loop-some :
    (n c : ℕ) (b : Bool) (r r' : Ring)
    → getch r ≡ (some (c, b), r')
    → gets_loop (suc n) r ≡ (c ∷ (gets_loop n r').0, (gets_loop n r').1)
unfolding gets_loop
gets_loop-some n c b r r' e =
    rw (e, gets_loop) (ap (λ g. (c ∷ (gets_loop n g.1).0, (gets_loop n g.1).1)) e)

-- The loop of `gets`.
pub gets_loop-contents :
    (n : ℕ) (r : Ring)
    → IsRing r
    → IsRing (gets_loop n r).1
      × ((gets_loop n r).0 ≡ take n (contents r))
      × (contents (gets_loop n r).1 ≡ drop (suc n) (contents r))
      × ((gets_loop n r).1.size ≡ r.size)
      × ((gets_loop n r).1.count ≤ r.count)
unfolding gets_loop
gets_loop-contents zero r v = elim (getch-cases r v) [
  | inl (z, e, g) ↦ simp (g, e) (v, refl, refl, refl, omega arith)
  | inr p ↦ simp (p.runs, p.queue) (p.valid, refl, refl, p.same_size, omega (arith, p.less))
]
gets_loop-contents (suc n) r v = elim (getch-cases r v) [
  | inl (z, e, g) ↦ simp (gets_loop-none n r g, e) (v, refl, refl, refl, omega arith)
  | inr p ↦
      let (w, a, b, s, l) = gets_loop-contents n p.rest p.valid in
      simp (gets_loop-some n p.byte p.mark r p.rest p.runs, p.queue)
        (w, ap (λ x. p.byte ∷ x) a, b, s ∙ p.same_size, omega (arith, l, p.less))
]
