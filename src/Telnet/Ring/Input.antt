-- ===== src/Telnet/Ring/Input.antt =====
-- The rings of the client's input: what `read_source` puts in comes out in order.
use mathlib.Core.Path.{subst}
use netkit.Base.{
  All, ℕ, suc, ◌+◌, ◌-◌, ◌<◌, ◌≡◌, refl, sym, ◌∙◌, Bool, Option, none, some, List, [], ◌∷◌, ◌++◌,
  append-nil, length, take, drop, ◌==◌, if◌then◌else◌, ◌⊎◌, inl, inr, arith, Bool-cases,
  Option-cases, ◌≢◌,
}
use netkit.Telnet.Ring.{Ring, init, getch, ungetch, gets, read_room, read_source}
use netkit.Telnet.Ring.Cells.{cells}
use netkit.Telnet.Ring.Queue.{contents, length-contents, getch-cases, gets_loop-contents}
use netkit.Telnet.Ring.Source.{
  IsInput, IsSource, Reads, copied-Reads, read_source-empty, read_source-copied,
}

-- What a client does with a ring of input: `peek` is `getch` with `ungetch` behind it.
pub data Op : Type 0 where
  op_getch op_peek : Op
  op_gets : ℕ → Op
  op_read : (ℕ → Option (List ℕ)) → Op

-- The bytes that it gets, and the ring.
bytes_of : Option (ℕ × Bool) → List ℕ
bytes_of none = []
bytes_of (some (c, b)) = c ∷ []

given : Option (List ℕ) → List ℕ
given none = []
given (some cs) = cs

gets_read : Ring → (ℕ → Option (List ℕ)) → List ℕ
unfolding given
gets_read r read = if read_room r == 0 then [] else given (read (read_room r))

put_back : Option (ℕ × Bool) × Ring → List ℕ × Ring
put_back (none, r) = ([], r)
put_back (some (c, b), r) = (c ∷ [], ungetch r)

run : Op → Ring → List ℕ × Ring
unfolding bytes_of gets_read put_back
run op_getch r = let (c, r') = getch r in (bytes_of c, r')
run op_peek r = put_back (getch r)
run (op_gets n) r = gets (suc n) r
run (op_read read) r = (gets_read r read, (read_source read r).1)

-- The same on a queue. How much is asked of the source depends on where in the buffer the queue
-- stands, but it is asked unless a ring of this size is full up to one byte.
OnQueue : ℕ → Op → List ℕ → List ℕ → List ℕ → Type 0
unfolding given
OnQueue size op_getch q out q' = (out ≡ take 1 q) × (q' ≡ drop 1 q)
OnQueue size op_peek q out q' = (out ≡ take 1 q) × (q' ≡ q)
OnQueue size (op_gets n) q out q' = (out ≡ take n q) × (q' ≡ drop (suc n) q)
OnQueue size (op_read read) q out q' =
    (q' ≡ q ++ out)
    × ((length q + 1 ≡ size) × (out ≡ []) ⊎ ((n : ℕ) × (0 < n) × (out ≡ given (read n))))

-- A source gives no more than it is asked for.
unfoldable pub Keeps : Op → Type 0
Keeps (op_read read) = IsSource read
Keeps _ = Unit

read_room-zero : (r : Ring) → IsInput r → read_room r ≡ 0 → r.count + 1 ≡ r.size
unfolding read_room
read_room-zero r v e = ground (arith, v, e)

read_source-OnQueue :
    (read : ℕ → Option (List ℕ)) (r : Ring)
    → IsSource read
    → IsInput r
    → IsInput (read_source read r).1
      × OnQueue r.size
          (op_read read)
          (contents r)
          (gets_read r read)
          (contents (read_source read r).1)
unfolding OnQueue gets_read given Reads
read_source-OnQueue read r k v = elim (Bool-cases (read_room r == 0)) [
  | inl y ↦
      let z : read_room r ≡ 0 = ground arith in
      let full = read_room-zero r v z in
      simp (read_source-empty read r (inl z), y, length-contents r)
        (v, (sym (append-nil (contents r)), inl (full, refl)))
  | inr y ↦
      let nz : read_room r ≢ 0 = λ z. absurd (ground (arith, y, z)) in
      let some_room : 0 < read_room r = ground (arith, y) in
      elim (Option-cases (read (read_room r))) [
        | inl e ↦
            simp (read_source-empty read r (inr e), y, e)
              (v, (sym (append-nil (contents r)), inr (read_room r, some_room, simp e refl)))
        | inr (cs, e) ↦
            let (w, same) = copied-Reads r cs v (k (read_room r) cs e) in
            simp (read_source-copied read r cs nz e, y, e)
              (w, (same, inr (read_room r, some_room, simp e refl)))
      ]
]

getch-OnQueue :
    (r : Ring)
    → IsInput r
    → IsInput (run op_getch r).1
      × OnQueue r.size op_getch (contents r) (run op_getch r).0 (contents (run op_getch r).1)
unfolding run OnQueue bytes_of
getch-OnQueue r v = elim (getch-cases r v.valid) [
  | inl (z, e, g) ↦ simp (g, e) (v, (refl, refl))
  | inr p ↦
      simp (p.runs, p.queue)
        (
          record { valid = p.valid; spare = rw p.same_size (omega (arith, p.less, v.spare)) },
          (refl, refl),
        )
]

peek-OnQueue :
    (r : Ring)
    → IsInput r
    → IsInput (run op_peek r).1
      × OnQueue r.size op_peek (contents r) (run op_peek r).0 (contents (run op_peek r).1)
unfolding run OnQueue put_back ungetch
peek-OnQueue r v = elim (getch-cases r v.valid) [
  | inl (z, e, g) ↦ simp (g, e) (v, (refl, refl))
  | inr p ↦
      let spare : p.rest.count + 1 < p.rest.size = rw (p.less, p.same_size) v.spare in
      simp (p.runs, p.back, p.queue) (record { valid = p.back_valid; spare = spare }, (refl, refl))
]

gets-OnQueue :
    (n : ℕ) (r : Ring)
    → IsInput r
    → IsInput (run (op_gets n) r).1
      × OnQueue r.size
          (op_gets n)
          (contents r)
          (run (op_gets n) r).0
          (contents (run (op_gets n) r).1)
unfolding run OnQueue gets
gets-OnQueue n r v =
    let (w, line, rest, same, less) = gets_loop-contents n r v.valid in
    let one : suc n - 1 ≡ n = omega arith in
    rw one (record { valid = w; spare = rw same (omega (arith, less, v.spare)) }, (line, rest))

run-OnQueue :
    (op : Op) (r : Ring)
    → Keeps op
    → IsInput r
    → IsInput (run op r).1 × OnQueue r.size op (contents r) (run op r).0 (contents (run op r).1)
unfolding run Keeps
run-OnQueue op_getch r k v = getch-OnQueue r v
run-OnQueue op_peek r k v = peek-OnQueue r v
run-OnQueue (op_gets n) r k v = gets-OnQueue n r v
run-OnQueue (op_read read) r k v = read_source-OnQueue read r k v

-- A sequence of operations, and what each gives.
pub run_all : List Op → Ring → List (List ℕ) × Ring
unfolding run
run_all [] r = ([], r)
run_all (op ∷ ops) r =
    let (out, r') = run op r in let (outs, end) = run_all ops r' in (out ∷ outs, end)

pub AllOnQueue : ℕ → List Op → List ℕ → List (List ℕ) → List ℕ → Type 0
unfolding OnQueue
AllOnQueue size [] q outs end = (outs ≡ []) × (end ≡ q)
AllOnQueue size (op ∷ ops) q [] end = ⊥
AllOnQueue size (op ∷ ops) q (out ∷ outs) end =
    (q' : List ℕ) × OnQueue size op q out q' × AllOnQueue size ops q' outs end

getch-size : (r : Ring) → (getch r).1.size ≡ r.size
unfolding getch
getch-size r = ground arith

put_back-size : (p : Option (ℕ × Bool) × Ring) → (put_back p).1.size ≡ p.1.size
unfolding put_back ungetch
put_back-size (none, r) = refl
put_back-size (some (c, b), r) = refl

read_source-size : (read : ℕ → Option (List ℕ)) (r : Ring) → (read_source read r).1.size ≡ r.size
unfolding read_source
read_source-size read r = ground arith

run-size : (op : Op) (r : Ring) → IsInput r → (run op r).1.size ≡ r.size
unfolding run gets
run-size op_getch r v = getch-size r
run-size op_peek r v = put_back-size (getch r) ∙ getch-size r
run-size (op_gets n) r v =
    let one : suc n - 1 ≡ n = omega arith in rw one (gets_loop-contents n r v.valid).3
run-size (op_read read) r v = read_source-size read r

run_all-AllOnQueue :
    (ops : List Op) (r : Ring)
    → All Keeps ops
    → IsInput r
    → AllOnQueue r.size ops (contents r) (run_all ops r).0 (contents (run_all ops r).1)
unfolding run_all AllOnQueue
run_all-AllOnQueue [] r k v = (refl, refl)
run_all-AllOnQueue (op ∷ ops) r (k, ks) v =
    let (v', e) = run-OnQueue op r k v in
    let rest = run_all-AllOnQueue ops (run op r).1 ks v' in
    (
      contents (run op r).1,
      e,
      subst
          (λ n.
            AllOnQueue n ops (contents (run op r).1) (run_all ops (run op r).1).0
              (contents (run_all ops (run op r).1).1))
          (run-size op r v) rest,
    )

init-IsInput : (memory : ℕ → ℕ) (sz : ℕ) → 0 < sz → IsInput (init memory sz)
unfolding init
init-IsInput memory sz h = ground (arith, h)

-- A ring of input that starts empty gives what a queue gives, in any sequence of operations: bytes
-- come out in the order in which the source gave them and none is lost, but the one that `gets`
-- takes off a queue longer than its buffer; the source is asked whenever the ring has room for a
-- byte and one to spare.
pub init-AllOnQueue :
    (ops : List Op) (memory : ℕ → ℕ) (sz : ℕ)
    → All Keeps ops
    → 0 < sz
    → AllOnQueue sz ops []
        (run_all ops (init memory sz)).0
        (contents (run_all ops (init memory sz)).1)
unfolding contents cells init
init-AllOnQueue ops memory sz k h =
    run_all-AllOnQueue ops (init memory sz) k (init-IsInput memory sz h)
