-- ===== src/Telnet/Ring/Source.antt =====
-- What `read_source` puts in a ring.
use netkit.Base.{
  ℕ, suc, ◌+◌, ◌≤◌, ◌<◌, ◌≡◌, refl, ap, ap₂, sym, ◌∙◌, Option, none, some, List, [], ◌∷◌, ◌++◌,
  length, ◌==◌, if◌then◌else◌, ◌⊎◌, inl, inr, arith, ◌≢◌,
}
use netkit.Telnet.Ring.{Ring, advance, put, write_loop, read_room, copy, read_source}
use netkit.Telnet.Ring.Queue.{IsRing, contents, write_loop-contents}

-- A ring that `read_source` fills: a byte is free, for `ungetch`.
pub record IsInput (r : Ring) : Type 0 where
  pub valid : IsRing r
  pub spare : r.count < r.size

-- There is room up to the end of the buffer, and a byte to spare.
pub read_room-bound :
    (r : Ring) → IsInput r → (r.head + read_room r ≤ r.size) × (r.count + read_room r < r.size)
unfolding read_room
read_room-bound r v = ground (arith, v)

-- The bytes that the source puts at the head stand as if they were written one by one.
unfoldable pub copied : List ℕ → Ring → Ring
unfolding copy advance
copied cs r = record r {
  buf = copy r.buf r.head cs;
  head = advance r.size r.head (length cs);
  count = r.count + length cs;
}

advance-one : (size i : ℕ) → suc i < size → advance size i 1 ≡ suc i
unfolding advance
advance-one size i h = ground (arith, h)

advance-suc : (size i n : ℕ) → advance size (suc i) n ≡ advance size i (suc n)
unfolding advance
advance-suc size i n = ground arith

copied-cons :
    (c : ℕ) (cs : List ℕ) (r : Ring) → suc r.head < r.size → copied (c ∷ cs) r ≡ copied cs (put c r)
unfolding copied copy put
copied-cons c cs r h =
    let next = advance-one r.size r.head h in
    let far = advance-suc r.size r.head (length cs) in
    let n : r.count + suc (length cs) ≡ r.count + 1 + length cs = omega arith in
    let buf : ℕ → ℕ = λ i. if i == r.head then c else r.buf i in
    let at_head : ℕ → Ring = λ x. record r {
      buf = copy buf (suc r.head) cs;
      head = x;
      count = r.count + suc (length cs);
    } in
    let moved : ℕ → ℕ → Ring =
      λ h n. record r { buf = copy buf h cs; head = advance r.size h (length cs); count = n } in
    ap at_head (sym far) ∙ ap₂ moved (sym next) n

copied-last : (c : ℕ) (r : Ring) → copied (c ∷ []) r ≡ put c r
unfolding copied copy put
copied-last c r = refl

copied-write_loop :
    (cs : List ℕ) (r : Ring)
    → r.head < r.size
    → r.head + length cs ≤ r.size
    → copied cs r ≡ write_loop cs r
unfolding copied copy write_loop put advance
copied-write_loop [] r h l = ground (arith, h, l)
copied-write_loop (c ∷ []) r h l = copied-last c r
copied-write_loop (c ∷ d ∷ cs) r h l =
    let small : suc r.head < r.size = ground (arith, l) in
    copied-cons c (d ∷ cs) r small
    ∙ copied-write_loop (d ∷ cs) (put c r) (ground (arith, advance-one r.size r.head small, small))
        (ground (arith, advance-one r.size r.head small, l))

-- What is asked of the source's `read`: it gives no more than there is room for.
abbrev pub IsSource : (ℕ → Option (List ℕ)) → Type 0
IsSource read = (n : ℕ) (cs : List ℕ) → read n ≡ some cs → length cs ≤ n

-- What `read_source` gets stands behind what the ring held.
unfoldable pub Reads : Ring → Ring → List ℕ → Type 0
Reads r r' cs = IsInput r' × (contents r' ≡ contents r ++ cs)

pub read_source-empty :
    (read : ℕ → Option (List ℕ)) (r : Ring)
    → (read_room r ≡ 0) ⊎ (read (read_room r) ≡ none)
    → (read_source read r).1 ≡ r
unfolding read_source
read_source-empty read r (inl e) = ground (arith, e)
read_source-empty read r (inr e) = ground (arith, e)

pub read_source-copied :
    (read : ℕ → Option (List ℕ)) (r : Ring) (cs : List ℕ)
    → (read_room r ≢ 0)
    → read (read_room r) ≡ some cs
    → (read_source read r).1 ≡ copied cs r
unfolding read_source copied
read_source-copied read r cs n e = ground (arith, n, e)

pub copied-Reads :
    (r : Ring) (cs : List ℕ) → IsInput r → length cs ≤ read_room r → Reads r (copied cs r) cs
unfolding Reads
copied-Reads r cs v l =
    let (a, b) = read_room-bound r v in
    let (x, y, z, w) = v.valid in
    let e = copied-write_loop cs r y (omega (arith, a, l)) in
    let (valid, same, size, count) = write_loop-contents cs r v.valid (omega (arith, b, l)) in
    rw e (record { valid = valid; spare = rw (size, count) (omega (arith, b, l)) }, same)
