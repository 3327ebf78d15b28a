-- ===== src/Telnet/Ring/Overflow.antt =====
-- A ring of output that was given too much.
use netkit.Base.{
  take, min, length-take, ℕ, ◌+◌, ◌-◌, ◌≤◌, ◌<◌, ◌≡◌, refl, ◌∙◌, false, Option, none, List, [], ◌∷◌,
  ◌++◌, length, ◌==◌, arith,
}
use netkit.Telnet.Ring.{Ring, chunk, flush_loop, flush, put, write_loop, write}
use netkit.Telnet.Ring.Queue.{IsRing, contents, write_loop-contents}
use netkit.Telnet.Ring.Output.{flush-asserts}

-- `write` puts as much behind the queue as fits.
pub write-contents :
    (cs : List ℕ) (r : Ring)
    → IsRing r
    → IsRing (write cs r)
      × (contents (write cs r) ≡ contents r ++ take (r.size - r.count) cs)
      × ((write cs r).size ≡ r.size)
      × ((write cs r).count ≡ min r.size (r.count + length cs))
unfolding write
write-contents cs r v =
    let fits = length-take (r.size - r.count) cs in
    let (x, y, z, w) = v in
    let (a, b, c, d) =
      write_loop-contents (take (r.size - r.count) cs) r v (ground (arith, fits, z)) in
    (a, b, c, ground (arith, d, fits, z))

pub write_loop-marked : (cs : List ℕ) (r : Ring) → (write_loop cs r).marked ≡ r.marked
unfolding write_loop put
write_loop-marked [] r = refl
write_loop-marked (c ∷ cs) r = write_loop-marked cs (put c r)

chunk-full : (r : Ring) → IsRing r → r.marked ≡ none → r.count ≡ r.size → chunk r ≡ 0
unfolding chunk
chunk-full r v m full = ground (arith, v, m, full)

flush-full :
    (sink : ℕ → ℕ → Option ℕ) (r : Ring)
    → IsRing r
    → 0 < r.size
    → r.marked ≡ none
    → r.count ≡ r.size
    → (flush false sink r).result ≡ none
unfolding flush flush_loop
flush-full sink r v h m full =
    let nz : r.count == 0 ≡ false = ground arith in
    let asserts = flush-asserts r v in
    let empty = chunk-full r v m full in rw (nz, asserts, empty) refl

-- Once `write` was given as much as there is room for, or more, an assertion of `flush` fails at the
-- next call, whatever the sink takes, where no byte is marked: the head is the tail again, and there
-- seems to be nothing to be written.
pub flush-write_full :
    (sink : ℕ → ℕ → Option ℕ) (cs : List ℕ) (r : Ring)
    → IsRing r
    → 0 < r.size
    → r.marked ≡ none
    → r.size ≤ r.count + length cs
    → (flush false sink (write cs r)).result ≡ none
unfolding write
flush-write_full sink cs r v h m over =
    let (a, b, c, d) = write-contents cs r v in
    let marked = write_loop-marked (take (r.size - r.count) cs) r in
    flush-full sink (write cs r) a (rw c h) (marked ∙ m) (ground (arith, c, d, over))
