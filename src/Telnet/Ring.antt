-- ===== src/Telnet/Ring.antt =====
-- `ringbuf` of netkit-telnet/telnet/ring.cc and ring.h: the client's buffers.
pub mod Cells
pub mod Queue
pub mod Source
pub mod Input
pub mod Drain
pub mod Output
pub mod Overflow
pub mod Stream
use netkit.Base.{
  ℕ, zero, suc, ◌+◌, ◌-◌, ◌%◌, ◌||◌, Bool, true, false, not, Option, none, some, List, [], ◌∷◌,
  ◌++◌, length, take, ◌==◌, ltb, leb, if◌then◌else◌, ◌⊎◌,
}

-- `marked` is none for -1. The sink and the source are arguments of what calls them.
pub record Ring : Type 0 where
  pub buf : ℕ → ℕ
  pub size : ℕ
  pub head : ℕ
  pub tail : ℕ
  pub count : ℕ
  pub marked : Option ℕ

-- `init`, with what the new memory holds.
unfoldable pub init : (ℕ → ℕ) → ℕ → Ring
init memory sz = record { buf = memory; size = sz; head = 0; tail = 0; count = 0; marked = none }

unfoldable pub empty_count : Ring → ℕ
empty_count r = r.size - r.count

unfoldable pub set_mark : Ring → Ring
set_mark r = record r { marked = some r.head }

-- An index moved on by `n`, at most once around.
unfoldable pub advance : ℕ → ℕ → ℕ → ℕ
advance size i n = if leb size (i + n) then i + n - size else i + n

unfoldable pub is_marked : Ring → Bool
is_marked r = elim r.marked [ none ↦ false | some m ↦ r.tail == m ]

-- `getch`: the byte, if there is one, and whether it was the marked one.
unfoldable pub getch : Ring → Option (ℕ × Bool) × Ring
unfolding advance is_marked
getch r = if r.count == 0 then (none, r) else (
  some (r.buf r.tail, is_marked r),
  record r {
    tail = advance r.size r.tail 1;
    count = r.count - 1;
    marked = if is_marked r then none else r.marked;
  },
)

-- `ungetch` steps back; the byte is the one that stands there still.
unfoldable pub ungetch : Ring → Ring
ungetch r = record r { tail = if r.tail == 0 then r.size - 1 else r.tail - 1; count = r.count + 1 }

-- The loop of `gets`, with room for `n` more bytes. A byte is taken off before the room is looked at.
unfoldable pub gets_loop : ℕ → Ring → List ℕ × Ring
gets_loop zero r = ([], (getch r).1)
gets_loop (suc n) r =
    let (c, r') = getch r in
    let (cs, end) = gets_loop n r' in elim c [ none ↦ ([], r') | some x ↦ (x.0 ∷ cs, end) ]

unfoldable pub gets : ℕ → Ring → List ℕ × Ring
gets max r = gets_loop (max - 1) r

-- The body of the loop of `write`.
unfoldable pub put : ℕ → Ring → Ring
unfolding advance
put c r = record r {
  buf = λ i. if i == r.head then c else r.buf i;
  head = advance r.size r.head 1;
  count = r.count + 1;
}

unfoldable pub write_loop : List ℕ → Ring → Ring
unfolding put
write_loop [] r = r
write_loop (c ∷ cs) r = write_loop cs (put c r)

-- `write`; what does not fit is lost, with a message.
unfoldable pub write : List ℕ → Ring → Ring
unfolding write_loop
write cs r = write_loop (take (r.size - r.count) cs) r

-- What `read_source` asks for: up to the end of the buffer, or to the byte before the tail.
unfoldable pub read_room : Ring → ℕ
read_room r =
    let top = if r.tail == 0 then r.size - 1 else r.tail - 1 in
    (if ltb top r.head then r.size else top) - r.head

-- What the source puts at the head.
unfoldable pub copy : (ℕ → ℕ) → ℕ → List ℕ → ℕ → ℕ
copy buf at [] = buf
copy buf at (c ∷ cs) = copy (λ i. if i == at then c else buf i) (suc at) cs

-- `read_source`, where the source gives at most as many bytes as it is asked for, or fails: what it
-- returns, none below 0, and the ring.
unfoldable pub read_source : (ℕ → Option (List ℕ)) → Ring → Option ℕ × Ring
unfolding read_room copy advance
read_source read r = if read_room r == 0 then (some 0, r) else elim (read (read_room r)) [
  | none ↦ (none, r)
  | some cs ↦ (
    if length cs == 0 then none else some (length cs),
    record r {
      buf = copy r.buf r.head cs;
      head = advance r.size r.head (length cs);
      count = r.count + length cs;
    },
  )
]

-- What `flush` returns: -2, -1, 0, 1, and for a part that is written the number of its bytes and one.
pub data Flushed : Type 0 where
  failed blocked nothing all_out : Flushed
  part_out : ℕ → Flushed

-- What `flush` has done: its result, none where an assertion fails; the writes, each with its bytes
-- and whether it was urgent, the last one first; and the ring.
pub record Flush : Type 0 where
  pub result : Option Flushed
  pub written : List (Bool × List ℕ)
  pub ring : Ring

-- The number of bytes that are written at once: to the head or to the end of the buffer, but to the
-- mark where it stands behind the tail.
unfoldable pub chunk : Ring → ℕ
chunk r =
    let top = if ltb r.head r.tail then r.size else r.head in
    (elim r.marked [ none ↦ top | some m ↦ if ltb r.tail m then m else top ]) - r.tail

-- `((size+head-tail)%size)==count`
unfoldable pub consistent : Ring → Bool
consistent r = (r.size + r.head - r.tail) % r.size == r.count

unfoldable pub drained : ℕ → Ring → Ring
unfolding advance is_marked
drained n r = record r {
  tail = advance r.size r.tail n;
  count = r.count - n;
  marked = if is_marked r then none else r.marked;
}

-- `buf[i..i+n)`
unfoldable pub slice : (ℕ → ℕ) → ℕ → ℕ → List ℕ
slice buf i zero = []
slice buf i (suc n) = buf i ∷ slice buf (suc i) n

-- The loop of `flush`, on fuel. `sink i n` is what the sink answers to its `i`-th write, of `n`
-- bytes: none below 0, or the number that it took.
unfoldable pub flush_loop : ℕ → (ℕ → ℕ → Option ℕ) → ℕ → List (Bool × List ℕ) → Ring → Flush
unfolding chunk consistent drained slice is_marked
flush_loop zero sink i written r = record { result = none; written = written; ring = r }
flush_loop (suc fuel) sink i written r =
    let ends : Option Flushed → List (Bool × List ℕ) → Ring → Flush =
      λ code w r'. record { result = code; written = w; ring = r' } in
    let len = chunk r in
    let wrote : ℕ → List (Bool × List ℕ) = λ n. (is_marked r, slice r.buf r.tail n) ∷ written in
    if r.count == 0
    then ends (if consistent r then some all_out else none) written r
    else if len == 0 || ltb r.count len
    then ends none written r
    else elim (sink i len) [
      | none ↦ ends (some failed) written r
      | some n ↦
          if n == 0
          then ends (some blocked) written r
          else if not (consistent (drained n r))
          then ends none (wrote n) (drained n r)
          else if ltb n len
          then ends (some (part_out (n + 1))) (wrote n) (drained n r)
          else flush_loop fuel sink (suc i) (wrote n) (drained n r)
    ]

-- `flush`; a write of the loop takes a byte at least, so there are no more of them than bytes.
unfoldable pub flush : Bool → (ℕ → ℕ → Option ℕ) → Ring → Flush
flush busy sink r =
    if r.count == 0
    then record { result = some nothing; written = []; ring = r }
    else if busy
    then record { result = some blocked; written = []; ring = r }
    else if not ((r.tail + r.count + r.size - r.head) % r.size == 0)
    then record { result = none; written = []; ring = r }
    else flush_loop (suc r.count) sink 0 [] r
