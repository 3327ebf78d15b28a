-- ===== src/Tftp/Buffers.antt =====
-- netkit-tftp/tftp/tftpsubs.c: the two packet buffers between a file and the network, with the
-- netascii conversion done while a buffer is filled or flushed.
pub mod Netascii
pub mod Encode
pub mod Decode
pub mod Runt
use netkit.Base.{
  rev_onto, ℕ, zero, suc, Bool, true, false, not, Option, none, some, List, [], ◌∷◌, take, drop,
  length, ◌==◌, ◌||◌, if◌then◌else◌,
}
use netkit.Tftp.Packet.{Short, empty, one_byte, two_bytes, three_bytes}

-- SEGSIZE, shut, so that no proof counts to it.
unfoldable pub segsize : ℕ
segsize = 512

abbrev pub cr : ℕ
cr = 13

abbrev pub lf : ℕ
lf = 10

abbrev pub nul : ℕ
nul = 0

-- `bf.counter`: BF_ALLOC (-3), BF_FREE (-2), -1 for a read that failed, or a byte count. A datagram
-- of fewer than 4 bytes is counted as -1 to -4, the last being `minus_four`.
pub data Counter : Type 0 where
  alloc free failed minus_four : Counter
  size : ℕ → Counter

-- `struct bf`; `body` is what stands from `th_data` on.
pub record Bf : Type 0 where
  pub counter : Counter
  pub body : List ℕ

-- The globals. An index 0 or 1 is `false` or `true`; `prevchar = -1` is `none`.
pub record Subs : Type 0 where
  pub bf0 : Bf
  pub bf1 : Bf
  pub nextone : Bool
  pub current : Bool
  pub newline : Bool
  pub prevchar : Option ℕ

-- A file open for reading: the bytes from its position on, and whether a read fails.
pub record Input : Type 0 where
  pub rest : List ℕ
  pub broken : Bool

pub get_bf : Subs → Bool → Bf
get_bf s i = if i then s.bf1 else s.bf0

put_bf : Subs → Bool → Bf → Subs
put_bf s i b = if i then record s { bf1 = b } else record s { bf0 = b }

pub set_counter : Subs → Bool → Counter → Subs
unfolding get_bf put_bf
set_counter s i c = let b = get_bf s i in put_bf s i (record b { counter = c })

pub is_free : Counter → Bool
is_free free = true
is_free _ = false

-- `rw_init`: `x` is the first `nextone`. The bodies keep what they held.
pub rw_init : Subs → Bool → Subs
rw_init s x = record s {
  newline = false;
  prevchar = none;
  bf0 = record { counter = alloc; body = s.bf0.body };
  bf1 = record { counter = free; body = s.bf1.body };
  current = false;
  nextone = x;
}

unfoldable pub w_init : Subs → Subs
unfolding rw_init
w_init s = rw_init s false

unfoldable pub r_init : Subs → Subs
unfolding rw_init
r_init s = rw_init s true

-- What the conversion loop of `read_ahead` reads and writes: the two flags and the file.
pub record Reader : Type 0 where
  pub newline : Bool
  pub prevchar : Option ℕ
  pub input : Input

-- `getc`: `none` is EOF, at the end of the file or on an error.
getc : Input → Option (ℕ × Input)
getc i = elim i.rest [
  | [] ↦ none
  | c ∷ cs ↦ if i.broken then none else some (c, record i { rest = cs })
]

is_char : Option ℕ → ℕ → Bool
is_char none c = false
is_char (some p) c = p == c

-- One round of the loop of `read_ahead`: the character that it stores, `none` at `break`.
unfoldable pub next_char : Reader → Option (ℕ × Reader)
unfolding getc is_char
next_char r =
    if r.newline
    then some (if is_char r.prevchar lf then lf else nul, record r { newline = false })
    else elim (getc r.input) [
      | none ↦ none
      | some (c, i) ↦ some (
          if c == lf || c == cr
          then (cr, record { newline = true; prevchar = some c; input = i })
          else (c, record r { input = i }))
    ]

-- The loop, with the rounds left.
unfoldable pub fill : ℕ → Reader → List ℕ × Reader
fill zero r = ([], r)
fill (suc n) r = elim (next_char r) [
  | none ↦ ([], r)
  | some (c, r') ↦ let (cs, r'') = fill n r' in (c ∷ cs, r'')
]

abbrev reader : Subs → Input → Reader
reader s i = record { newline = s.newline; prevchar = s.prevchar; input = i }

-- `read_ahead`
unfoldable pub read_ahead : Subs → Input → Bool → Subs × Input
unfolding get_bf put_bf is_free
read_ahead s i convert =
    let b = get_bf s s.nextone in
    let s1 = record s { nextone = not s.nextone } in
    let raw = take segsize i.rest in
    let (cs, r) = fill segsize (reader s i) in
    if not (is_free b.counter)
    then (s, i)
    else if not convert
    then (if i.broken then (put_bf s1 s.nextone (record b { counter = failed }), i) else (
      put_bf s1 s.nextone (record { counter = size (length raw); body = raw }),
      record i { rest = drop segsize i.rest },
    ))
    else (
      put_bf (record s1 { newline = r.newline; prevchar = r.prevchar }) s.nextone
          (record { counter = size (length cs); body = cs }),
      r.input,
    )

-- `readit`: the counter that it returns, and the body that `*dpp` points at.
unfoldable pub readit : Subs → Input → Bool → Bf × Subs × Input
unfolding get_bf set_counter is_free read_ahead
readit s i convert =
    let s1 = set_counter s s.current free in
    let s2 = record s1 { current = not s1.current } in
    let (s3, i') =
      if is_free (get_bf s2 s2.current).counter then read_ahead s2 i convert else (s2, i) in
    (get_bf s3 s3.current, s3, i')

-- A file open for writing: the bytes before its position, the last one first, and those after it.
pub record Output : Type 0 where
  pub before : List ℕ
  pub after : List ℕ

-- The bytes of the file.
unfoldable pub contents : Output → List ℕ
unfolding rev_onto
contents o = rev_onto o.before o.after

-- `putc` overwrites at the position.
putc : ℕ → Output → Output
putc c o = record { before = c ∷ o.before; after = drop 1 o.after }

-- `fseek (file, -1, 1)`, which fails at the start of the file.
seek_back : Output → Output
seek_back o = elim o.before [ [] ↦ o | c ∷ cs ↦ record { before = cs; after = c ∷ o.after } ]

-- `write` of a whole buffer.
pub write_all : List ℕ → Output → Output
unfolding putc
write_all [] o = o
write_all (c ∷ cs) o = write_all cs (putc c o)

-- The body of the loop of `write_behind`, after a character `prev`.
put_char : Option ℕ → ℕ → Output → Output
unfolding is_char putc seek_back
put_char prev c o =
    if is_char prev cr
    then (if c == lf then putc c (seek_back o) else if c == nul then o else putc c o)
    else putc c o

pub write_loop : List ℕ → Option ℕ → Output → Option ℕ × Output
unfolding put_char
write_loop [] prev o = (prev, o)
write_loop (c ∷ cs) prev o = write_loop cs (some c) (put_char prev c o)

-- What `write_behind` returns: 0 for nothing to flush, -1, or the count.
pub data Flushed : Type 0 where
  nothing nak : Flushed
  wrote : ℕ → Flushed

pub flush_count : Counter → Option ℕ
flush_count minus_four = none
flush_count alloc = none
flush_count free = none
flush_count failed = some 0
flush_count (size n) = some n

-- `write_behind`
unfoldable pub write_behind : Subs → Output → Bool → Flushed × Subs × Output
unfolding get_bf set_counter flush_count write_all write_loop
write_behind s o convert =
    let b = get_bf s s.nextone in
    let s1 = record (set_counter s s.nextone free) { nextone = not s.nextone } in
    elim (flush_count b.counter) [
      | none ↦ (nothing, s, o)
      | some count ↦
          let bytes = take count b.body in
          let (prev, o') = write_loop bytes s.prevchar o in
          if count == 0
          then (nak, s1, o)
          else if not convert
          then (wrote count, s1, write_all bytes o)
          else (wrote count, record s1 { prevchar = prev }, o')
    ]

-- `recv` into the buffer that `dp` points at, the current one.
unfoldable pub receive : Subs → List ℕ → Subs
unfolding get_bf put_bf
receive s bytes = put_bf s s.current (record (get_bf s s.current) { body = bytes })

-- The first lines of `writeit`: the current buffer gets its count, and the other one is current.
unfoldable pub hand_over : Subs → Counter → Subs
unfolding set_counter
hand_over s ct = record (set_counter s s.current ct) { current = not s.current }

-- The counter for a datagram of a length below 4: `n - 4`.
unfoldable pub count_of : Short → Counter
count_of empty = minus_four
count_of one_byte = alloc
count_of two_bytes = free
count_of three_bytes = failed

-- `writeit`, with the count `ct` for the current buffer; it returns `ct`, whatever that is.
unfoldable pub writeit : Subs → Output → Counter → Bool → Subs × Output
unfolding get_bf set_counter is_free
writeit s o ct convert =
    let s2 = hand_over s ct in
    let (_, s3, o') =
      if is_free (get_bf s2 s2.current).counter
      then (nothing, s2, o)
      else write_behind s2 o convert in
    (set_counter s3 s3.current alloc, o')
