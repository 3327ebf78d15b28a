-- ===== src/Tftp/Buffers/Encode.antt =====
-- `read_ahead` and `readit` deliver the wire form of the file, cut into segments.
use netkit.Base.{
  ℕ, zero, suc, ◌≡◌, refl, Bool, false, not, none, some, List, [], ◌∷◌, take, drop, length, arith,
  if◌then◌else◌, Option-cases, ◌⊎◌, inl, inr,
}
use netkit.Tftp.Buffers.{
  free, size, Bf, Subs, Input, Reader, lf, nul, segsize, get_bf, set_counter, is_free, getc,
  is_char, next_char, fill, reader, read_ahead, readit, r_init,
}
use netkit.Tftp.Buffers.Netascii.{encode, wire}

-- What the conversion has yet to deliver: the second half of a newline, and the rest of the file.
pending : Reader → List ℕ
unfolding is_char encode
pending r =
    if r.newline
    then (if is_char r.prevchar lf then lf else nul) ∷ encode r.input.rest
    else encode r.input.rest

next_char-none : (r : Reader) → r.input.broken ≡ false → next_char r ≡ none → pending r ≡ []
unfolding next_char pending getc
next_char-none r h e = ground arith

next_char-some :
    (r : Reader) {c : ℕ} {r' : Reader}
    → r.input.broken ≡ false
    → next_char r ≡ some (c, r')
    → (pending r ≡ c ∷ pending r') × (r'.input.broken ≡ false)
unfolding next_char pending getc
next_char-some r h e = ground arith

-- `n` rounds deliver `n` characters of what is pending, or all of them.
fill_lem :
    (n : ℕ) (r : Reader)
    → r.input.broken ≡ false
    → ((fill n r).0 ≡ take n (pending r))
      × (pending (fill n r).1 ≡ drop n (pending r))
      × ((fill n r).1.input.broken ≡ false)
unfolding fill
fill_lem zero r h = (refl, refl, h)
fill_lem (suc n) r h = elim (Option-cases (next_char r)) [
  | inl e ↦ ground (arith, next_char-none r h e)
  | inr ((c, r'), e) ↦ ground (arith, next_char-some r h e, fill_lem n r')
]

-- What reading the file has yet to deliver.
pub to_come : Subs → Input → Bool → List ℕ
unfolding pending
to_come s i convert = if convert then pending (reader s i) else i.rest

-- A buffer filled with a segment.
abbrev pub filled : List ℕ → Bf
filled seg = record { counter = size (length seg); body = seg }

-- `todo` is what the calls of `readit` have yet to deliver. The buffer that is not in use is free
-- and next to be filled, or holds the next segment.
pub record Reading (s : Subs) (i : Input) (convert : Bool) (todo : List ℕ) : Type 0 where
  pub sound : i.broken ≡ false
  pub busy : is_free (get_bf s s.current).counter ≡ false
  pub stage :
      ((s.nextone ≡ not s.current)
        × ((get_bf s s.nextone).counter ≡ free)
        × (to_come s i convert ≡ todo))
      ⊎ ((s.nextone ≡ s.current)
          × (get_bf s (not s.current) ≡ filled (take segsize todo))
          × (to_come s i convert ≡ drop segsize todo))

pub r_init-Reading :
    (s : Subs) (i : Input) (convert : Bool)
    → i.broken ≡ false
    → Reading (r_init s) i convert (wire convert i.rest)
unfolding r_init get_bf to_come wire is_free
r_init-Reading s i convert h = record {
  sound = h;
  busy = refl;
  stage = inl (refl, refl, ground arith);
}

-- A read into a free buffer takes the next segment.
read_ahead-free :
    (s : Subs) (i : Input) (convert : Bool)
    → i.broken ≡ false
    → (get_bf s s.nextone).counter ≡ free
    → let (s', i') = read_ahead s i convert in
      (i'.broken ≡ false)
      × (s'.nextone ≡ not s.nextone)
      × (s'.current ≡ s.current)
      × (get_bf s' (not s.nextone) ≡ get_bf s (not s.nextone))
      × (get_bf s' s.nextone ≡ filled (take segsize (to_come s i convert)))
      × (to_come s' i' convert ≡ drop segsize (to_come s i convert))
unfolding read_ahead to_come
read_ahead-free s i convert h e = ground (arith, fill_lem segsize (reader s i))

-- With the next buffer in use `read_ahead` does nothing.
read_ahead-busy :
    (s : Subs) (i : Input) (convert : Bool)
    → is_free (get_bf s s.nextone).counter ≡ false
    → read_ahead s i convert ≡ (s, i)
unfolding read_ahead
read_ahead-busy s i convert e = ground arith

-- `read_ahead` delivers nothing, keeps what is to come, and leaves the current buffer alone.
pub read_ahead-Reading :
    {s : Subs} {i : Input} {convert : Bool} {todo : List ℕ}
    → Reading s i convert todo
    → let (s', i') = read_ahead s i convert in
      Reading s' i' convert todo × (get_bf s' s'.current ≡ get_bf s s.current)
unfolding get_bf
read_ahead-Reading {s} {i} {convert} r = elim r.stage [
  | inl (a, b, c) ↦ ground (arith, read_ahead-free s i convert r.sound b)
  | inr (a, b, c) ↦ ground (arith, read_ahead-busy s i convert)
]

-- `readit` frees the current buffer and moves to the other one.
switch : Subs → Subs
unfolding set_counter
switch s = record (set_counter s s.current free) { current = not s.current }

-- `readit` returns the next segment, in a buffer of its own size, and goes on behind it.
pub readit_lem :
    {s : Subs} {i : Input} {convert : Bool} {todo : List ℕ}
    → Reading s i convert todo
    → let (b, s', i') = readit s i convert in
      (b ≡ filled (take segsize todo))
      × (get_bf s' s'.current ≡ filled (take segsize todo))
      × Reading s' i' convert (drop segsize todo)
unfolding readit get_bf switch to_come
readit_lem {s} {i} {convert} r = elim r.stage [
  | inl (a, b, c) ↦ ground (arith, read_ahead-free (switch s) i convert r.sound)
  | inr (a, b, c) ↦ ground arith
]
