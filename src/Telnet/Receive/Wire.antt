-- ===== src/Telnet/Receive/Wire.antt =====
-- The bytes of a pty as the server puts them on the network, and what `telrcv` makes of a piece of
-- them.
use netkit.Base.{
  ℕ, ◌+◌, ◌≤◌, ◌<◌, ◌≡◌, refl, Bool, true, false, not, Option, none, some, List, [], ◌∷◌, ◌++◌,
  length, ◌==◌, ◌&&◌, if◌then◌else◌, arith, rev_onto,
}
use netkit.Telnetd.Options.{telopt_binary, telopt_echo}
use netkit.Telnetd.Receive.{iac, cr, lf, Ts, ts_data, ts_iac, ts_cr}
use netkit.Telnet.Receive.{
  Client, Local, ttyadd, got_iac, on_data, on_byte, has_room, telrcv, with_state, add_cr,
}

-- The bytes as they are sent, with BINARY on or off; `behind` says that a carriage return has just
-- been sent, which a line feed or NUL follows.
unfoldable pub escaped : Bool → Bool → List ℕ → List ℕ
escaped binary true [] = 0 ∷ []
escaped binary false [] = []
escaped binary behind (c ∷ cs) =
    let plain = escaped binary false cs in
    let marked = escaped binary true cs in
    let body : List ℕ =
      if c == iac then c ∷ c ∷ plain else if c == cr && not binary then c ∷ marked else c ∷ plain in
    if behind && c == lf then c ∷ plain else if behind then 0 ∷ body else body

-- What is still to come in a state of `telrcv`.
unfoldable pub wire : Bool → Ts → List ℕ → List ℕ
unfolding escaped
wire binary ts_cr bs = escaped binary true bs
wire binary ts_iac [] = []
wire binary ts_iac (c ∷ cs) = c ∷ escaped binary false cs
wire binary _ bs = escaped binary false bs

-- The states between two bytes of data.
abbrev pub IsPlace : Bool → Ts → List ℕ → Type 0
IsPlace binary ts_data bs = Unit
IsPlace binary ts_cr bs = binary ≡ false
IsPlace binary ts_iac bs = (cs : List ℕ) × (bs ≡ iac ∷ cs)
IsPlace binary _ bs = ⊥

-- The client shows what it gets: BINARY is on or off, the server echoes, and nothing is dropped.
pub record Shows (loc : Local) (binary : Bool) (t : Client) : Type 0 where
  pub binary_on : (t.opts telopt_binary).his_want_state ≡ binary
  pub echo_on : (t.opts telopt_echo).his_want_state ≡ true
  pub heard : (t.synching ≡ false) × (t.flushout ≡ false)
  pub plain : loc.crmod ≡ false

abbrev pub here : Client → Ts → List ℕ → Client
here t s out = record t { telrcv_state = s; ttyoring = out }

abbrev pub next_of : List ℕ → Option ℕ
next_of [] = none
next_of (c ∷ cs) = some c

module _ (loc : Local) (binary : Bool) (t : Client) (k : Shows loc binary t) where
  -- One turn of the loop, and one that takes two bytes.
  pub telrcv-one :
      (s s' : Ts) (c : ℕ) (cs out out' : List ℕ)
      → has_room loc (here t s out) ≡ true
      → on_byte loc s c (next_of cs) (here t s out) ≡ (here t s' out', false)
      → telrcv loc (c ∷ cs) (here t s out) ≡ telrcv loc cs (here t s' out')
  unfolding telrcv
  telrcv-one s s' c [] out out' r e = rw (r, e) refl
  telrcv-one s s' c (d ∷ cs) out out' r e = rw (r, e) refl

  pub telrcv-two :
      (s s' : Ts) (c d : ℕ) (cs out out' : List ℕ)
      → has_room loc (here t s out) ≡ true
      → on_byte loc s c (some d) (here t s out) ≡ (here t s' out', true)
      → telrcv loc (c ∷ d ∷ cs) (here t s out) ≡ telrcv loc cs (here t s' out')
  unfolding telrcv
  telrcv-two s s' c d cs out out' r e = rw (r, e) refl

  add :
      (s : Ts) (c : ℕ) (out : List ℕ)
      → length out < loc.ttysize
      → ttyadd loc c (here t s out) ≡ here t s (c ∷ out)
  unfolding ttyadd
  add s c out h = let (x, y) = k.heard in ground (arith, x, y, h)

  -- What the loop's body does with each kind of byte.
  pub on_byte-plain :
      (c : ℕ) (next : Option ℕ) (out : List ℕ)
      → length out < loc.ttysize
      → (c == iac) ≡ false
      → (c == cr && not binary) ≡ false
      → on_byte loc ts_data c next (here t ts_data out) ≡ (here t ts_data (c ∷ out), false)
  unfolding on_byte on_data with_state
  on_byte-plain c next out h i e =
      let a = add ts_data c out h in let b = k.binary_on in ground (arith, a, b, i, e)

  pub on_byte-iac :
      (next : Option ℕ) (out : List ℕ)
      → on_byte loc ts_data iac next (here t ts_data out) ≡ (here t ts_iac out, false)
  unfolding on_byte on_data with_state
  on_byte-iac next out = refl

  pub on_byte-iac-iac :
      (next : Option ℕ) (out : List ℕ)
      → length out < loc.ttysize
      → on_byte loc ts_iac iac next (here t ts_iac out) ≡ (here t ts_data (iac ∷ out), false)
  unfolding on_byte got_iac with_state
  on_byte-iac-iac next out h = let a = add ts_iac iac out h in ground (arith, a)

  pub on_byte-cr :
      (out : List ℕ)
      → length out < loc.ttysize
      → binary ≡ false
      → on_byte loc ts_data cr none (here t ts_data out) ≡ (here t ts_cr (cr ∷ out), false)
  unfolding on_byte on_data add_cr with_state
  on_byte-cr out h e =
      let a = add ts_data cr out h in
      let b = k.binary_on in let p = k.plain in ground (arith, a, b, e, p)

  pub on_byte-cr-nul :
      (out : List ℕ)
      → length out < loc.ttysize
      → binary ≡ false
      → on_byte loc ts_data cr (some 0) (here t ts_data out) ≡ (here t ts_data (cr ∷ out), true)
  unfolding on_byte on_data with_state
  on_byte-cr-nul out h e =
      let a = add ts_data cr out h in let b = k.binary_on in ground (arith, a, b, e)

  pub on_byte-cr-lf :
      (out : List ℕ)
      → length out < loc.ttysize
      → binary ≡ false
      → on_byte loc ts_data cr (some lf) (here t ts_data out) ≡ (here t ts_data (cr ∷ out), false)
  unfolding on_byte on_data add_cr with_state
  on_byte-cr-lf out h e =
      let a = add ts_data cr out h in
      let b = k.binary_on in let c = k.echo_on in let p = k.plain in ground (arith, a, b, c, e, p)

  pub on_byte-nul :
      (next : Option ℕ) (out : List ℕ)
      → on_byte loc ts_cr 0 next (here t ts_cr out) ≡ (here t ts_data out, false)
  unfolding on_byte with_state
  on_byte-nul next out = refl

  pub on_byte-lf :
      (next : Option ℕ) (out : List ℕ)
      → length out < loc.ttysize
      → on_byte loc ts_cr lf next (here t ts_cr out) ≡ (here t ts_data (lf ∷ out), false)
  unfolding on_byte on_data with_state
  on_byte-lf next out h = let a = add ts_cr lf out h in let c = k.echo_on in ground (arith, a, c)

  -- How far `telrcv` has come with a piece `cs` of the bytes, behind which `v` comes: the state, the
  -- ring, the bytes still to be shown, and what is left of the piece.
  pub record After (s : Ts) (cs v bs out : List ℕ) : Type 0 where
    pub state : Ts
    pub shown : List ℕ
    pub left : List ℕ
    pub took : List ℕ
    pub runs : telrcv loc cs (here t s out) ≡ telrcv loc took (here t state shown)
    pub rest : took ++ v ≡ wire binary state left
    pub place : IsPlace binary state left
    pub same : rev_onto left shown ≡ rev_onto bs out
    pub size : length left + length shown ≤ length bs + length out
