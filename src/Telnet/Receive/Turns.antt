-- ===== src/Telnet/Receive/Turns.antt =====
-- The turns of `telrcv` on the bytes of a pty.
use netkit.Base.{
  ℕ, ◌+◌, ◌≤◌, ◌<◌, ◌≡◌, refl, sym, ap, ◌∙◌, ◌⊎◌, Bool, true, false, not, List, [], ◌∷◌, ◌++◌,
  length, ◌==◌, ◌&&◌, arith, rev_onto, Bool-cases, inl, inr,
}
use netkit.Telnetd.Receive.{
  iac, cr, lf, Ts, ts_data, ts_iac, ts_cr, ts_will, ts_wont, ts_do, ts_dont, ts_sb, ts_se,
}
use netkit.Telnet.Receive.{Client, Local, on_byte, has_room}
use netkit.Telnet.Receive.Wire.{
  escaped, wire, IsPlace, Shows, here, next_of, telrcv-one, telrcv-two, on_byte-plain, on_byte-iac,
  on_byte-iac-iac, on_byte-cr, on_byte-cr-nul, on_byte-cr-lf, on_byte-nul, on_byte-lf, After,
}

-- Behind a carriage return stands a line feed of the bytes' own, or NUL.
pub behind-cases :
    (binary : Bool) (bs : List ℕ)
    → ((cs : List ℕ) × (bs ≡ lf ∷ cs)
        × (escaped binary true bs ≡ lf ∷ escaped binary false cs)
        × (escaped binary false bs ≡ lf ∷ escaped binary false cs))
      ⊎ (escaped binary true bs ≡ 0 ∷ escaped binary false bs)
unfolding escaped
behind-cases binary [] = inr refl
behind-cases binary (c ∷ cs) = elim (Bool-cases (c == lf)) [
  | inl y ↦
      let e : c ≡ lf = ground arith in
      inl (cs, ap (λ x. x ∷ cs) e, ground (arith, e), ground (arith, e))
  | inr n ↦ inr (ground (arith, n))
]

-- The first byte, as it is sent.
pub first-cases :
    (binary : Bool) (x : ℕ) (bs : List ℕ)
    → ((x ≡ iac) × (escaped binary false (x ∷ bs) ≡ iac ∷ iac ∷ escaped binary false bs))
      ⊎ ((x ≡ cr)
          × (binary ≡ false)
          × (escaped binary false (x ∷ bs) ≡ cr ∷ escaped binary true bs))
      ⊎ (((x == iac) ≡ false)
          × ((x == cr && not binary) ≡ false)
          × (escaped binary false (x ∷ bs) ≡ x ∷ escaped binary false bs))
unfolding escaped
first-cases binary x bs = ground arith

tail_of : List ℕ → List ℕ
tail_of [] = []
tail_of (c ∷ cs) = cs

cons_injective : {c d : ℕ} {cs ds : List ℕ} → (c ∷ cs ≡ d ∷ ds) → (c ≡ d) × (cs ≡ ds)
unfolding tail_of
cons_injective {c} {d} {cs} {ds} e = (ground (arith, e), ap tail_of e)

module _ (loc : Local) (binary : Bool) (t : Client) (k : Shows loc binary t) where
  -- The first turns of the loop, as far as they belong together.
  abbrev pub Turn : Ts → ℕ → List ℕ → List ℕ → List ℕ → List ℕ → Type 0
  Turn s c ps v bs out =
      (a : After loc binary t k s (c ∷ ps) v bs out) × (length a.took ≤ length ps)

  room : (s : Ts) (out : List ℕ) → length out + 2 < loc.ttysize → has_room loc (here t s out) ≡ true
  unfolding has_room
  room s out h = ground arith

  turn_iac :
      (c : ℕ) (ps v bs out : List ℕ)
      → length out + 2 < loc.ttysize
      → c ∷ (ps ++ v) ≡ iac ∷ iac ∷ escaped binary false bs
      → Turn ts_data c ps v (iac ∷ bs) out
  unfolding wire
  turn_iac c ps v bs out h e =
      let (x, y) = cons_injective e in
      let r =
        telrcv-one loc binary t k ts_data ts_iac iac ps out out (room ts_data out h)
          (on_byte-iac loc binary t k (next_of ps) out) in
      (
        record {
          state = ts_iac;
          shown = out;
          left = iac ∷ bs;
          took = ps;
          runs = rw x r;
          rest = y;
          place = (bs, refl);
          same = refl;
          size = ground arith;
        },
        ground arith,
      )

  -- A byte is shown, and the bytes behind it are to come in the state `s'`.
  turn_shows :
      (s s' : Ts) (c x : ℕ) (ps v bs out : List ℕ)
      → length out + 2 < loc.ttysize
      → c ≡ x
      → on_byte loc s x (next_of ps) (here t s out) ≡ (here t s' (x ∷ out), false)
      → ps ++ v ≡ wire binary s' bs
      → IsPlace binary s' bs
      → Turn s c ps v (x ∷ bs) out
  unfolding rev_onto
  turn_shows s s' c x ps v bs out h e b w p =
      let r = telrcv-one loc binary t k s s' x ps out (x ∷ out) (room s out h) b in
      (
        record {
          state = s';
          shown = x ∷ out;
          left = bs;
          took = ps;
          runs = rw e r;
          rest = w;
          place = p;
          same = refl;
          size = ground arith;
        },
        ground arith,
      )

  turn_nul :
      (c : ℕ) (ps v bs out : List ℕ)
      → length out + 2 < loc.ttysize
      → c ∷ (ps ++ v) ≡ 0 ∷ escaped binary false bs
      → Turn ts_cr c ps v bs out
  unfolding wire
  turn_nul c ps v bs out h e =
      let (x, y) = cons_injective e in
      let r =
        telrcv-one loc binary t k ts_cr ts_data 0 ps out out (room ts_cr out h)
          (on_byte-nul loc binary t k (next_of ps) out) in
      (
        record {
          state = ts_data;
          shown = out;
          left = bs;
          took = ps;
          runs = rw x r;
          rest = y;
          place = _;
          same = refl;
          size = ground arith;
        },
        ground arith,
      )

  turn_cr_nul :
      (c d : ℕ) (ps v bs out : List ℕ)
      → length out + 2 < loc.ttysize
      → binary ≡ false
      → c ≡ cr
      → d ∷ (ps ++ v) ≡ 0 ∷ escaped binary false bs
      → Turn ts_data c (d ∷ ps) v (cr ∷ bs) out
  unfolding wire rev_onto
  turn_cr_nul c d ps v bs out h off x e =
      let (y, z) = cons_injective e in
      let r =
        telrcv-two loc binary t k ts_data ts_data cr 0 ps out (cr ∷ out) (room ts_data out h)
          (on_byte-cr-nul loc binary t k out (ground arith) off) in
      (
        record {
          state = ts_data;
          shown = cr ∷ out;
          left = bs;
          took = ps;
          runs = rw (x, y) r;
          rest = z;
          place = _;
          same = refl;
          size = ground arith;
        },
        ground arith,
      )

  -- A carriage return, as the piece ends or goes on.
  turn_cr :
      (c : ℕ) (ps v bs out : List ℕ)
      → length out + 2 < loc.ttysize
      → binary ≡ false
      → c ∷ (ps ++ v) ≡ cr ∷ escaped binary true bs
      → Turn ts_data c ps v (cr ∷ bs) out
  unfolding wire
  turn_cr c [] v bs out h off e =
      let (x, y) = cons_injective e in
      turn_shows ts_data ts_cr c cr [] v bs out h x
        (on_byte-cr loc binary t k out (ground arith) off) y off
  turn_cr c (d ∷ ps) v bs out h off e =
      let (x, y) = cons_injective e in
      elim (behind-cases binary bs) [
        | inl (cs, here_lf, w, w') ↦
            let d_lf = (cons_injective (y ∙ w)).0 in
            turn_shows ts_data ts_data c cr (d ∷ ps) v bs out h x
              (rw d_lf (on_byte-cr-lf loc binary t k out (ground arith) off)) (y ∙ w ∙ sym w') _
        | inr w ↦ turn_cr_nul c d ps v bs out h off x (y ∙ w)
      ]

  pub turn :
      (s : Ts) (c : ℕ) (ps v bs out : List ℕ)
      → length out + 2 < loc.ttysize
      → c ∷ (ps ++ v) ≡ wire binary s bs
      → IsPlace binary s bs
      → Turn s c ps v bs out
  unfolding wire
  turn ts_data c ps v [] out h e p = absurd (ground (arith, e))
  turn ts_data c ps v (x ∷ bs) out h e p = elim (first-cases binary x bs) [
    | inl (i, w) ↦ rw i (turn_iac c ps v bs out h (e ∙ w))
    | inr (inl (r, off, w)) ↦ rw r (turn_cr c ps v bs out h off (e ∙ w))
    | inr (inr (i, r, w)) ↦
        let (y, z) = cons_injective (e ∙ w) in
        turn_shows ts_data ts_data c x ps v bs out h y
          (on_byte-plain loc binary t k x (next_of ps) out (ground arith) i r) z _
  ]
  turn ts_cr c ps v bs out h e p = elim (behind-cases binary bs) [
    | inl (cs, here_lf, w, w') ↦
        let (y, z) = cons_injective (e ∙ w) in
        rw here_lf (
          turn_shows ts_cr ts_data c lf ps v cs out h y
            (on_byte-lf loc binary t k (next_of ps) out (ground arith)) z _)
    | inr w ↦ turn_nul c ps v bs out h (e ∙ w)
  ]
  turn ts_iac c ps v bs out h e (cs, q) =
      let (y, z) = cons_injective (e ∙ ap (wire binary ts_iac) q) in
      rw q (
        turn_shows ts_iac ts_data c iac ps v cs out h y
          (on_byte-iac-iac loc binary t k (next_of ps) out (ground arith)) z _)
  turn ts_will c ps v bs out h e p = absurd p
  turn ts_wont c ps v bs out h e p = absurd p
  turn ts_do c ps v bs out h e p = absurd p
  turn ts_dont c ps v bs out h e p = absurd p
  turn ts_sb c ps v bs out h e p = absurd p
  turn ts_se c ps v bs out h e p = absurd p
