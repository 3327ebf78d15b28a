-- ===== src/Telnet/Receive/Pieces.antt =====
-- The bytes of a pty come to the client's terminal as they are, in whatever pieces they come in.
use netkit.Base.{
  flatten, zero, suc, ℕ, ◌+◌, ◌≤◌, ◌<◌, ◌≡◌, refl, sym, ap, ◌∙◌, Bool, List, [], ◌∷◌, ◌++◌, length,
  arith, rev_onto, inl, inr,
}
use netkit.Telnetd.Receive.{
  Ts, ts_data, ts_iac, ts_cr, ts_will, ts_wont, ts_do, ts_dont, ts_sb, ts_se,
}
use netkit.Telnet.Receive.{Client, Local, telrcv, telrcv_all}
use netkit.Telnet.Receive.Wire.{wire, IsPlace, Shows, here, After}
use netkit.Telnet.Receive.Turns.{behind-cases, first-cases, turn}

module _ (loc : Local) (binary : Bool) (t : Client) (k : Shows loc binary t) where
  -- A piece of the bytes is taken to its end.
  abbrev Piece : Ts → List ℕ → List ℕ → List ℕ → List ℕ → Type 0
  Piece s cs v bs out = (a : After loc binary t k s cs v bs out) × (a.took ≡ [])

  piece :
      (n : ℕ) (s : Ts) (cs v bs out : List ℕ)
      → length cs ≤ n
      → length bs + length out + 2 < loc.ttysize
      → cs ++ v ≡ wire binary s bs
      → IsPlace binary s bs
      → Piece s cs v bs out
  piece n s [] v bs out l h e p = (
    record {
      state = s;
      shown = out;
      left = bs;
      took = [];
      runs = refl;
      rest = e;
      place = p;
      same = refl;
      size = ground arith;
    },
    refl,
  )
  piece zero s (c ∷ cs) v bs out l h e p = absurd (ground (arith, l))
  piece (suc n) s (c ∷ cs) v bs out l h e p =
      let (a, shorter) = turn loc binary t k s c cs v bs out (ground arith) e p in
      let small = a.size in
      let (b, done) =
        piece n a.state a.took v a.left a.shown (ground arith) (ground (arith, small)) a.rest
          a.place in
      let small' = b.size in
      (
        record {
          state = b.state;
          shown = b.shown;
          left = b.left;
          took = b.took;
          runs = a.runs ∙ b.runs;
          rest = b.rest;
          place = b.place;
          same = b.same ∙ a.same;
          size = ground (arith, small, small');
        },
        done,
      )

  -- All of the bytes are taken, once the last piece is in.
  all_taken :
      (s : Ts) (bs : List ℕ)
      → [] ≡ wire binary s bs
      → IsPlace binary s bs
      → (s ≡ ts_data) × (bs ≡ [])
  unfolding wire
  all_taken ts_data [] e p = (refl, refl)
  all_taken ts_data (x ∷ bs) e p = elim (first-cases binary x bs) [
    | inl (i, w) ↦ absurd (ground (arith, e, w))
    | inr (inl (i, r, w)) ↦ absurd (ground (arith, e, w))
    | inr (inr (i, r, w)) ↦ absurd (ground (arith, e, w))
  ]
  all_taken ts_cr bs e p = elim (behind-cases binary bs) [
    | inl (cs, here_lf, w, w') ↦ absurd (ground (arith, e, w))
    | inr w ↦ absurd (ground (arith, e, w))
  ]
  all_taken ts_iac bs e (cs, q) =
      let w = e ∙ ap (wire binary ts_iac) q in absurd (ground (arith, w))
  all_taken ts_will bs e p = absurd p
  all_taken ts_wont bs e p = absurd p
  all_taken ts_do bs e p = absurd p
  all_taken ts_dont bs e p = absurd p
  all_taken ts_sb bs e p = absurd p
  all_taken ts_se bs e p = absurd p

  pub pieces :
      (s : Ts) (css : List (List ℕ)) (bs out : List ℕ)
      → length bs + length out + 2 < loc.ttysize
      → flatten css ≡ wire binary s bs
      → IsPlace binary s bs
      → telrcv_all loc css [] (here t s out) ≡ (here t ts_data (rev_onto bs out), [])
  unfolding telrcv_all telrcv flatten rev_onto
  pieces s [] bs out h e p = let (x, y) = all_taken s bs e p in rw (x, y) refl
  pieces s (cs ∷ css) bs out h e p =
      let (a, done) = piece (length cs) s cs (flatten css) bs out (ground arith) h e p in
      let small = a.size in
      let r : telrcv loc cs (here t s out) ≡ (here t a.state a.shown, []) =
        a.runs ∙ ap (λ x. telrcv loc x (here t a.state a.shown)) done in
      let f =
        pieces a.state css a.left a.shown (ground (arith, small))
          (sym (ap (λ x. x ++ flatten css) done) ∙ a.rest) a.place in
      rw r (f ∙ ap (λ x. (here t ts_data x, [])) a.same)
