-- ===== src/Telnetd/Receive/Bounds.antt =====
-- The buffers of `telrcv` do not overflow.
use netkit.Base.{
  ℕ, ◌+◌, ◌≤◌, ◌≡◌, Bool, true, false, List, [], ◌∷◌, length, ◌==◌, ◌||◌, ltb, arith, Bool-cases,
  inl, inr, if◌then◌else◌,
}
use netkit.Telnetd.Receive.{
  Telnetd, System, Ts, ts_data, ts_iac, ts_cr, ts_sb, ts_se, ts_will, ts_wont, ts_do, ts_dont,
  command, got_iac, accum, end_suboption, on_data, on_byte, telrcv, with_ts, flush, iac, se_command,
}

pub record Fits (sys : System) (t : Telnetd) : Type 0 where
  pub pty : length t.ptyobuf ≤ sys.bufsiz
  pub sub : length t.subbuffer ≤ 511

-- The suboption buffer fits, and the other one has grown by one byte at most.
record Grown (sys : System) (t u : Telnetd) : Type 0 where
  by_one : length u.ptyobuf ≤ length t.ptyobuf + 1
  sub : length t.subbuffer ≤ 511 → length u.subbuffer ≤ 511

module _ (sys : System) where
  flush-le :
      (t : Telnetd)
      → (length (flush sys t).ptyobuf ≤ length t.ptyobuf) × ((flush sys t).subbuffer ≡ t.subbuffer)
  unfolding flush
  flush-le t = ground arith

  command-Grown : (c : ℕ) (t : Telnetd) → Grown sys t (command sys c t)
  unfolding command
  command-Grown c t = let (f, g) = flush-le t in ground (arith, f, g)

  got_iac-Grown : (c : ℕ) (t : Telnetd) → Grown sys t (got_iac sys c t)
  unfolding got_iac
  got_iac-Grown c t = let g = command-Grown c t in ground (arith, g)

  end_suboption-Grown : (c : ℕ) (t : Telnetd) → Grown sys t (end_suboption c t)
  unfolding end_suboption
  end_suboption-Grown c t = ground arith

  on_data-Grown : (c : ℕ) (t : Telnetd) → Grown sys t (on_data c t)
  unfolding on_data
  on_data-Grown c t = ground arith

  Grown-of_end : (c : ℕ) (t u : Telnetd) → Grown sys (end_suboption c t) u → Grown sys t u
  unfolding end_suboption
  Grown-of_end c t u g = record { by_one = g.by_one; sub = λ h. g.sub (omega arith) }

  Grown-if :
      {t u v : Telnetd} (b : Bool)
      → Grown sys t u
      → Grown sys t v
      → Grown sys t (if b then u else v)
  Grown-if true g h = g
  Grown-if false g h = h

  accum-Grown :
      (c : ℕ) (t : Telnetd)
      → Grown sys t (with_ts ts_sb (record t { subbuffer = accum c t.subbuffer }))
  unfolding accum with_ts
  accum-Grown c t = ground arith

  on_byte-Grown : (c : ℕ) (s : Ts) (t : Telnetd) → Grown sys t (on_byte sys c s t)
  unfolding on_byte with_ts
  on_byte-Grown c ts_data t = on_data-Grown c t
  on_byte-Grown c ts_cr t = let g = on_data-Grown c t in ground (arith, g)
  on_byte-Grown c ts_iac t = got_iac-Grown c t
  on_byte-Grown c ts_sb t = let g = accum-Grown c t in let a = g.sub in ground (arith, a)
  on_byte-Grown c ts_se t =
      let g =
        Grown-of_end c t (got_iac sys c (end_suboption c t))
          (got_iac-Grown c (end_suboption c t)) in
      let h = end_suboption-Grown se_command t in
      Grown-if (c == se_command) (record { by_one = h.by_one; sub = h.sub })
        (Grown-if (c == iac) (accum-Grown c t) g)
  on_byte-Grown c ts_will t = ground arith
  on_byte-Grown c ts_wont t = ground arith
  on_byte-Grown c ts_do t = ground arith
  on_byte-Grown c ts_dont t = ground arith

  Grown-Fits :
      (t u : Telnetd) → Fits sys t → length t.ptyobuf + 2 ≤ sys.bufsiz → Grown sys t u → Fits sys u
  Grown-Fits t u f room g = record { pty = omega (arith, g.by_one); sub = g.sub f.sub }

  -- Whatever comes in, neither the pty's output buffer nor the suboption buffer overflows.
  pub telrcv-Fits : (cs : List ℕ) (t : Telnetd) → Fits sys t → Fits sys (telrcv sys cs t).0
  unfolding telrcv
  telrcv-Fits [] t f = f
  telrcv-Fits (c ∷ cs) t f = elim (Bool-cases (t.gone || ltb sys.bufsiz (length t.ptyobuf + 2))) [
    | inl e ↦ rw e f
    | inr e ↦ rw e (
        telrcv-Fits cs (on_byte sys c t.ts t)
          (Grown-Fits t (on_byte sys c t.ts t) f (ground (arith, e)) (on_byte-Grown c t.ts t)))
  ]
