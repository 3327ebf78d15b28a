-- ===== src/Telnetd/Receive/Transparent.antt =====
-- Data that the peer sends comes to the pty as it is.
use netkit.Base.{
  rev_onto, ℕ, ◌+◌, ◌≤◌, ◌≡◌, ap, sym, ◌∙◌, refl, true, false, List, [], ◌∷◌, length, ◌==◌, ◌||◌,
  ltb, arith, Bool-cases, inl, inr, if◌then◌else◌,
}
use netkit.Telnetd.Options.{telopt_binary}
use netkit.Telnetd.Receive.{
  Telnetd, System, iac, cr, ts_data, ts_iac, ts_cr, Ts, on_data, got_iac, command, on_byte, telrcv,
  with_ts, push,
}

-- Data as a client sends it: IAC is doubled, and NUL stands behind a carriage return.
unfoldable pub escape : List ℕ → List ℕ
escape [] = []
escape (c ∷ cs) =
    let rest = escape cs in
    if c == iac then iac ∷ iac ∷ rest else if c == cr then cr ∷ 0 ∷ rest else c ∷ rest

-- The server takes data, the option BINARY is off, and the pty's buffer has room for `n` bytes.
pub record Takes (sys : System) (n : ℕ) (t : Telnetd) : Type 0 where
  pub data_state : t.ts ≡ ts_data
  pub here : t.gone ≡ false
  pub text : (t.opts telopt_binary).his_state ≡ false
  pub room : length t.ptyobuf + n + 2 ≤ sys.bufsiz

module _ (sys : System) where
  telrcv-step :
      (s : Ts) (c : ℕ) (cs : List ℕ) (t : Telnetd)
      → t.gone ≡ false
      → length t.ptyobuf + 2 ≤ sys.bufsiz
      → t.ts ≡ s
      → telrcv sys (c ∷ cs) t ≡ telrcv sys cs (on_byte sys c s t)
  unfolding telrcv
  telrcv-step s c cs t here room e =
      let stops : (t.gone || ltb sys.bufsiz (length t.ptyobuf + 2)) ≡ false = ground arith in
      rw stops (ap (λ x. telrcv sys cs (on_byte sys c x t)) e)

  on_byte-plain :
      (c : ℕ) (t : Telnetd)
      → (c == iac) ≡ false
      → (c == cr) ≡ false
      → on_byte sys c ts_data t ≡ record t { ts = ts_data; ptyobuf = c ∷ t.ptyobuf }
  unfolding on_byte on_data push with_ts
  on_byte-plain c t ni nc = rw (ni, nc) refl

  on_byte-cr :
      (c : ℕ) (t : Telnetd)
      → (c == iac) ≡ false
      → (c == cr) ≡ true
      → (t.opts telopt_binary).his_state ≡ false
      → on_byte sys c ts_data t ≡ record t { ts = ts_cr; ptyobuf = c ∷ t.ptyobuf }
  unfolding on_byte on_data push with_ts
  on_byte-cr c t ni yc b = ground (arith, ni, yc, b)

  on_byte-nul : (t : Telnetd) → on_byte sys 0 ts_cr t ≡ record t { ts = ts_data }
  unfolding on_byte with_ts
  on_byte-nul t = refl

  on_byte-iac :
      (c : ℕ) (t : Telnetd) → (c == iac) ≡ true → on_byte sys c ts_data t ≡ record t { ts = ts_iac }
  unfolding on_byte on_data with_ts
  on_byte-iac c t y = rw y refl

  on_byte-iac-iac :
      (c : ℕ) (t : Telnetd)
      → c ≡ iac
      → on_byte sys c ts_iac t ≡ record t { ts = ts_data; ptyobuf = c ∷ t.ptyobuf }
  unfolding on_byte got_iac command with_ts push
  on_byte-iac-iac c t e = rw e refl

  telrcv-nil : (t : Telnetd) → t.ts ≡ ts_data → telrcv sys [] t ≡ (record t { ts = ts_data }, [])
  unfolding telrcv
  telrcv-nil t e = ground (arith, e)

  -- Bytes sent as a client sends data come to the pty as they are, with no other action, and the
  -- server takes data again.
  pub telrcv-escape :
      (cs : List ℕ) (t : Telnetd)
      → Takes sys (length cs) t
      → telrcv sys (escape cs) t ≡ (record t { ts = ts_data; ptyobuf = rev_onto cs t.ptyobuf }, [])
  unfolding escape rev_onto
  telrcv-escape [] t k = telrcv-nil t k.data_state
  telrcv-escape (c ∷ cs) t k =
      let next : Takes sys (length cs) (record t { ts = ts_data; ptyobuf = c ∷ t.ptyobuf }) =
        record { data_state = refl; here = k.here; text = k.text; room = omega (arith, k.room) } in
      let rest = telrcv-escape cs (record t { ts = ts_data; ptyobuf = c ∷ t.ptyobuf }) next in
      let space : length t.ptyobuf + 2 ≤ sys.bufsiz = omega (arith, k.room) in
      let wide : length t.ptyobuf + 1 + 2 ≤ sys.bufsiz = omega (arith, k.room) in
      elim (Bool-cases (c == iac)) [
        | inl e ↦
            let q : iac ≡ c = ground arith in
            let u : Telnetd = record t { ts = ts_iac } in
            rw e (
              ap (λ x. telrcv sys (x ∷ x ∷ escape cs) t) q
              ∙ telrcv-step ts_data c (c ∷ escape cs) t k.here space k.data_state
              ∙ ap (telrcv sys (c ∷ escape cs)) (on_byte-iac c t e)
              ∙ telrcv-step ts_iac c (escape cs) u k.here space refl
              ∙ ap (telrcv sys (escape cs)) (on_byte-iac-iac c u (sym q))
              ∙ rest)
        | inr e ↦ elim (Bool-cases (c == cr)) [
          | inl d ↦
              let q : cr ≡ c = ground arith in
              let u : Telnetd = record t { ts = ts_cr; ptyobuf = c ∷ t.ptyobuf } in
              rw (e, d)
                (ap (λ x. telrcv sys (x ∷ 0 ∷ escape cs) t) q
                  ∙ telrcv-step ts_data c (0 ∷ escape cs) t k.here space k.data_state
                  ∙ ap (telrcv sys (0 ∷ escape cs)) (on_byte-cr c t e d k.text)
                  ∙ telrcv-step ts_cr 0 (escape cs) u k.here (omega (arith, wide)) refl
                  ∙ ap (telrcv sys (escape cs)) (on_byte-nul u)
                  ∙ rest)
          | inr d ↦
              rw (e, d)
                (telrcv-step ts_data c (escape cs) t k.here space k.data_state
                  ∙ ap (telrcv sys (escape cs)) (on_byte-plain c t e d)
                  ∙ rest)
        ]
      ]
