-- ===== src/Telnet/Screen.antt =====
-- From the pty of the server to the terminal of the client.
use netkit.Base.{
  ◌⊎◌, ℕ, ◌+◌, ◌*◌, ◌≤◌, ◌<◌, ◌≡◌, refl, ap, ◌∙◌, Bool, true, false, List, [], ◌∷◌, length, flatten,
  ltb, arith, inl, inr, rev_onto, rev_onto-rev_onto, append-nil,
}
use netkit.Telnetd.Receive.{ts_data}
use netkit.Telnetd.Send.{starts_with_lf, put, put-bound, pty_to_net}
use netkit.Telnet.Receive.{Client, Local, telrcv_all}
use netkit.Telnet.Receive.Wire.{escaped, wire, Shows, here}
use netkit.Telnet.Receive.Pieces.{pieces}

-- `put` of one byte, with nothing, a line feed or another byte behind it.
put-escaped-one :
    (binary : Bool) (c : ℕ) (out : List ℕ)
    → (put binary c [] out).0 ≡ rev_onto (escaped binary false (c ∷ [])) out
unfolding put starts_with_lf escaped rev_onto
put-escaped-one binary c out = ground arith

put-escaped :
    (binary : Bool) (c d : ℕ) (cs out : List ℕ)
    → ((put binary c (d ∷ cs) out).1 ≡ true)
        × (rev_onto (escaped binary false cs) (put binary c (d ∷ cs) out).0
            ≡ rev_onto (escaped binary false (c ∷ d ∷ cs)) out)
      ⊎ ((put binary c (d ∷ cs) out).1 ≡ false)
        × (rev_onto (escaped binary false (d ∷ cs)) (put binary c (d ∷ cs) out).0
            ≡ rev_onto (escaped binary false (c ∷ d ∷ cs)) out)
unfolding put starts_with_lf escaped rev_onto
put-escaped binary c d cs out = ground arith

pty_to_net-escaped :
    (bufsiz : ℕ) (binary : Bool) (bs out : List ℕ)
    → length out + 2 * length bs ≤ bufsiz
    → pty_to_net bufsiz binary bs out ≡ (rev_onto (escaped binary false bs) out, [])
unfolding pty_to_net escaped rev_onto
pty_to_net-escaped bufsiz binary [] out h = refl
pty_to_net-escaped bufsiz binary (c ∷ []) out h =
    let full : ltb bufsiz (length out + 2) ≡ false = ground arith in
    rw full (ap (λ x. (x, [])) (put-escaped-one binary c out))
pty_to_net-escaped bufsiz binary (c ∷ d ∷ cs) out h =
    let out' = (put binary c (d ∷ cs) out).0 in
    let b = put-bound binary c (d ∷ cs) out in
    let full : ltb bufsiz (length out + 2) ≡ false = ground arith in
    elim (put-escaped binary c d cs out) [
      | inl (a, e) ↦
          let x = pty_to_net-escaped bufsiz binary cs out' (ground (arith, b)) in
          rw (full, a) (x ∙ ap (λ x. (x, [])) e)
      | inr (a, e) ↦
          let x = pty_to_net-escaped bufsiz binary (d ∷ cs) out' (ground (arith, b)) in
          rw (full, a) (x ∙ ap (λ x. (x, [])) e)
    ]

-- What the pty gives is shown by the client as it is, and nothing of it is left over, in whatever
-- pieces it comes over the network: where the output buffer of the server and the terminal's ring
-- have room for it, BINARY is the same on both sides, the server echoes, and the client is between
-- two bytes of data, drops nothing and does not have `crmod` on.
pub telrcv_all-pty_to_net :
    (loc : Local) (bufsiz : ℕ) (binary : Bool) (t : Client) (css : List (List ℕ)) (bs out : List ℕ)
    → Shows loc binary t
    → 2 * length bs ≤ bufsiz
    → length bs + length out + 2 < loc.ttysize
    → flatten css ≡ rev_onto (pty_to_net bufsiz binary bs []).0 []
    → telrcv_all loc css [] (here t ts_data out) ≡ (here t ts_data (rev_onto bs out), [])
unfolding wire rev_onto
telrcv_all-pty_to_net loc bufsiz binary t css bs out k h h' e =
    let sent =
      ap (λ x. rev_onto x.0 []) (pty_to_net-escaped bufsiz binary bs [] (ground (arith, h))) in
    let sent_bytes = escaped binary false bs in
    pieces loc binary t k ts_data css bs out h'
      (e ∙ sent ∙ rev_onto-rev_onto sent_bytes [] [] ∙ append-nil sent_bytes) _
