-- ===== src/Telnetd/Send.antt =====
-- What `telnet` of netkit-telnet/telnetd/telnetd.c makes of the bytes that the pty gives.
use netkit.Base.{
  ℕ, ◌+◌, ◌≤◌, Bool, true, false, not, List, [], ◌∷◌, length, ◌==◌, ◌&&◌, ltb, arith, Bool-cases,
  inl, inr, if◌then◌else◌,
}
use netkit.Telnetd.Receive.{iac, cr, lf}

unfoldable pub starts_with_lf : List ℕ → Bool
starts_with_lf [] = false
starts_with_lf (c ∷ cs) = c == lf

-- What is put in the buffer for a byte, behind which `cs` came in, the last byte first; and whether
-- the byte behind it goes along.
unfoldable pub put : Bool → ℕ → List ℕ → List ℕ → List ℕ × Bool
unfolding starts_with_lf
put binary c cs out =
    let out' = c ∷ (if c == iac then c ∷ out else out) in
    if c == cr && not binary
    then (if starts_with_lf cs then (lf ∷ out', true) else (0 ∷ out', false))
    else (out', false)

-- The loop, with the buffer's room, and whether the option BINARY is on: the buffer, the last byte
-- first, and what is left.
unfoldable pub pty_to_net : ℕ → Bool → List ℕ → List ℕ → List ℕ × List ℕ
unfolding put
pty_to_net bufsiz binary [] out = (out, [])
pty_to_net bufsiz binary (c ∷ []) out =
    if ltb bufsiz (length out + 2) then (out, c ∷ []) else ((put binary c [] out).0, [])
pty_to_net bufsiz binary (c ∷ d ∷ cs) out =
    let (out', along) = put binary c (d ∷ cs) out in
    let both = pty_to_net bufsiz binary cs out' in
    let rest = pty_to_net bufsiz binary (d ∷ cs) out' in
    if ltb bufsiz (length out + 2) then (out, c ∷ d ∷ cs) else if along then both else rest

pub put-bound :
    (binary : Bool) (c : ℕ) (cs out : List ℕ) → length (put binary c cs out).0 ≤ length out + 2
unfolding put
put-bound binary c cs out = ground arith

-- The output buffer does not overflow.
pub pty_to_net-bound :
    (bufsiz : ℕ) (binary : Bool) (cs out : List ℕ)
    → length out ≤ bufsiz
    → length (pty_to_net bufsiz binary cs out).0 ≤ bufsiz
unfolding pty_to_net
pty_to_net-bound bufsiz binary [] out h = h
pty_to_net-bound bufsiz binary (c ∷ []) out h =
    let b = put-bound binary c [] out in ground (arith, b)
pty_to_net-bound bufsiz binary (c ∷ d ∷ cs) out h =
    let out' = (put binary c (d ∷ cs) out).0 in
    let b = put-bound binary c (d ∷ cs) out in
    elim (Bool-cases (ltb bufsiz (length out + 2))) [
      | inl e ↦ rw e h
      | inr e ↦
          let small : length out' ≤ bufsiz = ground (arith, b, e) in
          let x = pty_to_net-bound bufsiz binary cs out' small in
          let y = pty_to_net-bound bufsiz binary (d ∷ cs) out' small in
          elim (Bool-cases (put binary c (d ∷ cs) out).1) [
            | inl a ↦ rw (e, a) x
            | inr a ↦ rw (e, a) y
          ]
    ]
