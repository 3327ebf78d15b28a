-- ===== src/Tftp/Request/RoundTrip.antt =====
-- The server reads back what the client asks for.
use mathlib.Core.Option
use netkit.Base.{
  All, append_assoc, Option-cases, inl, inr, ℕ, suc, ◌+◌, ◌≡◌, ◌≢◌, some, List, [], ◌∷◌, ◌++◌, map,
  length, arith, length-append,
}
use netkit.Tftp.Request.{scan, lower, format_of, parse, makerequest}

-- A C string has no NUL inside.
abbrev pub NoNul : List ℕ → Type 0
NoNul = All (λ c. c ≢ 0)

-- A string that ends within what was received is found, with what stands behind it.
scan-append :
    (s rest : List ℕ) (n : ℕ)
    → NoNul s
    → scan (s ++ (0 ∷ rest)) (length s + suc n) ≡ some (s, rest, n)
unfolding scan
scan-append [] rest n h = let e : length {A = ℕ} [] + suc n ≡ suc n = omega arith in rw e
scan-append (c ∷ s) rest n (hc, hs) =
    let e : suc (length s) + suc n ≡ suc (length s + suc n) = omega arith in
    rw e (ground (arith, scan-append s rest n hs))

append-two :
    (name mode beyond : List ℕ)
    → makerequest name mode ++ beyond ≡ name ++ (0 ∷ (mode ++ (0 ∷ beyond)))
unfolding makerequest
append-two name mode beyond = simp append_assoc

pub length-makerequest :
    (name mode : List ℕ) → length (makerequest name mode) ≡ length name + suc (length mode + suc 0)
unfolding makerequest
length-makerequest name mode =
    omega (arith, length-append name (0 ∷ (mode ++ (0 ∷ []))), length-append mode (0 ∷ []))

-- Whatever stands in memory behind the request that `makerequest` builds from strings without NUL,
-- the server takes the same name from it, and the conversion that the mode names in any case; a
-- mode that is not in `formats` is refused.
pub parse-makerequest :
    (name mode beyond : List ℕ)
    → NoNul name
    → NoNul mode
    → parse (makerequest name mode ++ beyond) (length (makerequest name mode))
      ≡ Option.map
          (λ convert. record { filename = name; convert = convert })
          (format_of (map lower mode))
unfolding parse
parse-makerequest name mode beyond hn hm =
    rw
      (
        append-two name mode beyond,
        length-makerequest name mode,
        scan-append name (mode ++ (0 ∷ beyond)) (length mode + suc 0) hn,
        scan-append mode beyond 0 hm,
        parse,
      )
      (elim (Option-cases (format_of (map lower mode))) [ inl e ↦ rw e | inr (c, e) ↦ rw e ])
