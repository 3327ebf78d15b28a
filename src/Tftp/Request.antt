-- ===== src/Tftp/Request.antt =====
-- `tftp` of netkit-tftp/tftpd/tftpd.c, which takes a request apart, and `makerequest` of
-- netkit-tftp/tftp/tftp.c, which puts one together.
pub mod RoundTrip
use netkit.Base.{
  ℕ, zero, suc, ◌+◌, Bool, true, false, Option, none, some, List, [], ◌∷◌, ◌++◌, map, ◌==◌, ◌&&◌,
  leb, if◌then◌else◌,
}
use netkit.Tftp.Packet.{op_wrq}

-- From `again`: the string at `cp` and what stands behind its NUL. `n` bytes from `cp` on were
-- received; the one after them is read too. `none` is the `nak (EBADOP)`.
scan : List ℕ → ℕ → Option (List ℕ × List ℕ × ℕ)
scan [] n = none
scan (c ∷ cs) zero = if c == 0 then some ([], cs, zero) else none
scan (c ∷ cs) (suc n) =
    let rest = scan cs n in
    if c == 0
    then some ([], cs, n)
    else elim rest [ none ↦ none | some (s, more, m) ↦ some (c ∷ s, more, m) ]

-- `isupper` and `tolower` of the C locale.
unfoldable pub lower : ℕ → ℕ
lower c = if leb 65 c && leb c 90 then c + 32 else c

pub same_text : List ℕ → List ℕ → Bool
same_text [] [] = true
same_text [] (y ∷ ys) = false
same_text (x ∷ xs) [] = false
same_text (x ∷ xs) (y ∷ ys) = x == y && same_text xs ys

abbrev pub netascii : List ℕ
netascii = b'n' ∷ b'e' ∷ b't' ∷ b'a' ∷ b's' ∷ b'c' ∷ b'i' ∷ b'i' ∷ []

abbrev pub octet : List ℕ
octet = b'o' ∷ b'c' ∷ b't' ∷ b'e' ∷ b't' ∷ []

-- `formats`: `f_convert` of a mode.
unfoldable pub format_of : List ℕ → Option Bool
unfolding same_text
format_of mode =
    if same_text netascii mode then some true else if same_text octet mode then some false else none

-- The file name and the conversion that are asked for.
pub record Asked : Type 0 where
  pub filename : List ℕ
  pub convert : Bool

-- `tftp` up to `f_validate`: `memory` is the buffer from `th_stuff` on, of which `n` bytes were
-- received.
pub parse : List ℕ → ℕ → Option Asked
unfolding scan lower format_of
parse memory n = elim (scan memory n) [
  | none ↦ none
  | some (filename, more, m) ↦ elim (scan more m) [
    | none ↦ none
    | some (mode, _, _) ↦ elim (format_of (map lower mode)) [
      | none ↦ none
      | some convert ↦ some (record { filename = filename; convert = convert })
    ]
  ]
]

-- What comes of a request: a `nak`, or one of the transfers.
pub data Answer : Type 0 where
  refused : ℕ → Answer
  sends receives : Asked → Answer

-- `tftp`, where `validate` is what `validate_access` returns; EBADOP is 4.
pub tftp : (List ℕ → ℕ → ℕ) → ℕ → List ℕ → ℕ → Answer
unfolding parse
tftp validate opcode memory n = elim (parse memory n) [
  | none ↦ refused 4
  | some asked ↦
      let code = validate asked.filename opcode in
      if code == 0 then (if opcode == op_wrq then receives asked else sends asked) else refused code
]

-- `makerequest`, behind the opcode.
pub makerequest : List ℕ → List ℕ → List ℕ
makerequest name mode = name ++ (0 ∷ (mode ++ (0 ∷ [])))
