-- ===== src/Tftp/Access.antt =====
-- `validate_access` of netkit-tftp/tftpd/tftpd.c.
pub mod Safe
use netkit.Base.{
  ℕ, ◌%◌, ◌/◌, Bool, true, false, not, List, [], ◌∷◌, ◌==◌, ◌&&◌, ◌||◌, ◌+◌, ◌⊎◌, inl, inr, Option,
  none, some, if◌then◌else◌,
}
use netkit.Tftp.Packet.{op_rrq}

-- The answers of the system: `stat` gives the mode of a file, or the error, 2 being ENOENT; `open`,
-- for reading or else for writing, and `fdopen` give an error or none. The first argument says
-- whether the directory was changed to the first one given.
pub record System : Type 0 where
  pub stat : Bool → List ℕ → ℕ ⊎ ℕ
  pub open_file : Bool → List ℕ → Bool → Option ℕ
  pub fdopen : List ℕ → Option ℕ

-- `strncmp (s, t, strlen (t)) == 0`
pub has_prefix : List ℕ → List ℕ → Bool
has_prefix [] s = true
has_prefix (c ∷ t) [] = false
has_prefix (c ∷ t) (d ∷ s) = c == d && has_prefix t s

pub any_prefix : List (List ℕ) → List ℕ → Bool
unfolding has_prefix
any_prefix [] s = false
any_prefix (t ∷ ts) s = has_prefix t s || any_prefix ts s

abbrev pub slash : ℕ
slash = b'/'

abbrev pub dot : ℕ
dot = b'.'

-- The loop over `cp`, which stands behind the character `prev`.
pub climbs : ℕ → List ℕ → Bool
unfolding has_prefix
climbs prev [] = false
climbs prev (c ∷ cs) =
    c == dot && has_prefix (slash ∷ dot ∷ dot ∷ slash ∷ []) (prev ∷ c ∷ cs) || climbs c cs

-- S_IROTH and S_IWOTH of a mode.
pub other_reads : ℕ → Bool
other_reads mode = mode / 4 % 2 == 1

pub other_writes : ℕ → Bool
other_writes mode = mode / 2 % 2 == 1

abbrev pub starts_with_slash : List ℕ → Bool
starts_with_slash [] = false
starts_with_slash (c ∷ cs) = c == slash

pub is_empty : List (List ℕ) → Bool
is_empty [] = true
is_empty (_ ∷ _) = false

-- The name is refused by the directories given, or by its `..`. The loop starts behind the first
-- character; of the empty name that is behind its NUL, where `behind` stands.
pub refuses : List (List ℕ) → List ℕ → List ℕ → Bool
unfolding any_prefix climbs is_empty
refuses dirs behind [] = has_prefix (dot ∷ dot ∷ slash ∷ []) [] || climbs 0 behind
refuses dirs behind (c ∷ cs) =
    c == slash && (not (any_prefix dirs (c ∷ cs)) && not (is_empty dirs))
    || (has_prefix (dot ∷ dot ∷ slash ∷ []) (c ∷ cs) || climbs c cs)

-- `validate_access`: 0, or a code for `nak`: EACCESS is 2, ENOTFOUND 1.
unfoldable pub validate_access : System → List (List ℕ) → List ℕ → List ℕ → ℕ → ℕ
unfolding refuses other_reads other_writes
validate_access sys dirs behind filename mode =
    let moved = not (starts_with_slash filename) in
    if refuses dirs behind filename then 2 else elim (sys.stat moved filename) [
      | inl errno ↦ if errno == 2 then 1 else 2
      | inr st_mode ↦
          if not (if mode == op_rrq then other_reads st_mode else other_writes st_mode)
          then 2
          else elim (sys.open_file moved filename (mode == op_rrq)) [
            | some errno ↦ errno + 100
            | none ↦ elim (sys.fdopen filename) [ none ↦ 0 | some errno ↦ errno + 100 ]
          ]
    ]
