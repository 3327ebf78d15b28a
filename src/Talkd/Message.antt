-- ===== src/Talkd/Message.antt =====
-- netkit-ntalk/include/prot_talkd.h and `byte_swap32` of netkit-ntalk/talkd/repairs.c. The numbers
-- of a message are those that its network byte order spells.
use netkit.Base.{
  ℕ, ◌+◌, ◌*◌, ◌/◌, ◌%◌, ◌^◌, Bool, true, false, List, [], ◌∷◌, ◌==◌, ◌&&◌, if◌then◌else◌,
}

abbrev pub name_size : ℕ
name_size = 12

abbrev pub tty_size : ℕ
tty_size = 16

abbrev pub talk_version : ℕ
talk_version = 1

abbrev pub leave_invite : ℕ
leave_invite = 0

abbrev pub look_up : ℕ
look_up = 1

abbrev pub delete : ℕ
delete = 2

abbrev pub announce : ℕ
announce = 3

abbrev pub success : ℕ
success = 0

abbrev pub not_here : ℕ
not_here = 1

abbrev pub failed : ℕ
failed = 2

abbrev pub machine_unknown : ℕ
machine_unknown = 3

abbrev pub permission_denied : ℕ
permission_denied = 4

abbrev pub unknown_request : ℕ
unknown_request = 5

abbrev pub badversion : ℕ
badversion = 6

abbrev pub badaddr : ℕ
badaddr = 7

-- MAX_LIFE, in seconds.
abbrev pub max_life : ℕ
max_life = 60

-- `struct talk_addr`
pub record TalkAddr : Type 0 where
  pub family : ℕ
  pub port : ℕ
  pub address : ℕ

-- `CTL_MSG`, without `answer` and `pad`, which nothing reads. The names are arrays of `name_size`
-- and `tty_size` bytes.
pub record CtlMsg : Type 0 where
  pub vers : ℕ
  pub kind : ℕ
  pub id_num : ℕ
  pub addr : TalkAddr
  pub ctl_addr : TalkAddr
  pub pid : ℕ
  pub l_name : List ℕ
  pub r_name : List ℕ
  pub r_tty : List ℕ

-- `CTL_RESPONSE`
pub record CtlResponse : Type 0 where
  pub vers : ℕ
  pub kind : ℕ
  pub answer : ℕ
  pub id_num : ℕ
  pub addr : TalkAddr

-- The string in an array: what stands before the first NUL.
unfoldable pub c_string : List ℕ → List ℕ
c_string [] = []
c_string (c ∷ cs) = let rest = c_string cs in if c == 0 then [] else c ∷ rest

-- `strcmp (a, b) == 0`
unfoldable pub same_string : List ℕ → List ℕ → Bool
same_string [] [] = true
same_string [] (b ∷ bs) = false
same_string (a ∷ as') [] = false
same_string (a ∷ as') (b ∷ bs) = a == b && same_string as' bs

unfoldable pub str_eq : List ℕ → List ℕ → Bool
unfolding c_string same_string
str_eq a b = same_string (c_string a) (c_string b)

-- `byte_swap32`: the four bytes that its `|` puts together do not overlap.
unfoldable pub byte_swap32 : ℕ → ℕ
byte_swap32 k =
    k % 2 ^ 8 * 2 ^ 24 + k / 2 ^ 8 % 2 ^ 8 * 2 ^ 16 + k / 2 ^ 16 % 2 ^ 8 * 2 ^ 8 + k / 2 ^ 24
