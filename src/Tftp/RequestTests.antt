-- ===== src/Tftp/RequestTests.antt =====
-- Runs of the request and access code on small inputs.
use mathlib.Core.Option
use netkit.Base.{
  ℕ, ◌≡◌, ◌≢◌, refl, ◌⊎◌, inr, true, false, none, some, List, [], ◌∷◌, ◌++◌, map, length, arith,
}
use netkit.Tftp.Buffers.{Subs, free}
use netkit.Tftp.Packet.{Turn, packet, op_ack, op_rrq}
use netkit.Tftp.Segments.{Has}
use netkit.Tftp.Request.{netascii, lower, format_of, parse, makerequest}
use netkit.Tftp.Request.RoundTrip.{parse-makerequest}
use netkit.Tftp.Access.{System, validate_access, slash, dot, starts_with_slash}
use netkit.Tftp.Access.Safe.{validate_access_safe}
use netkit.Tftp.Client.{sendfile}
use netkit.Tftp.Client.Put.{OnlyAsks, sendfile-OnlyAsks}

-- "NETASCII"
abbrev shouted : List ℕ
shouted = 78 ∷ 69 ∷ 84 ∷ 65 ∷ 83 ∷ 67 ∷ 73 ∷ 73 ∷ []

-- "/a"
abbrev name : List ℕ
name = 47 ∷ 97 ∷ []

parse-makerequest_example :
    parse (makerequest name shouted ++ (1 ∷ 2 ∷ [])) (length (makerequest name shouted))
    ≡ Option.map
        (λ convert. record { filename = name; convert = convert })
        (format_of (map lower shouted))
parse-makerequest_example = parse-makerequest name shouted (1 ∷ 2 ∷ []) (omega arith) (omega arith)

shouted_is_netascii : format_of (map lower shouted) ≡ some true
unfolding format_of lower
shouted_is_netascii = refl

-- A system in which every file may be read by all.
abbrev open_system : System
open_system = record {
  stat = λ moved n. inr 420;
  open_file = λ moved n reading. none;
  fdopen = λ n. none;
}

served : validate_access open_system ((47 ∷ []) ∷ []) [] name op_rrq ≡ 0
unfolding validate_access
served = refl

validate_access_safe_example :
    ((pre post : List ℕ) → name ≢ pre ++ (slash ∷ dot ∷ dot ∷ slash ∷ post))
    × ((post : List ℕ) → name ≢ dot ∷ dot ∷ slash ∷ post)
    × ((starts_with_slash name ≡ false)
        ⊎ ((dir : List ℕ) × Has dir ((47 ∷ []) ∷ []) × ((rest : List ℕ) × (name ≡ dir ++ rest))))
validate_access_safe_example = validate_access_safe open_system (47 ∷ []) [] [] name op_rrq served

abbrev zeros : Subs
zeros = record {
  bf0 = record { counter = free; body = [] };
  bf1 = record { counter = free; body = [] };
  nextone = false;
  current = false;
  newline = false;
  prevchar = none;
}

abbrev answered : List Turn
answered = record { event = packet op_ack 0 []; sends = true } ∷ []

sendfile-OnlyAsks_example : OnlyAsks (makerequest name netascii) (
    sendfile 5 5 25 zeros
      (record { rest = 1 ∷ 2 ∷ []; broken = false })
      name
      netascii
      true
      true
      answered)
sendfile-OnlyAsks_example =
    sendfile-OnlyAsks 5 5 25 zeros (record { rest = 1 ∷ 2 ∷ []; broken = false }) name netascii true
      true answered (omega arith)
