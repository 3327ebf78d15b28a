-- ===== src/Tftp/Packet.antt =====
-- netkit-tftp/include/arpa/tftp.h: opcodes, error codes and packets, and `nak` of
-- netkit-tftp/tftpd/tftpd.c. Fields are in host order, as the loops compare them.
use netkit.Base.{ℕ, Bool, List, ◌∷◌, [], ◌==◌, if◌then◌else◌}

pub data Packet : Type 0 where
  data_packet : ℕ → List ℕ → Packet
  ack_packet : ℕ → Packet
  error_packet : ℕ → Packet
  request_packet : ℕ → List ℕ → Packet

abbrev pub op_rrq : ℕ
op_rrq = 1

abbrev pub op_wrq : ℕ
op_wrq = 2

abbrev pub op_data : ℕ
op_data = 3

abbrev pub op_ack : ℕ
op_ack = 4

abbrev pub op_error : ℕ
op_error = 5

-- The length of a datagram that does not fill the first two fields.
pub data Short : Type 0 where
  empty one_byte two_bytes three_bytes : Short

-- What `alarm` and `recv` bring: the signal, a failure, a packet's opcode, block number and `n - 4`
-- further bytes, or a datagram of fewer than 4 bytes. Of that one the loops read the same two fields,
-- which are then in part what the buffer held before; they are given as read.
pub data Event : Type 0 where
  alarm fault : Event
  packet : ℕ → ℕ → List ℕ → Event
  runt : Short → ℕ → ℕ → Event

-- An event, and whether the `send` that follows it, if any, goes out.
pub record Turn : Type 0 where
  pub event : Event
  pub sends : Bool

-- The `e_code`s of `errmsgs`, without the mark at its end.
abbrev errmsgs : List ℕ
errmsgs = 0 ∷ 1 ∷ 2 ∷ 3 ∷ 4 ∷ 5 ∷ 6 ∷ 7 ∷ []

nak_code : List ℕ → ℕ → ℕ
nak_code [] error = 0
nak_code (code ∷ codes) error = if code == error then error else nak_code codes error

-- `nak`: a code that is not in the table goes out as EUNDEF.
unfoldable pub nak : ℕ → Packet
unfolding nak_code
nak error = error_packet (nak_code errmsgs error)
