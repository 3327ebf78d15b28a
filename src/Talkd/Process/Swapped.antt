-- ===== src/Talkd/Process/Swapped.antt =====
-- The ids of clients of the other byte order: `byte_swap32` of repairs.c and `voodoo` of process.c.
use netkit.Base.{ℕ, ◌+◌, ◌-◌, ◌*◌, ◌/◌, ◌%◌, ◌^◌, ◌≡◌, ◌<◌, arith, ap, ◌∙◌}
use netkit.Talkd.Message.{byte_swap32}
use netkit.Talkd.Process.{voodoo}

-- The number of four bytes.
word : ℕ → ℕ → ℕ → ℕ → ℕ
word a b c d = a * 2 ^ 24 + b * 2 ^ 16 + c * 2 ^ 8 + d

byte_swap32-word :
    (a b c d : ℕ)
    → a < 256
    → b < 256
    → c < 256
    → d < 256
    → byte_swap32 (word a b c d) ≡ word d c b a
unfolding byte_swap32 word
byte_swap32-word a b c d ha hb hc hd = omega arith

-- Swapping twice gives a 32-bit number back, and a swapped number has 32 bits.
pub byte_swap32_twice :
    (k : ℕ) → k < 2 ^ 32 → (byte_swap32 k < 2 ^ 32) × (byte_swap32 (byte_swap32 k) ≡ k)
unfolding byte_swap32 word
byte_swap32_twice k h =
    let e = byte_swap32-word (k % 256) (k / 256 % 256) (k / 65536 % 256) (k / 16777216) in
    (omega arith, omega (arith, e))

-- A client of the other byte order, which adds one to the id as it stands, is known by `voodoo`.
pub voodoo-byte_swap32 :
    (id : ℕ) → id < 2 ^ 32 → voodoo (byte_swap32 ((byte_swap32 id + 1) % 2 ^ 32)) ≡ id
unfolding voodoo
voodoo-byte_swap32 id h =
    let (small, back) = byte_swap32_twice id h in
    let (_, again) = byte_swap32_twice ((byte_swap32 id + 1) % 2 ^ 32) (omega arith) in
    let e : (byte_swap32 (byte_swap32 ((byte_swap32 id + 1) % 2 ^ 32)) + 2 ^ 32 - 1) % 2 ^ 32
        ≡ byte_swap32 id =
      omega (arith, again, small) in
    ap byte_swap32 e ∙ back
