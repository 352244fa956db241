-- ===== src/Wire/Byteorder/Laws.antt =====
-- The accessors of src/net/mn_byteorder.h, in arithmetic.
use mega_net.Base.{
  bit_or-shifted, bit_and-255, Mem, IsBytes, ℕ, ◌+◌, ◌*◌, ◌/◌, ◌%◌, ◌^◌, ◌<◌, bit_and, ◌≡◌, arith,
}
use mega_net.Wire.Byteorder.{get16, put16, get32, put32}

pub get16_sum : (p : Mem) → p 0 < 256 → p 1 < 256 → get16 p ≡ p 0 * 256 + p 1
unfolding get16
get16_sum p h k = ground (arith, bit_or-shifted 8 (p 0) (p 1))

pub get16-put16 : (p : Mem) (v : ℕ) → v < 2 ^ 16 → get16 (put16 p v) ≡ v
unfolding put16
get16-put16 p v h = ground (arith, get16_sum (put16 p v), bit_and-255 v)

pub get32_sum :
    (p : Mem)
    → p 0 < 256
    → p 1 < 256
    → p 2 < 256
    → p 3 < 256
    → get32 p ≡ p 0 * 2 ^ 24 + p 1 * 2 ^ 16 + p 2 * 2 ^ 8 + p 3
unfolding get32
get32_sum p a b c d = ground (
  arith,
  bit_or-shifted 24 (p 0) (p 1 * 2 ^ 16),
  bit_or-shifted 16 (p 0 * 2 ^ 8 + p 1) (p 2 * 2 ^ 8),
  bit_or-shifted 8 (p 0 * 2 ^ 16 + p 1 * 2 ^ 8 + p 2) (p 3),
)

pub get32-put32 : (p : Mem) (v : ℕ) → v < 2 ^ 32 → get32 (put32 p v) ≡ v
unfolding put32
get32-put32 p v h = ground (arith, get32_sum (put32 p v), bit_and-255 v)

pub put16-IsBytes : (p : Mem) (v : ℕ) → IsBytes p → IsBytes (put16 p v)
unfolding put16
put16-IsBytes p v h i = ground (arith, h i)

-- A 16-bit field read from the two bytes that writing it leaves.
pub word_lem :
    (p : Mem) (v : ℕ)
    → v < 2 ^ 16
    → p 0 ≡ v / 2 ^ 8 % 2 ^ 8
    → p 1 ≡ bit_and v 0xff % 2 ^ 8
    → get16 p ≡ v
word_lem p v h a b = ground (arith, get16_sum p, bit_and-255 v)
