-- ===== src/Wire/Byteorder.antt =====
-- src/net/mn_byteorder.h: big-endian accessors, a byte at a time.
pub mod Laws
use mega_net.Base.{ℕ, ◌+◌, ◌*◌, ◌/◌, ◌^◌, bit_and, bit_or, u8, u16, u32, Mem, poke}

unfoldable pub get16 : Mem → ℕ
get16 p = u16 (bit_or (u16 (p 0 * 2 ^ 8)) (p 1))

unfoldable pub put16 : Mem → ℕ → Mem
put16 p v = poke (poke p 0 (u8 (v / 2 ^ 8))) 1 (u8 (bit_and v 0xff))

unfoldable pub get32 : Mem → ℕ
get32 p =
    bit_or (bit_or (bit_or (u32 (p 0 * 2 ^ 24)) (u32 (p 1 * 2 ^ 16))) (u32 (p 2 * 2 ^ 8))) (p 3)

unfoldable pub put32 : Mem → ℕ → Mem
put32 p v =
    poke (poke (poke (poke p 0 (u8 (v / 2 ^ 24))) 1 (u8 (v / 2 ^ 16))) 2 (u8 (v / 2 ^ 8))) 3
      (u8 (bit_and v 0xff))
