-- ===== src/Wire/Checksum.antt =====
-- src/net/mn_checksum.c: the internet checksum, accumulated in 16 bits.
pub mod Spec
pub mod Laws
pub mod Field
pub mod Local
pub mod Pseudo
use mega_net.Base.{
  ℕ, zero, suc, ◌+◌, ◌-◌, ◌*◌, ◌^◌, Bool, true, false, u16, Mem, ltb, ◌==◌, if◌then◌else◌, poke,
  offset, write_at, copy, copy_from,
}
use mega_net.Wire.Byteorder.{get16, put16}

-- `sum += word; if (sum < word) sum++;`
unfoldable pub end_around : ℕ → ℕ → ℕ
end_around sum word = let s = u16 (sum + word) in if ltb s word then u16 (s + 1) else s

-- The odd trailing byte, padded low.
unfoldable pub trailing : Mem → ℕ → ℕ → ℕ → ℕ
trailing p len i sum = if ltb i len then end_around sum (u16 (p i * 2 ^ 8)) else sum

-- The loop of `sum16`, on fuel; `i` moves by two, so `len` rounds are more than enough.
unfoldable pub sum16_from : ℕ → Mem → ℕ → ℕ → ℕ → ℕ
sum16_from zero p len i sum = trailing p len i sum
sum16_from (suc f) p len i sum = elim (ltb (u16 (i + 1)) len) [
  | true ↦ sum16_from f p len (u16 (i + 2)) (end_around sum (get16 (offset p i)))
  | false ↦ trailing p len i sum
]

unfoldable pub sum16 : Mem → ℕ → ℕ
sum16 p len = sum16_from len p len 0 0

-- `(uint16_t)~s`
abbrev pub complement : ℕ → ℕ
complement s = 0xffff - s

unfoldable pub checksum : Mem → ℕ → ℕ
checksum p len = complement (sum16 p len)

unfoldable pub checksum_valid : Mem → ℕ → Bool
checksum_valid p len = complement (sum16 p len) == 0

unfoldable pub checksum_raw : Mem → ℕ → ℕ
checksum_raw p len = sum16 p len

-- The pseudo-header `ph`, which has no byte of its own left unset.
unfoldable pub pseudo_header : Mem → Mem → ℕ → ℕ → Mem
pseudo_header src_ip dst_ip proto len =
    let addresses = write_at (copy (λ _. 0) src_ip 4) 4 (λ m. copy m dst_ip 4) in
    write_at (poke (poke addresses 8 0) 9 proto) 10 (λ m. put16 m len)

unfoldable pub checksum_pseudo : Mem → Mem → ℕ → Mem → ℕ → ℕ
checksum_pseudo src_ip dst_ip proto p len =
    let a = sum16 (pseudo_header src_ip dst_ip proto len) 12 in
    let b = sum16 p len in
    let sum = u16 (a + b) in complement (if ltb sum a then u16 (sum + 1) else sum)
