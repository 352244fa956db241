-- ===== src/Wire/Checksum/Local.antt =====
-- The bytes that a checksum of src/net/mn_checksum.c depends on.
use mega_net.Base.{
  Mem, offset, ltb, Bool-cases, u16, ℕ, zero, suc, ◌+◌, ◌%◌, ◌^◌, ◌<◌, ◌≡◌, refl, ap, inl, inr,
  arith,
}
use mega_net.Wire.Byteorder.{get16}
use mega_net.Wire.Checksum.{end_around, trailing, sum16_from, sum16, checksum_valid}
use native.Mathlib.Nat.{add-zero}

sum16_from_local :
    (f : ℕ) (p q : Mem) (len i s : ℕ)
    → len < 2 ^ 16
    → i % 2 ≡ 0
    → i < 2 ^ 16
    → ((j : ℕ) → j < len → p j ≡ q j)
    → sum16_from f p len i s ≡ sum16_from f q len i s
unfolding sum16_from trailing
sum16_from_local zero p q len i s b g c h = ground (arith, h i)
sum16_from_local (suc f) p q len i s b g c h = elim (Bool-cases (ltb (u16 (i + 1)) len)) [
  | inl y ↦
      let words : get16 (offset p i) ≡ get16 (offset q i) =
        unfold get16 in ground (arith, h i, h (i + 1), ap p (add-zero i), ap q (add-zero i)) in
      rw (y, sum16_from, words)
        (sum16_from_local f p q len (u16 (i + 2)) (end_around s (get16 (offset q i))) b
          (omega arith) (omega arith) h)
  | inr n ↦ rw (n, sum16_from) (ground (arith, h i))
]

pub sum16_local :
    (p q : Mem) (len : ℕ)
    → len < 2 ^ 16
    → ((j : ℕ) → j < len → p j ≡ q j)
    → sum16 p len ≡ sum16 q len
unfolding sum16
sum16_local p q len b h = sum16_from_local len p q len 0 0 b refl (omega arith) h

pub checksum_valid_local :
    (p q : Mem) (len : ℕ)
    → len < 2 ^ 16
    → ((j : ℕ) → j < len → p j ≡ q j)
    → checksum_valid p len ≡ checksum_valid q len
unfolding checksum_valid
checksum_valid_local p q len b h = rw (sum16_local p q len b h)
