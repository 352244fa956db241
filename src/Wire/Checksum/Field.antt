-- ===== src/Wire/Checksum/Field.antt =====
-- Checksum fields inside the packet that they are about, for src/net/mn_checksum.c.
use mega_net.Base.{
  bit_and-255, Mem, IsBytes, poke, write_at, ◌==◌, if◌then◌else◌, ℕ, zero, suc, ◌+◌, ◌-◌, ◌*◌, ◌/◌,
  ◌%◌, ◌^◌, ◌<◌, ◌≡◌, refl, ap, fun_ext, true, arith,
}
use mega_net.Wire.Byteorder.{put16}
use mega_net.Wire.Checksum.{sum16, checksum, checksum_valid}
use mega_net.Wire.Checksum.Laws.{sum16-fold}
use mega_net.Wire.Checksum.Spec.{words, word_sum}

-- `mn_put16(p + o, v)`
abbrev pub patch : Mem → ℕ → ℕ → Mem
patch p o v = write_at p o (λ m. put16 m v)

pub patch_lem :
    (p : Mem) (o v j : ℕ)
    → patch p o v j ≡ (if j == o then v / 256 % 256 else if j == o + 1 then v % 256 else p j)
unfolding put16
patch_lem p o v j = ground (arith, bit_and-255 v, ap p {x = o + (j - o)} {y = j})

pub patch-IsBytes : (p : Mem) (o v : ℕ) → IsBytes p → IsBytes (patch p o v)
patch-IsBytes p o v h j = ground (arith, patch_lem p o v j, h j)

words-patch_after :
    (n : ℕ) (p : Mem) (o v i : ℕ) → o + 1 < i → words (patch p o v) i n ≡ words p i n
words-patch_after zero p o v i h = refl
words-patch_after (suc n) p o v i h =
    ground (arith, patch_lem p o v i, patch_lem p o v (i + 1), words-patch_after n p o v (i + 2))

-- A word at an even distance adds its value, whatever stood there.
words-patch :
    (n : ℕ) (p : Mem) (o v i k : ℕ)
    → v < 2 ^ 16
    → o ≡ i + k * 2
    → k < n
    → words (patch p o v) i n ≡ words (patch p o 0) i n + v
words-patch zero p o v i k hv e h = absurd (omega arith)
words-patch (suc n) p o v i zero hv e h = ground (
  arith,
  patch_lem p o v i,
  patch_lem p o v (i + 1),
  patch_lem p o 0 i,
  patch_lem p o 0 (i + 1),
  words-patch_after n p o v (i + 2),
  words-patch_after n p o 0 (i + 2),
)
words-patch (suc n) p o v i (suc k) hv e h = ground (
  arith,
  patch_lem p o v i,
  patch_lem p o v (i + 1),
  patch_lem p o 0 i,
  patch_lem p o 0 (i + 1),
  words-patch n p o v (i + 2) k,
)

pub word_sum-patch :
    (p : Mem) (len k v : ℕ)
    → v < 2 ^ 16
    → k < len / 2
    → word_sum (patch p (k * 2) v) len ≡ word_sum (patch p (k * 2) 0) len + v
unfolding word_sum
word_sum-patch p len k v hv h = ground (
  arith,
  words-patch (len / 2) p (k * 2) v 0 k,
  patch_lem p (k * 2) v (len - 1),
  patch_lem p (k * 2) 0 (len - 1),
)

-- A packet whose checksum field, at an even offset, is filled with the checksum of the packet
-- with a zero field passes the validity check.
pub checksum_valid-patch :
    (p : Mem) (len k : ℕ)
    → IsBytes p
    → len < 2 ^ 16
    → k < len / 2
    → checksum_valid (patch p (k * 2) (checksum (patch p (k * 2) 0) len)) len ≡ true
unfolding checksum checksum_valid
checksum_valid-patch p len k h b g =
    let c : ℕ = 0xffff - sum16 (patch p (k * 2) 0) len in
    ground (
      arith,
      sum16-fold (patch p (k * 2) 0) len (patch-IsBytes p (k * 2) 0 h) b,
      sum16-fold (patch p (k * 2) c) len (patch-IsBytes p (k * 2) c h) b,
      word_sum-patch p len k c,
    )

pub patch-zero : (p : Mem) (o : ℕ) → p o ≡ 0 → p (o + 1) ≡ 0 → patch p o 0 ≡ p
patch-zero p o h k =
    fun_ext λ j. ground (arith, patch_lem p o 0 j, ap p {x = o} {y = j}, ap p {x = o + 1} {y = j})

pub poke-IsBytes : (p : Mem) (i v : ℕ) → v < 256 → IsBytes p → IsBytes (poke p i v)
poke-IsBytes p i v b h j = ground (arith, h j)
