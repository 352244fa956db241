-- ===== src/Wire/Checksum/Pseudo.antt =====
-- `mn_checksum_pseudo` of src/net/mn_checksum.c: the pseudo-header and the datagram together.
use mega_net.Base.{
  Mem, IsBytes, offset, write_at, copy, copy_lem, ltb, if◌then◌else◌, u16, ℕ, ◌+◌, ◌-◌, ◌*◌, ◌/◌,
  ◌^◌, ◌<◌, ◌≡◌, ap, ◌⊎◌, arith,
}
use mega_net.Wire.Checksum.{complement, pseudo_header, checksum_pseudo}
use mega_net.Wire.Checksum.Field.{patch, patch-IsBytes, word_sum-patch, poke-IsBytes}
use mega_net.Wire.Checksum.Laws.{sum16-fold}
use mega_net.Wire.Checksum.Spec.{word_sum, fold}

pub pseudo_header-IsBytes :
    (src dst : Mem) (proto len : ℕ)
    → IsBytes src
    → IsBytes dst
    → proto < 256
    → IsBytes (pseudo_header src dst proto len)
unfolding pseudo_header
pseudo_header-IsBytes src dst proto len hs hd hp =
    patch-IsBytes _ 10 len (poke-IsBytes _ 9 proto hp (poke-IsBytes _ 8 0 (omega arith) addresses))
  where
    addresses : IsBytes (write_at (copy (λ _. 0) src 4) 4 (λ m. copy m dst 4))
    addresses j = ground (
      arith,
      copy_lem (λ _. 0) src 4 j,
      copy_lem (offset (copy (λ _. 0) src 4) 4) dst 4 (j - 4),
      copy_lem (λ _. 0) src 4 (4 + (j - 4)),
      hs j,
      hs (4 + (j - 4)),
      hd (j - 4),
    )

-- Two folded sums added with an end-around carry.
add_folds :
    (x y : ℕ)
    → (let sum = u16 (fold x + fold y) in if ltb sum (fold x) then u16 (sum + 1) else sum)
      ≡ fold (x + y)
add_folds x y = ground arith

-- The pseudo-header checksum is the complement of the folded sum of both parts.
pub checksum_pseudo-fold :
    (src dst : Mem) (proto : ℕ) (p : Mem) (len : ℕ)
    → IsBytes src
    → IsBytes dst
    → proto < 256
    → IsBytes p
    → len < 2 ^ 16
    → checksum_pseudo src dst proto p len
      ≡ complement (fold (word_sum (pseudo_header src dst proto len) 12 + word_sum p len))
unfolding checksum_pseudo
checksum_pseudo-fold src dst proto p len hs hd hp h b =
    rw
      (
        sum16-fold (pseudo_header src dst proto len) 12
            (pseudo_header-IsBytes src dst proto len hs hd hp) (omega arith),
        sum16-fold p len h b,
      )
      (ap complement (add_folds (word_sum (pseudo_header src dst proto len) 12) (word_sum p len)))

-- A datagram whose checksum field, at an even offset, is filled in with the pseudo-header checksum
-- of the datagram with a zero field (or with 0xffff where that is 0) sums to zero.
pub checksum_pseudo-patch :
    (src dst : Mem) (proto : ℕ) (p : Mem) (len k c : ℕ)
    → IsBytes src
    → IsBytes dst
    → proto < 256
    → IsBytes p
    → len < 2 ^ 16
    → k < len / 2
    → let s = checksum_pseudo src dst proto (patch p (k * 2) 0) len in
      (c ≡ s) ⊎ ((s ≡ 0) × (c ≡ 0xffff)) → checksum_pseudo src dst proto (patch p (k * 2) c) len ≡ 0
checksum_pseudo-patch src dst proto p len k c hs hd hp h b g e = ground (
  arith,
  checksum_pseudo-fold src dst proto (patch p (k * 2) 0) len hs hd hp (patch-IsBytes p (k * 2) 0 h)
      b,
  checksum_pseudo-fold src dst proto (patch p (k * 2) c) len hs hd hp (patch-IsBytes p (k * 2) c h)
      b,
  word_sum-patch p len k c,
)
