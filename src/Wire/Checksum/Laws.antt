-- ===== src/Wire/Checksum/Laws.antt =====
-- The accumulation of src/net/mn_checksum.c and the folded sum of the words.
use mega_net.Base.{
  Mem, IsBytes, offset, ◌==◌, if◌then◌else◌, lt→ltb, le→not-ltb, Bool-cases, u16, ℕ, zero, suc, ◌+◌,
  ◌-◌, ◌*◌, ◌/◌, ◌%◌, ◌^◌, ◌≤◌, ◌<◌, ◌≡◌, refl, ap, ◌∙◌, inl, inr, arith,
}
use mega_net.Wire.Byteorder.{get16}
use mega_net.Wire.Byteorder.Laws.{get16_sum}
use mega_net.Wire.Checksum.{end_around, trailing, sum16_from, sum16}
use mega_net.Wire.Checksum.Spec.{words, odd_byte, word_sum, fold}
use native.Mathlib.Nat.{add-zero, mod-eq_of_lt}

pub end_around-fold : (s w : ℕ) → w < 2 ^ 16 → end_around (fold s) w ≡ fold (s + w)
unfolding end_around
end_around-fold s w h = ground arith

abbrev rest_byte : Mem → ℕ → ℕ → ℕ
rest_byte p len i = if len - i == 1 then p i * 256 else 0

trailing-fold :
    (p : Mem) (len i s : ℕ)
    → IsBytes p
    → i ≤ len
    → len ≤ i + 1
    → trailing p len i (fold s) ≡ fold (s + rest_byte p len i)
unfolding trailing
trailing-fold p len i s h a b = ground (arith, h i, end_around-fold s (p i * 256))

step_fold :
    (p : Mem) (i s : ℕ)
    → IsBytes p
    → end_around (fold s) (get16 (offset p i)) ≡ fold (s + (p i * 256 + p (i + 1)))
step_fold p i s h = ground (
  arith,
  h i,
  h (i + 1),
  get16_sum (offset p i),
  ap p (add-zero i),
  end_around-fold s (p i * 256 + p (i + 1)),
)

fold-no_words :
    (p : Mem) (len i s : ℕ)
    → fold (s + rest_byte p len i) ≡ fold (s + 0 + rest_byte p len (i + 0 * 2))
fold-no_words p len i s =
    ap fold (omega (arith, ap (λ (t : ℕ). rest_byte p len t) {x = i} {y = i + 0 * 2} (omega arith)))

fold_regroup :
    (s w : ℕ) (p : Mem) (i n len : ℕ)
    → fold (s + w + words p (i + 2) n + rest_byte p len (i + 2 + n * 2))
      ≡ fold (s + (w + words p (i + 2) n) + rest_byte p len (i + suc n * 2))
fold_regroup s w p i n len = ap fold (
    omega (
      arith,
      ap (λ (t : ℕ). rest_byte p len t) {x = i + 2 + n * 2} {y = i + suc n * 2} (omega arith),
    ))

-- From an even distance on, the loop adds the words that are left and the odd byte.
sum16_from-fold :
    (n f : ℕ) (p : Mem) (len i s : ℕ)
    → IsBytes p
    → len < 2 ^ 16
    → i % 2 ≡ 0
    → n ≤ f
    → i + n * 2 ≤ len
    → len ≤ i + n * 2 + 1
    → sum16_from f p len i (fold s) ≡ fold (s + words p i n + rest_byte p len (i + n * 2))
unfolding sum16_from
sum16_from-fold zero zero p len i s h b g c d e =
    trailing-fold p len i s h (omega arith) (omega arith) ∙ fold-no_words p len i s
sum16_from-fold zero (suc f) p len i s h b g c d e =
    rw (le→not-ltb (u16 (i + 1)) len (omega arith), sum16_from)
      (trailing-fold p len i s h (omega arith) (omega arith) ∙ fold-no_words p len i s)
sum16_from-fold (suc n) zero p len i s h b g c d e = absurd (omega arith)
sum16_from-fold (suc n) (suc f) p len i s h b g c d e =
    rw
      (
        lt→ltb (u16 (i + 1)) len (omega arith),
        sum16_from,
        step_fold p i s h,
        mod-eq_of_lt {n = i + 2} {m = 2 ^ 16} (omega arith),
      )
      (sum16_from-fold n f p len (i + 2) (s + (p i * 256 + p (i + 1))) h b (omega arith)
          (omega arith) (omega arith) (omega arith)
        ∙ fold_regroup s (p i * 256 + p (i + 1)) p i n len)

rest_byte-odd_byte : (p : Mem) (len : ℕ) → rest_byte p len (0 + len / 2 * 2) ≡ odd_byte p len
rest_byte-odd_byte p len = elim (Bool-cases (len % 2 == 1)) [
  | inl odd ↦ ground (arith, ap p {x = 0 + len / 2 * 2} {y = len - 1} (ground arith))
  | inr even ↦ ground arith
]

-- The 16-bit accumulation over the bytes of a packet is the folded sum of its big-endian words.
pub sum16-fold :
    (p : Mem) (len : ℕ) → IsBytes p → len < 2 ^ 16 → sum16 p len ≡ fold (word_sum p len)
unfolding sum16 word_sum
sum16-fold p len h b =
    sum16_from-fold (len / 2) len p len 0 0 h b refl (omega arith) (omega arith) (omega arith)
    ∙ ap fold (omega (arith, rest_byte-odd_byte p len))
