-- ===== src/Base/Bits.antt =====
-- `&` with a low mask and `|` of disjoint fields, as arithmetic.
use Prim.Native.Nat.{
  ℕ, zero, suc, ◌+◌, ◌*◌, ◌/◌, ◌%◌, ◌^◌, ◌≤◌, ◌<◌, min, max, bit_and, bit_or, digits,
  bit_and-bitwise, bit_or-bitwise,
}
use mathlib.Core.Path.{◌≡◌, refl, ap}
use native.Mathlib.Nat.{pow-suc}
use native.Mathlib.Omega.{arith}

-- The digit recursion does not depend on its fuel, once there is enough.
module _ (rest : ℕ → ℕ) (digit : ℕ → ℕ → ℕ) where
  enough : (f g a b : ℕ) → a ≤ f → a ≤ g → digits rest digit f a b ≡ digits rest digit g a b
  enough zero zero a b p q = refl
  enough zero (suc g) zero b p q = refl
  enough zero (suc g) (suc a) b p q = absurd (omega arith)
  enough (suc f) zero zero b p q = refl
  enough (suc f) zero (suc a) b p q = absurd (omega arith)
  enough (suc f) (suc g) zero b p q = refl
  enough (suc f) (suc g) (suc a) b p q =
      omega (arith, enough f g (suc a / 2) (b / 2) (omega arith) (omega arith))

or_halves : (a b : ℕ) → bit_or a b ≡ 2 * bit_or (a / 2) (b / 2) + max (a % 2) (b % 2)
or_halves zero b = omega (arith, bit_or-bitwise 0 b, bit_or-bitwise 0 (b / 2))
or_halves (suc a) b = omega (
  arith,
  bit_or-bitwise (suc a) b,
  bit_or-bitwise (suc a / 2) (b / 2),
  enough (λ x. x) max a (suc a / 2) (suc a / 2) (b / 2) (omega arith) (omega arith),
)

and_halves : (a b : ℕ) → bit_and a b ≡ 2 * bit_and (a / 2) (b / 2) + min (a % 2) (b % 2)
and_halves zero b = omega (arith, bit_and-bitwise 0 b, bit_and-bitwise 0 (b / 2))
and_halves (suc a) b = omega (
  arith,
  bit_and-bitwise (suc a) b,
  bit_and-bitwise (suc a / 2) (b / 2),
  enough (λ x. 0) min a (suc a / 2) (suc a / 2) (b / 2) (omega arith) (omega arith),
)

-- With nothing on the right; the first argument bounds the second.
or_nothing : (n a : ℕ) → a ≤ n → bit_or a 0 ≡ a
or_nothing zero a h = rw (zero_of a h) refl
  where
    zero_of : (a : ℕ) → a ≤ 0 → a ≡ 0
    zero_of a h = omega arith
or_nothing (suc n) zero h = refl
or_nothing (suc n) (suc a) h =
    omega (arith, or_halves (suc a) 0, or_nothing n (suc a / 2) (omega arith))

and_nothing : (n a : ℕ) → a ≤ n → bit_and a 0 ≡ 0
and_nothing n zero h = refl
and_nothing zero (suc a) h = absurd (omega arith)
and_nothing (suc n) (suc a) h =
    omega (arith, and_halves (suc a) 0, and_nothing n (suc a / 2) (omega arith))

-- `(q << k) | r` is a sum where `r` fits into `k` bits.
pub bit_or-shifted : (k q r : ℕ) → r < 2 ^ k → bit_or (q * 2 ^ k) r ≡ q * 2 ^ k + r
bit_or-shifted zero q r h = ground (arith, or_nothing q q)
bit_or-shifted (suc k) q r h = ground (
  arith,
  or_halves (q * 2 ^ suc k) r,
  pow-suc 2 k,
  ap (λ (t : ℕ). q * t) (pow-suc 2 k),
  bit_or-shifted k q (r / 2) (omega (arith, pow-suc 2 k)),
)

or_comm_below : (n a b : ℕ) → a ≤ n → b ≤ n → bit_or a b ≡ bit_or b a
or_comm_below zero zero zero p q = refl
or_comm_below zero zero (suc b) p q = absurd (omega arith)
or_comm_below zero (suc a) b p q = absurd (omega arith)
or_comm_below (suc n) a b p q = omega (
  arith,
  or_halves a b,
  or_halves b a,
  or_comm_below n (a / 2) (b / 2) (omega arith) (omega arith),
)

pub bit_or_comm : (a b : ℕ) → bit_or a b ≡ bit_or b a
bit_or_comm a b = or_comm_below (a + b) a b (omega arith) (omega arith)

-- `a & (2^k - 1)` is a remainder: at the masks that the program uses.
pub bit_and-1 : (a : ℕ) → bit_and a 1 ≡ a % 2
bit_and-1 a = omega (arith, and_halves a 1, and_nothing (a / 2) (a / 2))

pub bit_and-7 : (a : ℕ) → bit_and a 7 ≡ a % 8
bit_and-7 a = omega (arith, and_halves a 7, and_halves (a / 2) 3, bit_and-1 (a / 2 / 2))

pub bit_and-15 : (a : ℕ) → bit_and a 15 ≡ a % 16
bit_and-15 a = omega (arith, and_halves a 15, bit_and-7 (a / 2))

bit_and-127 : (a : ℕ) → bit_and a 127 ≡ a % 128
bit_and-127 a = omega (
  arith,
  and_halves a 127,
  and_halves (a / 2) 63,
  and_halves (a / 2 / 2) 31,
  bit_and-15 (a / 2 / 2 / 2),
)

pub bit_and-255 : (a : ℕ) → bit_and a 255 ≡ a % 256
bit_and-255 a = omega (arith, and_halves a 255, bit_and-127 (a / 2))

-- `|` stays in the width of its operands.
pub bit_or_lt : (k a b : ℕ) → a < 2 ^ k → b < 2 ^ k → bit_or a b < 2 ^ k
bit_or_lt zero zero zero p q = omega arith
bit_or_lt zero zero (suc b) p q = absurd (omega arith)
bit_or_lt zero (suc a) b p q = absurd (omega arith)
bit_or_lt (suc k) a b p q = omega (
  arith,
  or_halves a b,
  pow-suc 2 k,
  bit_or_lt k (a / 2) (b / 2) (omega (arith, pow-suc 2 k)) (omega (arith, pow-suc 2 k)),
)

bit_and-4095 : (a : ℕ) → bit_and a 4095 ≡ a % 4096
bit_and-4095 a = omega (
  arith,
  and_halves a 4095,
  and_halves (a / 2) 2047,
  and_halves (a / 2 / 2) 1023,
  and_halves (a / 2 / 2 / 2) 511,
  bit_and-255 (a / 2 / 2 / 2 / 2),
)

pub bit_and-65535 : (a : ℕ) → bit_and a 65535 ≡ a % 65536
bit_and-65535 a = omega (
  arith,
  and_halves a 65535,
  and_halves (a / 2) 32767,
  and_halves (a / 2 / 2) 16383,
  and_halves (a / 2 / 2 / 2) 8191,
  bit_and-4095 (a / 2 / 2 / 2 / 2),
)
