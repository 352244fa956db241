-- ===== src/Base/Memory.antt =====
-- Byte memory. A `uint8_t *` is the memory that it points to: the byte at each offset from it.
use mega_net.Base.Tests.{ltb, leb, ◌==◌, if◌then◌else◌}
use Prim.Native.Nat.{ℕ, zero, suc, ◌+◌, ◌-◌, ◌≤◌, ◌<◌}
use mathlib.Core.Path.{◌≡◌, refl, sym, ap, fun_ext}
use mathlib.Core.Bool.{Bool, true, ◌&&◌}
use native.Mathlib.Omega.{arith}

abbrev pub Mem : Type 0
Mem = ℕ → ℕ

-- Every cell holds a byte.
abbrev pub IsBytes : Mem → Type 0
IsBytes m = (i : ℕ) → m i < 256

-- `p[i] = v`
abbrev pub poke : Mem → ℕ → ℕ → Mem
poke m i v = λ j. if j == i then v else m j

-- `p + k`, read through.
abbrev pub offset : Mem → ℕ → Mem
offset m k = λ i. m (k + i)

-- A routine that writes through `p + k`: what it does to the memory at `p`.
abbrev pub write_at : Mem → ℕ → (Mem → Mem) → Mem
write_at m k f = λ j. if ltb j k then m j else f (offset m k) (j - k)

-- `for (i = 0; i < n; i++) dst[i] = src[i]`, with `n` rounds left at `i`.
unfoldable pub copy_from : ℕ → ℕ → Mem → Mem → Mem
copy_from zero i dst src = dst
copy_from (suc n) i dst src = copy_from n (i + 1) (poke dst i (src i)) src

unfoldable pub copy : Mem → Mem → ℕ → Mem
unfolding copy_from
copy dst src n = copy_from n 0 dst src

-- `for (i = 0; i < n; i++) if (a[i] != b[i]) return 0; return 1`
unfoldable pub eq_from : ℕ → ℕ → Mem → Mem → Bool
eq_from zero i a b = true
eq_from (suc n) i a b = a i == b i && eq_from n (i + 1) a b

unfoldable pub eq : Mem → Mem → ℕ → Bool
unfolding eq_from
eq a b n = eq_from n 0 a b

-- Bytes given one by one, for addresses.
abbrev pub mem4 : ℕ → ℕ → ℕ → ℕ → Mem
mem4 a b c d = poke (poke (poke (poke (λ _. 0) 0 a) 1 b) 2 c) 3 d

pub copy_from_lem :
    (n i : ℕ) (dst src : Mem) (j : ℕ)
    → copy_from n i dst src j ≡ (if leb i j && ltb j (i + n) then src j else dst j)
unfolding copy_from
copy_from_lem zero i dst src j = ground arith
copy_from_lem (suc n) i dst src j =
    ground (arith, copy_from_lem n (i + 1) (poke dst i (src i)) src j)

-- The copy loop replaces the first `n` bytes and no other.
pub copy_lem : (dst src : Mem) (n j : ℕ) → copy dst src n j ≡ (if ltb j n then src j else dst j)
unfolding copy
copy_lem dst src n j = ground (arith, copy_from_lem n 0 dst src j)

pub copy-IsBytes : (dst src : Mem) (n : ℕ) → IsBytes dst → IsBytes src → IsBytes (copy dst src n)
copy-IsBytes dst src n hd hs j = ground (arith, copy_lem dst src n j, hd j, hs j)

pub offset-write_at : (m : Mem) (k : ℕ) (f : Mem → Mem) → offset (write_at m k f) k ≡ f (offset m k)
offset-write_at m k f = fun_ext λ i. ground arith

pub eq_from_sound :
    (n i : ℕ) (a b : Mem) (j : ℕ) → eq_from n i a b ≡ true → i ≤ j → j < i + n → a j ≡ b j
unfolding eq_from
eq_from_sound zero i a b j h p q = absurd (omega arith)
eq_from_sound (suc n) i a b j h p q = ground (arith, eq_from_sound n (i + 1) a b j)

pub eq_from_complete :
    (n i : ℕ) (a b : Mem) → ((j : ℕ) → j < i + n → a j ≡ b j) → eq_from n i a b ≡ true
unfolding eq_from
eq_from_complete zero i a b h = refl
eq_from_complete (suc n) i a b h =
    ground (arith, h i, eq_from_complete n (i + 1) a b (λ j q. h j (omega arith)))

eq_from_congr :
    (n i : ℕ) (a b q : Mem) → ((j : ℕ) → j < i + n → a j ≡ b j) → eq_from n i a q ≡ eq_from n i b q
unfolding eq_from
eq_from_congr zero i a b q h = refl
eq_from_congr (suc n) i a b q h =
    ground (arith, h i, eq_from_congr n (i + 1) a b q (λ j k. h j (omega arith)))

-- A copied field compares as the field that it was copied from.
pub eq-copy : (dst src q : Mem) (n : ℕ) → eq (copy dst src n) q n ≡ eq src q n
unfolding eq
eq-copy dst src q n =
    eq_from_congr n 0 (copy dst src n) src q (λ j h. ground (arith, copy_lem dst src n j))

pub eq-same : (a : Mem) (n : ℕ) → eq a a n ≡ true
unfolding eq
eq-same a n = eq_from_complete n 0 a a (λ j h. refl)

-- Comparing a field by another that is equal to it.
pub eq_trans : (a b q : Mem) (n : ℕ) → eq a b n ≡ true → eq a q n ≡ eq b q n
unfolding eq
eq_trans a b q n h =
    eq_from_congr n 0 a b q (λ j k. eq_from_sound n 0 a b j h (omega arith) (omega arith))

pub eq_comm : (a b : Mem) (n : ℕ) → eq a b n ≡ true → eq b a n ≡ true
unfolding eq
eq_comm a b n h =
    eq_from_complete n 0 b a (λ j k. sym (eq_from_sound n 0 a b j h (omega arith) (omega arith)))

-- A comparison looks at the bytes compared only.
pub eq_congr : (a b q : Mem) (n : ℕ) → ((j : ℕ) → j < n → a j ≡ b j) → eq a q n ≡ eq b q n
unfolding eq
eq_congr a b q n h = eq_from_congr n 0 a b q (λ j k. h j (omega arith))

pub write_at-before : (m : Mem) (k : ℕ) (f : Mem → Mem) (j : ℕ) → j < k → write_at m k f j ≡ m j
write_at-before m k f j h = ground arith

pub write_at-inside :
    (m : Mem) (k : ℕ) (f : Mem → Mem) (i : ℕ) → write_at m k f (k + i) ≡ f (offset m k) i
write_at-inside m k f i = ap (λ (g : Mem). g i) (offset-write_at m k f)

pub write_at-IsBytes :
    (m : Mem) (k : ℕ) (f : Mem → Mem)
    → IsBytes m
    → IsBytes (f (offset m k))
    → IsBytes (write_at m k f)
write_at-IsBytes m k f h g j = ground (arith, h j, g (j - k))
