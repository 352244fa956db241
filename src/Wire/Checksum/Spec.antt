-- ===== src/Wire/Checksum/Spec.antt =====
-- The checksum as RFC 1071 describes it: add the big-endian words as numbers, then fold the
-- carries. Nothing here follows the code of mn_checksum.c.
use mega_net.Base.{ℕ, zero, suc, ◌+◌, ◌-◌, ◌*◌, ◌/◌, ◌%◌, Mem, ◌==◌, if◌then◌else◌}

-- The words at `i`, `i + 2`, ...
abbrev pub words : Mem → ℕ → ℕ → ℕ
words p i zero = 0
words p i (suc n) = p i * 256 + p (i + 1) + words p (i + 2) n

-- The byte that an odd length leaves over is the high half of a word.
abbrev pub odd_byte : Mem → ℕ → ℕ
odd_byte p len = if len % 2 == 1 then p (len - 1) * 256 else 0

unfoldable pub word_sum : Mem → ℕ → ℕ
word_sum p len = words p 0 (len / 2) + odd_byte p len

-- Folding carries back in until 16 bits are left: zero stays zero, and any other sum becomes its
-- representative modulo 0xffff from 1 to 0xffff.
abbrev pub fold : ℕ → ℕ
fold s = if s == 0 then 0 else (s - 1) % 0xffff + 1
