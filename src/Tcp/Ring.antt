-- ===== src/Tcp/Ring.antt =====
-- The rings of src/net/mn_tcp.c in external memory: `size` bytes at offset `base` of segment `seg`,
-- in which a position wraps. At most two copies.
pub mod Laws
use mega_net.Base.{Mem, offset, write_at, ltb, if◌then◌else◌, u16, u32, sub16, ℕ, ◌+◌, ◌-◌}
use mega_net.Xmem.{xmem_read, xmem_write, xmem_copy_out, xmem_copy_in}

-- `first`: the bytes up to the end of the ring.
abbrev pub first_part : ℕ → ℕ → ℕ → ℕ
first_part size pos len = let first = sub16 size pos in if ltb len first then len else first

unfoldable pub ring_read : Mem → Mem → ℕ → ℕ → ℕ → ℕ → ℕ → Mem
ring_read pool dst seg base size pos len =
    let first = first_part size pos len in
    let d1 = xmem_read pool dst seg (u16 (base + pos)) first in
    if ltb first len
    then write_at d1 first (λ m. xmem_read pool m seg base (u16 (len - first)))
    else d1

unfoldable pub ring_write : Mem → ℕ → ℕ → ℕ → ℕ → Mem → ℕ → Mem
ring_write pool seg base size pos src len =
    let first = first_part size pos len in
    let p1 = xmem_write pool seg (u16 (base + pos)) src first in
    if ltb first len then xmem_write p1 seg base (offset src first) (u16 (len - first)) else p1

-- To and from 28-bit memory, which is the pool's own.
unfoldable pub ring_read_x : Mem → ℕ → ℕ → ℕ → ℕ → ℕ → ℕ → Mem
ring_read_x pool dst seg base size pos len =
    let first = first_part size pos len in
    let p1 = xmem_copy_out pool dst seg (u16 (base + pos)) first in
    if ltb first len then xmem_copy_out p1 (u32 (dst + first)) seg base (u16 (len - first)) else p1

unfoldable pub ring_write_x : Mem → ℕ → ℕ → ℕ → ℕ → ℕ → ℕ → Mem
ring_write_x pool seg base size pos src len =
    let first = first_part size pos len in
    let p1 = xmem_copy_in pool seg (u16 (base + pos)) src first in
    if ltb first len then xmem_copy_in p1 seg base (u32 (src + first)) (u16 (len - first)) else p1
