-- ===== src/Xmem/Laws.antt =====
-- The transfers of src/hal/mn_xmem_m65.c, byte by byte.
use mega_net.Base.{
  bit_or-shifted, Mem, offset, copy_lem, ltb, leb, if◌then◌else◌, ℕ, ◌+◌, ◌-◌, ◌*◌, ◌^◌, ◌<◌, ◌≡◌,
  ◌&&◌, arith,
}
use mega_net.Xmem.{xmem_addr, dma_copy_in, dma_copy_out, xmem_read, xmem_write}

pub xmem_addr_sum :
    (seg off : ℕ) → seg < 2 ^ 16 → off < 2 ^ 16 → xmem_addr seg off ≡ seg * 2 ^ 16 + off
unfolding xmem_addr
xmem_addr_sum seg off p q = ground (arith, bit_or-shifted 16 seg off)

pub xmem_read_lem :
    (pool dst : Mem) (seg off len j : ℕ)
    → seg < 2 ^ 16
    → off < 2 ^ 16
    → xmem_read pool dst seg off len j
      ≡ (if ltb j len then pool (seg * 2 ^ 16 + off + j) else dst j)
unfolding xmem_read dma_copy_in
xmem_read_lem pool dst seg off len j p q =
    ground (arith, copy_lem dst (offset pool (xmem_addr seg off)) len j, xmem_addr_sum seg off p q)

pub xmem_write_lem :
    (pool src : Mem) (seg off len a : ℕ)
    → seg < 2 ^ 16
    → off < 2 ^ 16
    → xmem_write pool seg off src len a ≡ (
        if leb (seg * 2 ^ 16 + off) a && ltb a (seg * 2 ^ 16 + off + len)
        then src (a - (seg * 2 ^ 16 + off))
        else pool a)
unfolding xmem_write dma_copy_out
xmem_write_lem pool src seg off len a p q = ground (
  arith,
  copy_lem (offset pool (xmem_addr seg off)) src len (a - xmem_addr seg off),
  xmem_addr_sum seg off p q,
)
