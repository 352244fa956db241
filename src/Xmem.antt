-- ===== src/Xmem.antt =====
-- src/hal/mn_xmem_m65.c: bulk memory outside the image, reached by a segment and a 16-bit offset.
-- Each of its routines is one DMA copy, of `len` bytes in ascending order.
pub mod Laws
use mega_net.Base.{Mem, offset, write_at, copy, ◌==◌, if◌then◌else◌, u32, ℕ, ◌*◌, ◌^◌, bit_or}

-- `ADDR(seg, off)`
unfoldable pub xmem_addr : ℕ → ℕ → ℕ
xmem_addr seg off = bit_or (u32 (seg * 2 ^ 16)) off

-- `mn_dma_copy`: the 28-bit memory `pool`, read into or written from memory of the image.
unfoldable pub dma_copy_in : Mem → ℕ → Mem → ℕ → Mem
dma_copy_in dst src pool count = copy dst (offset pool src) count

unfoldable pub dma_copy_out : Mem → ℕ → Mem → ℕ → Mem
dma_copy_out pool dst src count = write_at pool dst (λ m. copy m src count)

unfoldable pub xmem_read : Mem → Mem → ℕ → ℕ → ℕ → Mem
xmem_read pool dst seg off len =
    if len == 0 then dst else dma_copy_in dst (xmem_addr seg off) pool len

unfoldable pub xmem_write : Mem → ℕ → ℕ → Mem → ℕ → Mem
xmem_write pool seg off src len =
    if len == 0 then pool else dma_copy_out pool (xmem_addr seg off) src len

-- Within the 28-bit memory itself.
unfoldable pub xmem_copy_out : Mem → ℕ → ℕ → ℕ → ℕ → Mem
xmem_copy_out pool dst seg off len =
    if len == 0 then pool else dma_copy_out pool dst (offset pool (xmem_addr seg off)) len

unfoldable pub xmem_copy_in : Mem → ℕ → ℕ → ℕ → ℕ → Mem
xmem_copy_in pool seg off src len =
    if len == 0 then pool else dma_copy_out pool (xmem_addr seg off) (offset pool src) len
