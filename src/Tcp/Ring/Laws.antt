-- ===== src/Tcp/Ring/Laws.antt =====
-- The rings of src/net/mn_tcp.c by the position of a byte.
use mega_net.Base.{
  Mem, offset, ltb, if◌then◌else◌, u16, ℕ, ◌+◌, ◌-◌, ◌*◌, ◌^◌, ◌≤◌, ◌<◌, ◌≡◌, ◌⊎◌, arith,
}
use mega_net.Tcp.Ring.{first_part, ring_read, ring_write}
use mega_net.Xmem.{xmem_read, xmem_write}
use mega_net.Xmem.Laws.{xmem_read_lem, xmem_write_lem}

-- A position below `2 * size`, brought back into the ring.
abbrev pub wrap : ℕ → ℕ → ℕ
wrap size p = if ltb p size then p else p - size

-- The address of the byte `i` places after position `pos`.
abbrev pub cell : ℕ → ℕ → ℕ → ℕ → ℕ → ℕ
cell seg base size pos i = seg * 2 ^ 16 + base + wrap size (pos + i)

module _ (seg base size pos : ℕ) (sp : seg < 2 ^ 16) (bs : base + size ≤ 2 ^ 16)
    (sz : size < 2 ^ 16) (ps : pos < size) where
  pub ring_read_lem :
      (pool dst : Mem) (len j : ℕ)
      → len ≤ size
      → ring_read pool dst seg base size pos len j
        ≡ (if ltb j len then pool (cell seg base size pos j) else dst j)
  unfolding ring_read
  ring_read_lem pool dst len j h =
      let first = first_part size pos len in
      let off = u16 (base + pos) in
      let rest = u16 (len - first) in
      let d1 = xmem_read pool dst seg off first in
      ground (
        arith,
        xmem_read_lem pool dst seg off first j sp (omega arith),
        xmem_read_lem pool (offset d1 first) seg base rest (j - first) sp (omega arith),
        xmem_read_lem pool dst seg off first (first + (j - first)) sp (omega arith),
      )

  -- A write of at most the size of a ring that lies in one segment of memory puts its bytes into
  -- the places from the given position on, around the end of the ring, and leaves the other
  -- places of the ring as they were.
  pub ring_write-cell :
      (pool src : Mem) (len i : ℕ)
      → len ≤ size
      → i < size
      → ring_write pool seg base size pos src len (cell seg base size pos i)
        ≡ (if ltb i len then src i else pool (cell seg base size pos i))
  unfolding ring_write
  ring_write-cell pool src len i h k =
      let first = first_part size pos len in
      let off = u16 (base + pos) in
      let rest = u16 (len - first) in
      let p1 = xmem_write pool seg off src first in
      let a = cell seg base size pos i in
      ground (
        arith,
        xmem_write_lem pool src seg off first a sp (omega arith),
        xmem_write_lem p1 (offset src first) seg base rest a sp (omega arith),
      )

  -- A write of at most the size of a ring that lies in one segment of memory leaves every byte
  -- outside the ring as it was.
  pub ring_write-outside :
      (pool src : Mem) (len a : ℕ)
      → len ≤ size
      → (a < seg * 2 ^ 16 + base) ⊎ (seg * 2 ^ 16 + base + size ≤ a)
      → ring_write pool seg base size pos src len a ≡ pool a
  unfolding ring_write
  ring_write-outside pool src len a h o =
      let first = first_part size pos len in
      let off = u16 (base + pos) in
      let rest = u16 (len - first) in
      let p1 = xmem_write pool seg off src first in
      ground (
        arith,
        xmem_write_lem pool src seg off first a sp (omega arith),
        xmem_write_lem p1 (offset src first) seg base rest a sp (omega arith),
      )
