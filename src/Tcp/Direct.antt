-- ===== src/Tcp/Direct.antt =====
-- Sends and receives of src/net/mn_tcp.c straight from and to memory outside the image, as the plain
-- ones on the bytes there.
pub mod Calls
use mega_net.Base.{
  Mem, offset, copy_lem, ltb, leb, if◌then◌else◌, lt→ltb, le→not-ltb, Bool-cases, u16, u32, ℕ, ◌+◌,
  ◌-◌, ◌*◌, ◌^◌, ◌≤◌, ◌<◌, ◌≡◌, refl, ap, ◌∙◌, ◌⊎◌, inl, inr, true, false, ◌&&◌, arith,
}
use mega_net.Tcp.Ring.{first_part, ring_write, ring_read_x, ring_write_x}
use mega_net.Tcp.Ring.Laws.{cell}
use mega_net.Xmem.{xmem_addr, dma_copy_out, xmem_write, xmem_copy_out, xmem_copy_in}
use mega_net.Xmem.Laws.{xmem_addr_sum, xmem_write_lem}

-- `n` bytes from `a` and `size` bytes from `b` have none in common.
abbrev pub Apart : ℕ → ℕ → ℕ → ℕ → Type 0
Apart a n b size = (a + n ≤ b) ⊎ (b + size ≤ a)

copy_in-write :
    (pool : Mem) (seg off src n : ℕ)
    → xmem_copy_in pool seg off src n ≡ xmem_write pool seg off (offset pool src) n
unfolding xmem_copy_in xmem_write
copy_in-write pool seg off src n = refl

copy_out_lem :
    (pool : Mem) (dst seg off n a : ℕ)
    → seg < 2 ^ 16
    → off < 2 ^ 16
    → xmem_copy_out pool dst seg off n a
      ≡ (if leb dst a && ltb a (dst + n) then pool (seg * 2 ^ 16 + off + (a - dst)) else pool a)
unfolding xmem_copy_out dma_copy_out
copy_out_lem pool dst seg off n a p q = ground (
  arith,
  copy_lem (offset pool dst) (offset pool (xmem_addr seg off)) n (a - dst),
  xmem_addr_sum seg off p q,
)

-- A ring's bytes in two parts, the second from its start.
two_parts :
    (pool : Mem) (dst seg base size pos f r a : ℕ)
    → seg < 2 ^ 16
    → base + size ≤ 2 ^ 16
    → 0 < f
    → pos + f ≡ size
    → r ≤ pos
    → Apart dst (f + r) (seg * 2 ^ 16 + base) size
    → xmem_copy_out (xmem_copy_out pool dst seg (base + pos) f) (dst + f) seg base r a ≡ (
        if leb dst a && ltb a (dst + (f + r))
        then pool (cell seg base size pos (a - dst))
        else pool a)
two_parts pool dst seg base size pos f r a sp bs z e l o =
    let p1 = xmem_copy_out pool dst seg (base + pos) f in
    let c = seg * 2 ^ 16 + base + (a - (dst + f)) in
    ground (
      arith,
      copy_out_lem pool dst seg (base + pos) f a sp (omega arith),
      copy_out_lem p1 (dst + f) seg base r a sp (omega arith),
      copy_out_lem pool dst seg (base + pos) f c sp (omega arith),
    )

-- Writing reads the source in two parts as well; the first part written does not reach the second.
two_parts_in :
    (pool : Mem) (src seg base size pos f r a : ℕ)
    → seg < 2 ^ 16
    → base + size ≤ 2 ^ 16
    → 0 < f
    → pos + f ≡ size
    → r ≤ pos
    → Apart src (f + r) (seg * 2 ^ 16 + base) size
    → let p1 = xmem_write pool seg (base + pos) (offset pool src) f in
      xmem_write p1 seg base (offset p1 (src + f)) r a
      ≡ xmem_write p1 seg base (offset (offset pool src) f) r a
two_parts_in pool src seg base size pos f r a sp bs z e l o =
    let p1 = xmem_write pool seg (base + pos) (offset pool src) f in
    let c = src + f + (a - (seg * 2 ^ 16 + base)) in
    ground (
      arith,
      xmem_write_lem p1 (offset p1 (src + f)) seg base r a sp (omega arith),
      xmem_write_lem p1 (offset (offset pool src) f) seg base r a sp (omega arith),
      xmem_write_lem pool (offset pool src) seg (base + pos) f c sp (omega arith),
    )

module _ (seg base size pos : ℕ) (sp : seg < 2 ^ 16) (bs : base + size ≤ 2 ^ 16)
    (sz : size < 2 ^ 16) (ps : pos < size) where
  -- Where the copies are cut: one that fits before the end of the ring, or two.
  first-whole : (len : ℕ) → leb len (size - pos) ≡ true → first_part size pos len ≡ len
  first-whole len h = ground arith

  first-cut : (len : ℕ) → leb len (size - pos) ≡ false → first_part size pos len ≡ size - pos
  first-cut len h = ground arith

  off-lem : u16 (base + pos) ≡ base + pos
  off-lem = omega arith

  cut-lt : (len : ℕ) → leb len (size - pos) ≡ false → size - pos < len
  cut-lt len e = ground arith

  parts : (len : ℕ) → leb len (size - pos) ≡ false → size - pos + (len - (size - pos)) ≡ len
  parts len e = omega (arith, cut-lt len e)

  rest-lem : (len : ℕ) → len ≤ size → u16 (len - (size - pos)) ≡ len - (size - pos)
  rest-lem len h = omega arith

  wide :
      (a len : ℕ)
      → leb len (size - pos) ≡ false
      → a + len ≤ 2 ^ 32
      → u32 (a + (size - pos)) ≡ a + (size - pos)
  wide a len e w = omega (arith, cut-lt len e)

  pub ring_write_x-ring_write :
      (pool : Mem) (src len a : ℕ)
      → len ≤ size
      → src + len ≤ 2 ^ 32
      → Apart src len (seg * 2 ^ 16 + base) size
      → ring_write_x pool seg base size pos src len a
        ≡ ring_write pool seg base size pos (offset pool src) len a
  unfolding ring_write_x ring_write xmem_copy_in xmem_write
  ring_write_x-ring_write pool src len a h w o = elim (Bool-cases (leb len (size - pos))) [
    | inl e ↦ rw (first-whole len e) (rw (le→not-ltb len len (omega arith)) refl)
    | inr e ↦
        let long : size - pos < len = cut-lt len e in
        rw (first-cut len e) (
          rw (lt→ltb (size - pos) len long) (
            rw (off-lem, rest-lem len h, wide src len e w)
              (two_parts_in pool src seg base size pos (size - pos) (len - (size - pos)) a sp bs
                (omega arith) (omega arith) (omega arith) (rw (parts len e) o))))
  ]

  pub ring_read_x_lem :
      (pool : Mem) (dst len a : ℕ)
      → len ≤ size
      → dst + len ≤ 2 ^ 32
      → Apart dst len (seg * 2 ^ 16 + base) size
      → ring_read_x pool dst seg base size pos len a ≡ (
          if leb dst a && ltb a (dst + len)
          then pool (cell seg base size pos (a - dst))
          else pool a)
  unfolding ring_read_x
  ring_read_x_lem pool dst len a h w o = elim (Bool-cases (leb len (size - pos))) [
    | inl e ↦ rw (first-whole len e) (
        rw (le→not-ltb len len (omega arith)) (
          rw off-lem
            (ground (arith, copy_out_lem pool dst seg (base + pos) len a sp (omega arith)))))
    | inr e ↦
        let long : size - pos < len = cut-lt len e in
        rw (first-cut len e) (
          rw (lt→ltb (size - pos) len long) (
            rw (off-lem, rest-lem len h, wide dst len e w)
              (two_parts pool dst seg base size pos (size - pos) (len - (size - pos)) a sp bs
                  (omega arith) (omega arith) (omega arith) (rw (parts len e) o)
                ∙ ap
                    (λ (n : ℕ).
                      if leb dst a && ltb a (dst + n)
                      then pool (cell seg base size pos (a - dst))
                      else pool a)
                    (parts len e))))
  ]
