-- ===== src/Api/Blocks.antt =====
-- The parameter blocks of src/abi/api.c: what a call reads from the caller's memory and writes there.
use mega_net.Base.{
  bit_or-shifted, bit_or_comm, Mem, offset, copy, copy_lem, write_at-inside, ltb, leb,
  if◌then◌else◌, ℕ, ◌+◌, ◌-◌, ◌*◌, ◌^◌, ◌≤◌, ◌<◌, ◌≡◌, ap, ◌∙◌, ◌&&◌, arith,
}
use mega_net.Api.State.{Machine, ptr28, arg_ptr, get16_le, put16_le, fetch_blk, put_out, give_blk}
use mega_net.Xmem.{dma_copy_in, dma_copy_out}

pub dma_copy_in_lem :
    (dst pool : Mem) (src n j : ℕ)
    → dma_copy_in dst src pool n j ≡ (if ltb j n then pool (src + j) else dst j)
unfolding dma_copy_in
dma_copy_in_lem dst pool src n j = ground (arith, copy_lem dst (offset pool src) n j)

pub dma_copy_out_lem :
    (pool src : Mem) (dst n a : ℕ)
    → dma_copy_out pool dst src n a
      ≡ (if leb dst a && ltb a (dst + n) then src (a - dst) else pool a)
unfolding dma_copy_out
dma_copy_out_lem pool src dst n a = ground (arith, copy_lem (offset pool dst) src n (a - dst))

-- A byte that a call hands out.
pub dma_copy_out-inside :
    (pool src : Mem) (dst n j : ℕ) → j < n → dma_copy_out pool dst src n (dst + j) ≡ src j
unfolding dma_copy_out
dma_copy_out-inside pool src dst n j h =
    write_at-inside pool dst (λ m. copy m src n) j
    ∙ ground (arith, copy_lem (offset pool dst) src n j)

-- The registers of a pointer are its three bytes.
pub ptr28_lem : (a x y : ℕ) → a < 256 → x < 256 → y < 256 → ptr28 a x y ≡ a + x * 2 ^ 8 + y * 2 ^ 16
ptr28_lem a x y p q r = ground (
  arith,
  bit_or_comm a (x * 2 ^ 8),
  bit_or-shifted 8 x a,
  bit_or_comm (x * 2 ^ 8 + a) (y * 2 ^ 16),
  bit_or-shifted 16 y (x * 2 ^ 8 + a),
)

pub get16_le_lem :
    (b : Mem) (k : ℕ) → b k < 256 → b (k + 1) < 256 → get16_le b k ≡ b k + b (k + 1) * 2 ^ 8
unfolding get16_le
get16_le_lem b k p q =
    ground (arith, bit_or_comm (b k) (b (k + 1) * 2 ^ 8), bit_or-shifted 8 (b (k + 1)) (b k))

-- A 16-bit number, written and read in its two bytes.
pub get16_le-put16_le : (b : Mem) (k v : ℕ) → v < 2 ^ 16 → get16_le (put16_le b k v) k ≡ v
unfolding put16_le
get16_le-put16_le b k v h = ground (arith, get16_le_lem (put16_le b k v) k)

-- A byte of the block, written back to the caller.
pub give_blk-inside :
    (m : Machine) (k n j : ℕ)
    → k ≤ j
    → j < k + n
    → (give_blk m k n).sys.pool (arg_ptr m + j) ≡ m.blk j
unfolding give_blk put_out
give_blk-inside m k n j h l =
    let e : arg_ptr m + k + (j - k) ≡ arg_ptr m + j = omega arith in
    let i : k + (j - k) ≡ j = omega arith in
    rw (← e) (
      dma_copy_out-inside m.sys.pool (offset m.blk k) (arg_ptr m + k) n (j - k) (omega arith)
      ∙ ap m.blk i)

-- A byte of a block that was fetched.
pub fetch_blk-inside :
    (m : Machine) (n j : ℕ) → j < n → (fetch_blk m n).blk j ≡ m.sys.pool (arg_ptr m + j)
unfolding fetch_blk
fetch_blk-inside m n j h = ground (arith, dma_copy_in_lem m.blk m.sys.pool (arg_ptr m) n j)
