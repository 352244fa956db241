-- ===== src/Api/State.antt =====
-- The state of src/abi/api.c: the stack, the mailboxes of a call and the parameter block.
use mega_net.Base.{
  Mem, poke, offset, u8, u16, u32, ℕ, ◌+◌, ◌-◌, ◌*◌, ◌/◌, ◌%◌, ◌^◌, bit_or, Bool, true, false,
}
use mega_net.Dhcp.State.{Dhcp}
use mega_net.Dns.Client.{Dns}
use mega_net.Net.State.{Sys}
use mega_net.Ntp.Client.{Ntp}
use mega_net.Tcp.State.{TcpSet}
use mega_net.Xmem.{dma_copy_in, dma_copy_out}

abbrev pub abi_major : ℕ
abi_major = 0

abbrev pub abi_minor : ℕ
abi_minor = 2

abbrev pub abi_tcp_sockets : ℕ
abi_tcp_sockets = 8

abbrev pub pool_bank5 : ℕ
pool_bank5 = 0x50000

-- Everything behind the jump table. `a` to `z` are the registers that a call comes with, `ra` to `rz`
-- those that it leaves; `window` is what the CPU sees during a call; the caller's memory and the socket buffers are in `sys.pool`, the memory of
-- 28-bit addresses, and `frame` is `sys.rxf`.
pub record Machine : Type 0 where
  pub sys : Sys
  pub dhcp : Dhcp
  pub dns : Dns
  pub ntp : Ntp
  pub tcpset : TcpSet
  pub pool_kind : ℕ
  pub pool_base : ℕ
  pub window_irqs : ℕ
  pub name : Mem
  pub ticks : ℕ
  pub last_frame : ℕ
  pub blk : Mem
  pub window : Mem
  pub a : ℕ
  pub x : ℕ
  pub y : ℕ
  pub z : ℕ
  pub ra : ℕ
  pub rx : ℕ
  pub ry : ℕ
  pub rz : ℕ

-- `tick`, with the frame counter at `f`.
unfoldable pub tick : ℕ → Machine → Machine
tick f m = record m { ticks = u16 (m.ticks + (f + 2 ^ 8 - m.last_frame) % 2 ^ 8); last_frame = f }

-- `b[0] | b[1] << 8 | b[2] << 16`
abbrev pub ptr28 : ℕ → ℕ → ℕ → ℕ
ptr28 a x y = bit_or (bit_or a (u32 (x * 2 ^ 8))) (u32 (y * 2 ^ 16))

unfoldable pub arg_ptr : Machine → ℕ
arg_ptr m = ptr28 m.a m.x m.y

abbrev pub ret : Machine → ℕ → ℕ → ℕ → ℕ → Machine
ret m a x y z = record m { ra = a; rx = x; ry = y; rz = z }

unfoldable pub blk_ptr : Machine → ℕ
blk_ptr m = ptr28 (m.blk 0) (m.blk 1) (m.blk 2)

-- `(uint16_t)(blk[k] | ((uint16_t)blk[k + 1] << 8))`
unfoldable pub get16_le : Mem → ℕ → ℕ
get16_le b k = u16 (bit_or (b k) (u16 (b (k + 1) * 2 ^ 8)))

-- `put16(blk + k, v)`
unfoldable pub put16_le : Mem → ℕ → ℕ → Mem
put16_le b k v = poke (poke b k (u8 v)) (k + 1) (u8 (v / 2 ^ 8))

abbrev pub flag : Bool → ℕ
flag true = 1
flag false = 0

abbrev pub set_sys : Machine → Sys → Machine
set_sys m s = record m { sys = s }

-- `mn_dma_copy(arg_ptr(), MN_PHYS(blk), n)`
unfoldable pub fetch_blk : Machine → ℕ → Machine
fetch_blk m n = record m { blk = dma_copy_in m.blk (arg_ptr m) m.sys.pool n }

-- `mn_dma_copy(MN_PHYS(src), dst, n)`
unfoldable pub put_out : Machine → ℕ → Mem → ℕ → Machine
put_out m dst src n = set_sys m (record m.sys { pool = dma_copy_out m.sys.pool dst src n })

-- `mn_dma_copy(MN_PHYS(blk + k), arg_ptr() + k, n)`
unfoldable pub give_blk : Machine → ℕ → ℕ → Machine
give_blk m k n = put_out m (arg_ptr m + k) (offset m.blk k) n

-- `mn_dma_copy(src, MN_PHYS(frame), n)`
unfoldable pub fetch_frame : Machine → ℕ → ℕ → Machine
fetch_frame m src n = set_sys m (record m.sys { rxf = dma_copy_in m.sys.rxf src m.sys.pool n })

-- A block of a pointer and a length, as a call fetches it.
abbrev pub buffer_at : Machine → ℕ
buffer_at m = blk_ptr (fetch_blk m 5)

abbrev pub buffer_len : Machine → ℕ
buffer_len m = get16_le (fetch_blk m 5).blk 3
