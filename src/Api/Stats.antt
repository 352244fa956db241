-- ===== src/Api/Stats.antt =====
-- The counters as src/abi/api.c hands them out.
use mega_net.Base.{Mem, offset, u8, ℕ, ◌+◌, ◌/◌, ◌^◌, ◌<◌, ◌≡◌, refl, arith}
use mega_net.Api.Blocks.{get16_le_lem, give_blk-inside}
use mega_net.Api.Config.{net_stats, dhcp_stats, stats_blk, api_get_stats}
use mega_net.Api.State.{Machine, arg_ptr, get16_le, put16_le, give_blk}

-- The counters are 16-bit words.
pub record HasCounts (m : Machine) : Type 0 where
  pub rx_frames : m.sys.net.rx_frames < 2 ^ 16
  pub arp_replies : m.sys.net.arp_replies < 2 ^ 16
  pub echo_replies : m.sys.net.echo_replies < 2 ^ 16
  pub tx_failures : m.sys.net.tx_failures < 2 ^ 16
  pub arp_learned : m.sys.net.arp_learned < 2 ^ 16
  pub udp_rx : m.sys.net.udp_rx < 2 ^ 16
  pub udp_dropped : m.sys.net.udp_dropped < 2 ^ 16
  pub rx_count : m.dhcp.rx_count < 2 ^ 16
  pub last_len : m.dhcp.last_len < 2 ^ 16
  pub window_irqs : m.window_irqs < 2 ^ 16
  pub rst_sent : m.tcpset.rst_sent < 2 ^ 16

-- The fields of the block at `b`.
abbrev pub Tells : Mem → Machine → Type 0
Tells b m =
    (get16_le b 0 ≡ m.sys.net.rx_frames)
    × (get16_le b 2 ≡ m.sys.net.arp_replies)
    × (get16_le b 4 ≡ m.sys.net.echo_replies)
    × (get16_le b 6 ≡ m.sys.net.tx_failures)
    × (get16_le b 8 ≡ m.sys.net.arp_learned)
    × (get16_le b 10 ≡ m.sys.net.udp_rx)
    × (get16_le b 12 ≡ m.sys.net.udp_dropped)
    × (get16_le b 16 ≡ m.dhcp.rx_count)
    × (get16_le b 18 ≡ m.dhcp.last_len)
    × (get16_le b 32 ≡ m.window_irqs)
    × (get16_le b 34 ≡ m.tcpset.rst_sent)

-- A word of the block from the two bytes that are written back.
module _ (m : Machine) where
  abbrev told : Machine
  told = record m { blk = stats_blk m }

  field :
      (k v : ℕ)
      → k + 1 < 36
      → v < 2 ^ 16
      → stats_blk m k ≡ u8 v
      → stats_blk m (k + 1) ≡ u8 (v / 2 ^ 8)
      → get16_le (offset (give_blk told 0 36).sys.pool (arg_ptr told)) k ≡ v
  field k v h w p q = ground (
    arith,
    give_blk-inside told 0 36 k,
    give_blk-inside told 0 36 (k + 1),
    get16_le_lem (offset (give_blk told 0 36).sys.pool (arg_ptr told)) k,
  )

pub api_get_stats-Tells :
    (m : Machine) → HasCounts m → Tells (offset (api_get_stats m).sys.pool (arg_ptr m)) m
unfolding api_get_stats stats_blk dhcp_stats net_stats put16_le arg_ptr
api_get_stats-Tells m c = (
  field m 0 m.sys.net.rx_frames (omega arith) c.rx_frames refl refl,
  field m 2 m.sys.net.arp_replies (omega arith) c.arp_replies refl refl,
  field m 4 m.sys.net.echo_replies (omega arith) c.echo_replies refl refl,
  field m 6 m.sys.net.tx_failures (omega arith) c.tx_failures refl refl,
  field m 8 m.sys.net.arp_learned (omega arith) c.arp_learned refl refl,
  field m 10 m.sys.net.udp_rx (omega arith) c.udp_rx refl refl,
  field m 12 m.sys.net.udp_dropped (omega arith) c.udp_dropped refl refl,
  field m 16 m.dhcp.rx_count (omega arith) c.rx_count refl refl,
  field m 18 m.dhcp.last_len (omega arith) c.last_len refl refl,
  field m 32 m.window_irqs (omega arith) c.window_irqs refl refl,
  field m 34 m.tcpset.rst_sent (omega arith) c.rst_sent refl refl,
)
