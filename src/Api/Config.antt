-- ===== src/Api/Config.antt =====
-- The entries of src/abi/api.c for the addresses and the counters.
use mega_net.Base.{Mem, poke, offset, write_at, ℕ, zero, suc, ◌+◌, ◌*◌, ◌^◌, bit_or}
use mega_net.Api.Clients.{regs4}
use mega_net.Api.State.{Machine, ret, put16_le, flag, set_sys, fetch_blk, give_blk}
use mega_net.Dhcp.State.{Dhcp}
use mega_net.Net.Receive.{net_set_ip}
use mega_net.Net.State.{Net, set_net, copy4}

unfoldable pub api_set_ip : Machine → Machine
api_set_ip m =
    let m1 = fetch_blk m 12 in
    let net = net_set_ip m1.sys.net m1.blk (offset m1.blk 4) (offset m1.blk 8) in
    ret (set_sys m1 (set_net m1.sys net)) 0 0 0 0

-- The loop of `mn_api_get_ip`, with `n` rounds left at `i`.
unfoldable pub ip_blk_from : ℕ → ℕ → Net → Mem → Mem
ip_blk_from zero i net b = b
ip_blk_from (suc n) i net b =
    ip_blk_from n (i + 1) net
      (poke (poke (poke b i (net.ip i)) (4 + i) (net.mask i)) (8 + i) (net.gw i))

unfoldable pub api_get_ip : Machine → Machine
api_get_ip m = ret (give_blk (record m { blk = ip_blk_from 4 0 m.sys.net m.blk }) 0 12) 0 0 0 0

unfoldable pub net_stats : Mem → Net → Mem
net_stats b net =
    let b1 = put16_le (put16_le b 0 net.rx_frames) 2 net.arp_replies in
    let b2 = put16_le (put16_le b1 4 net.echo_replies) 6 net.tx_failures in
    let b3 = put16_le (put16_le b2 8 net.arp_learned) 10 net.udp_rx in
    put16_le b3 12 net.udp_dropped

unfoldable pub dhcp_stats : Mem → Dhcp → Mem
dhcp_stats b d =
    let b1 = put16_le b 14 (bit_or d.tries (flag d.pending * 2 ^ 8)) in
    let b2 = put16_le (put16_le b1 16 d.rx_count) 18 d.last_len in
    let b3 = poke (poke b2 20 d.last_op) 21 d.last_type in
    let b4 = write_at b3 22 (λ p. copy4 p d.last_xid) in
    let b5 = write_at b4 26 (λ p. copy4 p d.xid) in
    poke (poke b5 30 (d.last_chaddr 0)) 31 (d.last_chaddr 5)

unfoldable pub stats_blk : Machine → Mem
stats_blk m =
    put16_le (put16_le (dhcp_stats (net_stats m.blk m.sys.net) m.dhcp) 32 m.window_irqs) 34
      m.tcpset.rst_sent

unfoldable pub api_get_stats : Machine → Machine
api_get_stats m = ret (give_blk (record m { blk = stats_blk m }) 0 36) 0 0 0 0

unfoldable pub api_set_local_ip4 : Machine → Machine
api_set_local_ip4 m =
    let net = m.sys.net in
    ret (set_sys m (set_net m.sys (net_set_ip net (regs4 m) net.mask net.gw))) 0 0 0 0
