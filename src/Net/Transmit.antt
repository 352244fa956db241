-- ===== src/Net/Transmit.antt =====
-- The transmit side of src/net/mn_net.c.
use mega_net.Base.{
  length, Mem, offset, write_at, copy, ltb, ◌==◌, if◌then◌else◌, u8, u16, ℕ, zero, suc, ◌+◌,
  bit_and, bit_or, Bool, true, false, not, none, some, [], ◌∷◌, ◌++◌,
}
use mega_net.Net.State.{
  udp_max_payload, send_failed, send_ok, send_pending, Frame, Net, Sys, set_net, limited_bcast, eq4,
}
use mega_net.Wire.Arp.{arp_build_request}
use mega_net.Wire.Arp.Cache.{arp_cache_lookup}
use mega_net.Wire.Ether.{eth_hdr_len, ethertype_ipv4, eth_broadcast, ether_build}
use mega_net.Wire.Ipv4.{ipv4_hdr_len, ipproto_udp, ipv4_build}
use mega_net.Wire.Udp.{udp_hdr_len, udp_build}

-- `send`: the frame in `txf`, with the failure counted.
unfoldable pub send : Sys → ℕ → Sys × ℕ
send s len =
    let frame : Frame = record { bytes = s.txf; len = len } in
    let ok = s.nif.tx (length s.nif.sent) frame in
    let s' = record s { nif = record s.nif { sent = s.nif.sent ++ (frame ∷ []) } } in
    if ok
    then (s', send_ok)
    else (set_net s' (record s.net { tx_failures = u16 (s.net.tx_failures + 1) }), send_failed)

-- The loop of `is_broadcast`, with `n` rounds left at `i`.
unfoldable pub all_ones_from : ℕ → ℕ → Mem → Mem → Bool
all_ones_from zero i dst mask = true
all_ones_from (suc n) i dst mask =
    if not (u8 (bit_or (dst i) (mask i)) == 0xff) then false else all_ones_from n (i + 1) dst mask

unfoldable pub is_broadcast : Net → Mem → Bool
is_broadcast net dst = if eq4 dst limited_bcast then true else all_ones_from 4 0 dst net.mask

-- The loop of `mn_net_next_hop`: whether the destination is on our subnet.
unfoldable pub on_subnet_from : ℕ → ℕ → Net → Mem → Bool
on_subnet_from zero i net dst = true
on_subnet_from (suc n) i net dst =
    if not (bit_and (dst i) (net.mask i) == bit_and (net.ip i) (net.mask i))
    then false
    else on_subnet_from n (i + 1) net dst

unfoldable pub net_next_hop : Net → Mem → Mem
net_next_hop net dst =
    if is_broadcast net dst then dst else if on_subnet_from 4 0 net dst then dst else net.gw

-- `mn_net_tx_begin`: whether the payload can be written to `txf + 34`, and `*why`.
unfoldable pub net_tx_begin : Sys → Mem → Sys × Bool × ℕ
net_tx_begin s dst_ip =
    let hop = net_next_hop s.net dst_ip in
    if is_broadcast s.net hop
    then (record s { tx_mac = eth_broadcast }, true, send_ok)
    else elim (arp_cache_lookup s.net.arp hop) [
      | some mac ↦ (record s { tx_mac = mac }, true, send_ok)
      | none ↦
          let (f, n) = arp_build_request s.txf s.nif.mac s.net.ip hop in
          ((send (record s { txf = f }) n).0, false, send_pending)
    ]

-- `mn_net_tx_send`: the headers around the payload, and the transmission.
unfoldable pub net_tx_send : Sys → Mem → ℕ → ℕ → Sys × ℕ
net_tx_send s dst_ip proto payload_len =
    let f1 =
      write_at s.txf eth_hdr_len
        (λ m. (ipv4_build m s.net.ip dst_ip proto payload_len s.net.ip_id).0) in
    let f2 = (ether_build f1 s.tx_mac s.nif.mac ethertype_ipv4).0 in
    let s' = record s { txf = f2; net = record s.net { ip_id = u16 (s.net.ip_id + 1) } } in
    send s' (u16 (eth_hdr_len + ipv4_hdr_len + payload_len))

unfoldable pub net_send_udp : Sys → Mem → ℕ → ℕ → Mem → ℕ → Sys × ℕ
net_send_udp s dst_ip sport dport payload len =
    if ltb udp_max_payload len
    then (s, send_failed)
    else (let (s1, ready, why) = net_tx_begin s dst_ip in
        if not ready
        then (s1, why)
        else (let f1 = write_at s1.txf (34 + udp_hdr_len) (λ m. copy m payload len) in
            let udp = udp_build (offset f1 34) s1.net.ip dst_ip sport dport len in
            let f2 = write_at f1 34 (λ m. udp.0) in
            net_tx_send (record s1 { txf = f2 }) dst_ip ipproto_udp udp.1))
