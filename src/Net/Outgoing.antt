-- ===== src/Net/Outgoing.antt =====
-- A datagram that src/net/mn_net.c sends: the frame that leaves, and what its station reads in it.
use mega_net.Base.{
  Mem, offset, write_at, copy, offset-write_at, ℕ, ◌+◌, ◌≤◌, ◌≡◌, refl, ap, ◌∙◌, fun_ext, ◌⊎◌, inl,
  inr, true, false, some, [], ◌∷◌, ◌++◌, arith,
}
use mega_net.Net.State.{udp_max_payload, send_ok, Net, Sys}
use mega_net.Net.Transmit.{
  send, is_broadcast, net_next_hop, net_tx_begin, net_tx_send, net_send_udp,
}
use mega_net.Wire.Arp.Cache.{arp_cache_lookup}
use mega_net.Wire.Byteorder.{put16}
use mega_net.Wire.Ether.{ethertype_ipv4, eth_broadcast, ether_build}
use mega_net.Wire.Ether.Laws.{ether_build-rest}
use mega_net.Wire.Ipv4.{ipproto_udp, ipv4_fields, ipv4_build}
use mega_net.Wire.Udp.{udp_build}

-- The hardware address that a packet for `dst` goes to: everyone's for a broadcast, and otherwise
-- the one that the cache knows for the next hop.
unfoldable pub Resolves : Net → Mem → Mem → Type 0
Resolves net dst mac =
    let hop = net_next_hop net dst in
    ((is_broadcast net hop ≡ true) × (mac ≡ eth_broadcast))
    ⊎ ((is_broadcast net hop ≡ false) × (arp_cache_lookup net.arp hop ≡ some mac))

net_tx_begin-Resolves :
    (s : Sys) (dst mac : Mem)
    → Resolves s.net dst mac
    → net_tx_begin s dst ≡ (record s { tx_mac = mac }, true, send_ok)
unfolding net_tx_begin Resolves
net_tx_begin-Resolves s dst mac (inl (b, e)) = rw (b, e) refl
net_tx_begin-Resolves s dst mac (inr (b, e)) = rw (b, e) refl

-- The bytes behind the header of a built packet are the packet's own.
ipv4_build-rest :
    (pkt src dst : Mem) (proto n id : ℕ)
    → offset (ipv4_build pkt src dst proto n id).0 20 ≡ offset pkt 20
unfolding ipv4_build ipv4_fields put16
ipv4_build-rest pkt src dst proto n id = fun_ext λ i. ground arith

module _ (s : Sys) (dst mac : Mem) (sport dport : ℕ) (payload : Mem) (n : ℕ) where
  -- The datagram in the frame buffer, and the buffer with it.
  unfoldable pub datagram : Mem
  datagram =
      let f = write_at s.txf 42 (λ m. copy m payload n) in
      (udp_build (offset f 34) s.net.ip dst sport dport n).0

  unfoldable pub with_datagram : Mem
  with_datagram = write_at (write_at s.txf 42 (λ m. copy m payload n)) 34 (λ m. datagram)

  unfoldable pub packet : Mem
  packet = (ipv4_build (offset with_datagram 14) s.net.ip dst ipproto_udp (8 + n) s.net.ip_id).0

  unfoldable pub sent_frame : Mem
  sent_frame =
      (ether_build (write_at with_datagram 14 (λ m. packet)) mac s.nif.mac ethertype_ipv4).0

  pub net_send_udp-sent :
      n ≤ udp_max_payload
      → Resolves s.net dst mac
      → (net_send_udp s dst sport dport payload n).0.nif.sent
        ≡ s.nif.sent ++ (record { bytes = sent_frame; len = 42 + n } ∷ [])
  unfolding net_send_udp net_tx_send send sent_frame packet with_datagram datagram udp_build
  net_send_udp-sent h r = rw (net_tx_begin-Resolves s dst mac r) (ground (arith, h))

  pub net_send_udp-txf :
      n ≤ udp_max_payload
      → Resolves s.net dst mac
      → (net_send_udp s dst sport dport payload n).0.txf ≡ sent_frame
  unfolding net_send_udp net_tx_send send sent_frame packet with_datagram datagram udp_build
  net_send_udp-txf h r = rw (net_tx_begin-Resolves s dst mac r) (ground (arith, h))

  pub packet-datagram : offset packet 20 ≡ datagram
  unfolding packet with_datagram
  packet-datagram =
      ipv4_build-rest _ s.net.ip dst ipproto_udp (8 + n) s.net.ip_id
      ∙ (fun_ext λ i. ap with_datagram {x = 14 + (20 + i)} {y = 34 + i} (omega arith))
      ∙ offset-write_at (write_at s.txf 42 (λ m. copy m payload n)) 34 (λ m. datagram)

  pub sent_frame-packet : offset sent_frame 14 ≡ packet
  unfolding sent_frame
  sent_frame-packet =
      ether_build-rest (write_at with_datagram 14 (λ m. packet)) mac s.nif.mac ethertype_ipv4
      ∙ offset-write_at with_datagram 14 (λ m. packet)
