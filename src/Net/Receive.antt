-- ===== src/Net/Receive.antt =====
-- The receive side of src/net/mn_net.c, and its set-up.
use mega_net.Base.{
  Mem, offset, copy, ltb, ◌==◌, if◌then◌else◌, u16, sub16, ℕ, zero, suc, ◌+◌, ◌*◌, ◌/◌, ◌^◌, Bool,
  true, false, not, ◌||◌, Option, none, some,
}
use mega_net.Net.State.{
  udp_sockets, udp_sock_buf, Net, Sys, set_net, set_sock, limited_bcast, zero_ip, copy4,
}
use mega_net.Net.Transmit.{send}
use mega_net.Wire.Arp.{
  arp_op_reply, arp_build_reply, arp_opcode, arp_wants_us, arp_sender_mac, arp_sender_ip,
}
use mega_net.Wire.Arp.Cache.{arp_cache_init, arp_cache_learn}
use mega_net.Wire.Ether.{
  eth_hdr_len, max_frame, ethertype_ipv4, ethertype_arp, ether_type, ether_is_for_us,
}
use mega_net.Wire.Icmp.{icmp_is_echo_request, icmp_build_echo_reply}
use mega_net.Wire.Ipv4.{
  ipproto_icmp, ipproto_tcp, ipproto_udp, ipv4_valid, ipv4_proto, ipv4_src, ipv4_dst, ipv4_payload,
  ipv4_payload_len, ipv4_addr_eq,
}
use mega_net.Wire.Udp.{udp_hdr_len, udp_valid, udp_sport, udp_dport, udp_payload}
use mega_net.Xmem.{xmem_write}

-- `mn_net_set_pool`, with `n` rounds left at `i`.
unfoldable pub set_pool_from : ℕ → ℕ → Net → ℕ → Net
set_pool_from zero i net base = net
set_pool_from (suc n) i net base =
    set_pool_from n (i + 1)
      (set_sock net i
        (record (net.sock i) { xseg = u16 (base / 2 ^ 16); xoff = u16 (base + i * udp_sock_buf) }))
      base

unfoldable pub net_set_pool : Net → ℕ → Net
net_set_pool net base = set_pool_from udp_sockets 0 net base

unfoldable pub close_all_from : ℕ → ℕ → Net → Net
close_all_from zero i net = net
close_all_from (suc n) i net =
    close_all_from n (i + 1) (set_sock net i (record (net.sock i) { port = 0; pending = false }))

abbrev pub xmem_base : ℕ
xmem_base = 0x8000000

unfoldable pub net_init : Net → Net
net_init net =
    let n1 = record net {
      ip = copy4 net.ip zero_ip;
      mask = copy4 net.mask zero_ip;
      gw = copy4 net.gw zero_ip;
      arp = arp_cache_init net.arp;
    } in
    let n2 = net_set_pool (close_all_from udp_sockets 0 n1) (xmem_base + 0xe000) in
    record n2 {
      ip_id = 1;
      rx_frames = 0;
      arp_replies = 0;
      arp_learned = 0;
      echo_replies = 0;
      udp_rx = 0;
      udp_dropped = 0;
      tx_failures = 0;
    }

unfoldable pub net_set_ip : Net → Mem → Mem → Mem → Net
net_set_ip net ip mask gw = record net {
  ip = copy4 net.ip ip;
  mask = copy4 net.mask mask;
  gw = copy4 net.gw gw;
}

-- The loop of `deliver_udp`: the socket that is open on the port.
unfoldable pub sock_on_port : ℕ → ℕ → Net → ℕ → Option ℕ
sock_on_port zero i net port = none
sock_on_port (suc n) i net port =
    if (net.sock i).port == port then some i else sock_on_port n (i + 1) net port

abbrev pub drop_udp : Sys → Sys
drop_udp s = set_net s (record s.net { udp_dropped = u16 (s.net.udp_dropped + 1) })

-- A datagram for socket `i`: one waits at a time, and a long one is dropped.
unfoldable pub store_udp : Sys → Mem → ℕ → Sys
store_udp s ip i =
    let k = s.net.sock i in
    let udp = ipv4_payload ip in
    let plen = sub16 (ipv4_payload_len ip) udp_hdr_len in
    let net' = set_sock s.net i (record k {
      len = plen;
      src_ip = copy4 k.src_ip (ipv4_src ip);
      src_port = udp_sport udp;
      pending = true;
    }) in
    if k.pending || ltb udp_sock_buf plen then drop_udp s else record s {
      pool = xmem_write s.pool k.xseg k.xoff (udp_payload udp) plen;
      net = record net' { udp_rx = u16 (net'.udp_rx + 1) };
    }

abbrev pub hand_udp : Option ℕ → Sys → Mem → Sys
hand_udp none s ip = drop_udp s
hand_udp (some i) s ip = store_udp s ip i

unfoldable pub deliver_udp : Sys → Mem → Sys
deliver_udp s ip =
    let udp = ipv4_payload ip in
    if not (udp_valid (ipv4_src ip) (ipv4_dst ip) udp (ipv4_payload_len ip))
    then s
    else hand_udp (sock_on_port udp_sockets 0 s.net (udp_dport udp)) s ip

abbrev pub learn : Sys → Sys
learn s =
    set_net s (record s.net {
      arp = arp_cache_learn s.net.arp (arp_sender_ip s.rxf) (arp_sender_mac s.rxf);
    })

-- The ARP case of `mn_net_poll`.
unfoldable pub arp_input : Sys → ℕ → Sys
arp_input s len =
    if arp_opcode s.rxf len == arp_op_reply
    then (let s1 = learn s in
        set_net s1 (record s1.net { arp_learned = u16 (s1.net.arp_learned + 1) }))
    else if arp_wants_us s.rxf len s.net.ip
    then (let s1 = learn s in
        let (f, n) = arp_build_reply s1.txf s1.rxf s1.nif.mac s1.net.ip in
        let s2 = (send (record s1 { txf = f }) n).0 in
        set_net s2 (record s2.net { arp_replies = u16 (s2.net.arp_replies + 1) }))
    else s

unfoldable pub icmp_input : Sys → ℕ → Sys
icmp_input s len =
    if icmp_is_echo_request s.rxf len s.net.ip
    then (let (f, n) = icmp_build_echo_reply s.txf s.rxf s.nif.mac s.net.ip in
        let s1 = (send (record s { txf = f }) n).0 in
        set_net s1 (record s1.net { echo_replies = u16 (s1.net.echo_replies + 1) }))
    else s

-- Ours, broadcast, or anything while we have no address.
unfoldable pub accepts : Net → Mem → Bool
accepts net dst =
    ipv4_addr_eq dst net.ip || ipv4_addr_eq dst limited_bcast || ipv4_addr_eq net.ip zero_ip

-- The layer above, with its own context: `tcp_input` and `tcp_ctx`; `none` is the null pointer.
module _ {T : Type 0} (tcp_input : Option (T → Sys → Mem → T × Sys)) where
  -- The IPv4 case of `mn_net_poll`.
  unfoldable pub ipv4_input : T → Sys → ℕ → T × Sys
  ipv4_input t s len =
      let ip = offset s.rxf eth_hdr_len in
      if ltb len (14 + 20) || not (ipv4_valid ip (sub16 len eth_hdr_len))
      then (t, s)
      else if not (accepts s.net (ipv4_dst ip))
      then (t, s)
      else if ipv4_proto ip == ipproto_icmp
      then (t, icmp_input s len)
      else if ipv4_proto ip == ipproto_udp
      then (t, deliver_udp s ip)
      else if ipv4_proto ip == ipproto_tcp
      then elim tcp_input [ none ↦ (t, s) | some input ↦ input t s ip ]
      else (t, s)

  -- The frame that was pulled, of `len` bytes in `rxf`.
  unfoldable pub frame_input : T → Sys → ℕ → T × Sys
  frame_input t s len =
      if ltb len eth_hdr_len || not (ether_is_for_us s.rxf s.nif.mac)
      then (t, s)
      else if ether_type s.rxf == ethertype_arp
      then (t, arp_input s len)
      else if ether_type s.rxf == ethertype_ipv4
      then ipv4_input t s len
      else (t, s)

  unfoldable pub net_poll : T → Sys → (T × Sys) × Bool
  net_poll t s =
      let polled = record s { nif = record s.nif { polls = s.nif.polls + 1 } } in
      elim (s.nif.rx s.nif.polls max_frame) [
        | none ↦ ((t, polled), false)
        | some frame ↦
            let s1 = record polled {
              rxf = copy s.rxf frame.bytes frame.len;
              net = record s.net { rx_frames = u16 (s.net.rx_frames + 1) };
            } in
            (frame_input t s1 frame.len, true)
      ]
