-- ===== src/Tests/Clients.antt =====
-- The theorems on the datagrams and the clients at concrete messages.
use mega_net.Base.{
  Mem, eq_from, eq, ltb, if◌then◌else◌, sub16, ℕ, ◌+◌, ◌/◌, ◌≤◌, ◌<◌, ◌≡◌, refl, inr, true, false,
  none, some, [], ◌∷◌, ◌++◌, arith,
}
use mega_net.Dhcp.Lease.{granted, clock_tick}
use mega_net.Dhcp.Lease.Laws.{granted-order, IsClock, counted, clock_tick-counted}
use mega_net.Dhcp.State.{bound, steady, Dhcp}
use mega_net.Dns.Message.{skip_name, questions_from, answers_from, dns_parse}
use mega_net.Dns.Message.Laws.{dns_parse-inside}
use mega_net.Net.Across.{net_udp_recv-net_send_udp}
use mega_net.Net.Outgoing.{Resolves}
use mega_net.Net.Receive.{sock_on_port, accepts, net_poll}
use mega_net.Net.Sockets.{Received, net_udp_recv}
use mega_net.Net.State.{Sys, eq4}
use mega_net.Net.Transmit.{all_ones_from, is_broadcast, on_subnet_from, net_next_hop, net_send_udp}
use mega_net.Ntp.Client.{waiting, Ntp, ntp_poll}
use mega_net.Ntp.Client.Laws.{IsBounded, ntp_poll-IsBounded}
use mega_net.Tests.Data.{
  bytes, bytes-IsBytes, zeros, zeros-IsBytes, our_ip, our_ip-IsBytes, peer_ip, peer_ip-IsBytes,
  machine,
}
use mega_net.Wire.Arp.Cache.{lookup_from, arp_cache_lookup}
use mega_net.Wire.Byteorder.{get16}
use mega_net.Wire.Ether.{addr_eq, ether_is_for_us}
use mega_net.Wire.Ipv4.{ipv4_addr_eq}

-- A station that knows where to send, and one that hears the frame that it sends.
abbrev peer_mac : Mem
peer_mac = bytes (2 ∷ 0 ∷ 0 ∷ 0 ∷ 0 ∷ 1 ∷ [])

abbrev greeting : Mem
greeting = bytes (72 ∷ 105 ∷ [])

abbrev sender : Sys
sender = record machine {
  net = record machine.net {
    arp = record { e = λ _. record { ip = peer_ip; mac = peer_mac; valid = true }; next = 0 };
  };
}

abbrev hearer : Sys
hearer = record machine {
  net = record machine.net { ip = peer_ip };
  nif = record machine.nif {
    mac = peer_mac;
    rx = λ k room.
        some
          (record { bytes = (net_send_udp sender peer_ip 49152 5000 greeting 2).0.txf; len = 44 });
  };
}

abbrev reply : Mem
reply = bytes (
    0 ∷ 7 ∷ 128 ∷ 0 ∷ 0 ∷ 1 ∷ 0 ∷ 1 ∷ 0 ∷ 0 ∷ 0 ∷ 0 ∷ 1 ∷ 97 ∷ 0 ∷ 0 ∷ 1 ∷ 0 ∷ 1 ∷ 192 ∷ 12 ∷ 0 ∷ 1
    ∷ 0 ∷ 1 ∷ 0 ∷ 0 ∷ 0 ∷ 9 ∷ 0 ∷ 4 ∷ 192 ∷ 0 ∷ 2 ∷ 1 ∷ [])

abbrev asking : Ntp
asking = record {
  state = waiting;
  sock = 0;
  port = 5000;
  server = peer_ip;
  seconds = 0;
  sent_at = 0;
  tries = 1;
  pending = false;
  msg = zeros;
}

abbrev leased : Dhcp
leased = record {
  state = bound;
  sock = 0xff;
  xid = zeros;
  offered_ip = our_ip;
  server_id = peer_ip;
  mask = zeros;
  gw = peer_ip;
  dns = peer_ip;
  lease_s = 3600;
  phase = steady;
  age_m = 3;
  t1_m = 30;
  t2_m = 53;
  next_m = 30;
  lease_m = 60;
  tick_last = 4000;
  tick_acc = 20;
  sec_acc = 59;
  sent_at = 0;
  tries = 0;
  pending = false;
  rx_count = 0;
  last_len = 0;
  last_op = 0;
  last_type = 0;
  last_xid = zeros;
  last_chaddr = zeros;
}

net_udp_recv-net_send_udp_example :
    let s' = (net_send_udp sender peer_ip 49152 5000 greeting 2).0 in
    let p' = (net_poll none true hearer).0.1 in
    (s'.nif.sent ≡ sender.nif.sent ++ (record { bytes = s'.txf; len = 42 + 2 } ∷ []))
    × (r : Received) × ((net_udp_recv p'.net p'.pool 0 zeros 8 zeros).1 ≡ some r)
    × (r.len ≡ (if ltb 8 2 then 8 else 2))
    × (r.src_port ≡ 49152)
    × ((j : ℕ) → j < 4 → r.src_ip j ≡ sender.net.ip j)
    × ((j : ℕ) → r.buf j ≡ (if ltb j r.len then greeting j else zeros j))
unfolding Resolves net_next_hop is_broadcast eq4 all_ones_from on_subnet_from arp_cache_lookup
    lookup_from eq eq_from ether_is_for_us addr_eq accepts ipv4_addr_eq sock_on_port
net_udp_recv-net_send_udp_example =
    net_udp_recv-net_send_udp sender peer_ip peer_mac 49152 5000 greeting 2 zeros-IsBytes
      our_ip-IsBytes peer_ip-IsBytes (bytes-IsBytes (72 ∷ 105 ∷ []) refl) (omega arith)
      (omega arith) (omega arith) none hearer true zeros zeros 8 0 (inr (refl, refl)) refl refl refl
      refl refl (omega arith) (omega arith, omega arith)

dns_parse-inside_example : 31 + 4 ≤ 35
unfolding dns_parse get16 questions_from skip_name answers_from
dns_parse-inside_example = dns_parse-inside 7 reply 35 31 (omega arith) refl

ntp_poll-IsBounded_example : IsBounded (ntp_poll asking machine 9).0
ntp_poll-IsBounded_example =
    ntp_poll-IsBounded asking machine 9
      (record { tries_le = omega arith; pending_lt = λ h. omega arith })

granted-order_example :
    let g = granted leased 9 in
    (g.lease_m ≡ leased.lease_s / 60)
    × (0 < g.t1_m)
    × (g.t1_m ≤ g.t2_m)
    × (g.t2_m ≤ g.lease_m)
    × (g.next_m ≡ g.t1_m)
    × (g.age_m ≡ 0)
granted-order_example = granted-order leased 9 (omega arith) (omega arith)

clock_tick-counted_example :
    (counted (clock_tick leased 5000) ≡ counted leased + sub16 5000 leased.tick_last)
    × IsClock (clock_tick leased 5000)
clock_tick-counted_example =
    clock_tick-counted leased 5000 (record { seconds_in = omega arith; ticks_in = omega arith })
      (omega arith)
