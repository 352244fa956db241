-- ===== src/Tests/Wire.antt =====
-- The theorems on the wire formats at concrete packets.
use mega_net.Base.{
  Mem, offset, eq_from, eq, ℕ, ◌+◌, ◌-◌, ◌≤◌, ◌≡◌, refl, true, some, List, [], ◌∷◌, arith,
}
use mega_net.Tests.Data.{
  bytes, bytes-IsBytes, zeros, zeros-IsBytes, our_ip, our_ip-IsBytes, peer_ip, peer_ip-IsBytes,
  our_mac, our_mac-IsBytes, cache, cache-IsWellFormed,
}
use mega_net.Wire.Arp.{
  arp_op_request, arp_build_request, arp_opcode, arp_wants_us, arp_sender_mac, arp_sender_ip,
}
use mega_net.Wire.Arp.Cache.{arp_cache_learn, arp_cache_lookup}
use mega_net.Wire.Arp.Cache.Laws.{
  IsWellFormed, arp_cache_lookup-learn, arp_cache_learn-IsWellFormed, Keeps,
  arp_cache_lookup-learn_other,
}
use mega_net.Wire.Arp.Laws.{arp_wants_us-request}
use mega_net.Wire.Byteorder.{get16}
use mega_net.Wire.Checksum.{end_around, trailing, sum16_from, sum16, checksum_valid}
use mega_net.Wire.Checksum.Laws.{sum16-fold}
use mega_net.Wire.Checksum.Spec.{word_sum, fold}
use mega_net.Wire.Ether.{ethertype_ipv4, ether_type, ether_src, ether_is_for_us}
use mega_net.Wire.Icmp.{icmp_echo_reply, is_echo, icmp_is_echo_request, icmp_build_echo_reply}
use mega_net.Wire.Icmp.Laws.{icmp_build_echo_reply-valid, icmp_build_echo_reply-payload}
use mega_net.Wire.Ipv4.{
  ipproto_icmp, ipv4_build, ipv4_header_len, ipv4_total_len, ipv4_valid, ipv4_proto, ipv4_src,
  ipv4_dst, ipv4_payload, ipv4_payload_len, ipv4_addr_eq,
}
use mega_net.Wire.Ipv4.Laws.{ipv4_valid-build}
use mega_net.Wire.Udp.{udp_build, udp_valid, udp_sport, udp_dport, udp_payload}
use mega_net.Wire.Udp.Laws.{udp_valid-build}

-- An echo request of the peer, with four bytes of data.
abbrev request_bytes : List ℕ
request_bytes =
    2 ∷ 0 ∷ 0 ∷ 0 ∷ 0 ∷ 2 ∷ 2 ∷ 0 ∷ 0 ∷ 0 ∷ 0 ∷ 1 ∷ 8 ∷ 0 ∷ 69 ∷ 0 ∷ 0 ∷ 32 ∷ 0 ∷ 7 ∷ 64 ∷ 0 ∷ 64
    ∷ 1 ∷ 38 ∷ 212 ∷ 10 ∷ 0 ∷ 0 ∷ 1 ∷ 10 ∷ 0 ∷ 0 ∷ 2 ∷ 8 ∷ 0 ∷ 33 ∷ 4 ∷ 18 ∷ 52 ∷ 0 ∷ 1 ∷ 97 ∷ 98
    ∷ 99 ∷ 100 ∷ []

sum16-fold_example :
    sum16 (bytes (0 ∷ 80 ∷ 192 ∷ 0 ∷ 104 ∷ 105 ∷ [])) 6
    ≡ fold (word_sum (bytes (0 ∷ 80 ∷ 192 ∷ 0 ∷ 104 ∷ 105 ∷ [])) 6)
sum16-fold_example =
    sum16-fold (bytes (0 ∷ 80 ∷ 192 ∷ 0 ∷ 104 ∷ 105 ∷ [])) 6
      (bytes-IsBytes (0 ∷ 80 ∷ 192 ∷ 0 ∷ 104 ∷ 105 ∷ []) refl) (omega arith)

ipv4_valid-build_example :
    (ipv4_valid (ipv4_build zeros our_ip peer_ip 17 11 7).0 31 ≡ true)
    × (ipv4_proto (ipv4_build zeros our_ip peer_ip 17 11 7).0 ≡ 17)
    × (ipv4_addr_eq (ipv4_src (ipv4_build zeros our_ip peer_ip 17 11 7).0) our_ip ≡ true)
    × (ipv4_addr_eq (ipv4_dst (ipv4_build zeros our_ip peer_ip 17 11 7).0) peer_ip ≡ true)
    × (ipv4_payload_len (ipv4_build zeros our_ip peer_ip 17 11 7).0 ≡ 11)
    × (ipv4_payload (ipv4_build zeros our_ip peer_ip 17 11 7).0
        ≡ offset (ipv4_build zeros our_ip peer_ip 17 11 7).0 20)
ipv4_valid-build_example =
    ipv4_valid-build zeros our_ip peer_ip 17 11 7 31 (ipv4_build zeros our_ip peer_ip 17 11 7).0
      zeros-IsBytes our_ip-IsBytes peer_ip-IsBytes (omega arith) (omega arith) (omega arith)
      (λ i h. refl)

udp_valid-build_example :
    let (u, len) = udp_build zeros our_ip peer_ip 5000 53 3 in
    (udp_valid our_ip peer_ip u len ≡ true)
    × (len ≡ 8 + 3)
    × (udp_sport u ≡ 5000)
    × (udp_dport u ≡ 53)
    × (udp_payload u ≡ udp_payload zeros)
udp_valid-build_example =
    udp_valid-build zeros our_ip peer_ip 5000 53 3 zeros-IsBytes our_ip-IsBytes peer_ip-IsBytes
      (omega arith) (omega arith) (omega arith)

icmp_build_echo_reply-valid_example :
    let (f, n) = icmp_build_echo_reply zeros (bytes request_bytes) our_mac our_ip in
    let ip = offset f 14 in
    let asked = ipv4_payload (offset (bytes request_bytes) 14) in
    let plen = ipv4_payload_len (offset (bytes request_bytes) 14) in
    (ether_type f ≡ ethertype_ipv4)
    × (ether_is_for_us f (ether_src (bytes request_bytes)) ≡ true)
    × (n ≡ 34 + plen)
    × (n ≤ 46)
    × (ipv4_valid ip (n - 14) ≡ true)
    × (ipv4_proto ip ≡ ipproto_icmp)
    × (ipv4_addr_eq (ipv4_src ip) our_ip ≡ true)
    × (ipv4_addr_eq (ipv4_dst ip) (ipv4_src (offset (bytes request_bytes) 14)) ≡ true)
    × (ipv4_payload_len ip ≡ plen)
    × (checksum_valid (ipv4_payload ip) plen ≡ true)
    × (ipv4_payload ip 0 ≡ icmp_echo_reply)
    × (ipv4_payload ip 1 ≡ asked 1)
unfolding icmp_is_echo_request ether_type get16 ipv4_valid ipv4_header_len ipv4_total_len
    checksum_valid sum16 sum16_from trailing end_around ipv4_addr_eq eq eq_from is_echo
    ipv4_payload_len ipv4_payload
icmp_build_echo_reply-valid_example =
    icmp_build_echo_reply-valid zeros (bytes request_bytes) our_mac our_ip 46 zeros-IsBytes
      (bytes-IsBytes request_bytes refl) our_mac-IsBytes our_ip-IsBytes (omega arith) (refl)

icmp_build_echo_reply-payload_example :
    ipv4_payload (offset (icmp_build_echo_reply zeros (bytes request_bytes) our_mac our_ip).0 14) 9
    ≡ ipv4_payload (offset (bytes request_bytes) 14) 9
unfolding icmp_is_echo_request ether_type get16 ipv4_valid ipv4_header_len ipv4_total_len
    checksum_valid sum16 sum16_from trailing end_around ipv4_addr_eq eq eq_from is_echo
    ipv4_payload_len ipv4_payload
icmp_build_echo_reply-payload_example =
    icmp_build_echo_reply-payload zeros (bytes request_bytes) our_mac our_ip 46 9 zeros-IsBytes
      (bytes-IsBytes request_bytes refl) our_mac-IsBytes our_ip-IsBytes (omega arith) (refl)
      (omega arith) (omega arith)

arp_wants_us-request_example :
    let f = (arp_build_request zeros our_mac our_ip peer_ip).0 in
    (ether_is_for_us f our_mac ≡ true)
    × (arp_opcode f 60 ≡ arp_op_request)
    × (arp_wants_us f 60 peer_ip ≡ eq peer_ip peer_ip 4)
    × (eq (arp_sender_ip f) our_ip 4 ≡ true)
    × (eq (arp_sender_mac f) our_mac 6 ≡ true)
arp_wants_us-request_example =
    arp_wants_us-request zeros our_mac our_ip peer_ip our_mac peer_ip 60 (omega arith)

arp_cache_lookup-learn_example :
    (m : Mem) × (arp_cache_lookup (arp_cache_learn cache peer_ip our_mac) peer_ip ≡ some m)
    × (eq m our_mac 6 ≡ true)
arp_cache_lookup-learn_example = arp_cache_lookup-learn cache peer_ip our_mac cache-IsWellFormed

arp_cache_lookup-learn_other_example : Keeps cache (arp_cache_learn cache peer_ip our_mac) our_ip
unfolding eq
arp_cache_lookup-learn_other_example =
    arp_cache_lookup-learn_other cache peer_ip our_mac our_ip cache-IsWellFormed refl

arp_cache_learn-IsWellFormed_example : IsWellFormed (arp_cache_learn cache peer_ip our_mac)
arp_cache_learn-IsWellFormed_example =
    arp_cache_learn-IsWellFormed cache peer_ip our_mac cache-IsWellFormed
