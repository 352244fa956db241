-- ===== src/Wire/Icmp.antt =====
-- src/net/mn_icmp.c: echo requests and replies.
pub mod Laws
use mega_net.Base.{
  Mem, poke, offset, write_at, copy, ltb, ◌==◌, if◌then◌else◌, u16, sub16, ℕ, ◌+◌, Bool, false, not,
  ◌||◌,
}
use mega_net.Wire.Byteorder.{get16, put16}
use mega_net.Wire.Checksum.{checksum, checksum_valid}
use mega_net.Wire.Ether.{eth_hdr_len, ethertype_ipv4, ether_build, ether_type, ether_src}
use mega_net.Wire.Ipv4.{
  ipv4_hdr_len, ipproto_icmp, ipv4_build, ipv4_valid, ipv4_proto, ipv4_src, ipv4_dst, ipv4_payload,
  ipv4_payload_len, ipv4_addr_eq,
}

abbrev pub icmp_hdr_len : ℕ
icmp_hdr_len = 8

abbrev pub icmp_echo_reply : ℕ
icmp_echo_reply = 0

abbrev pub icmp_echo_request : ℕ
icmp_echo_request = 8

-- The tests on the message: a whole echo request of `plen` bytes with a valid checksum.
unfoldable pub is_echo : Mem → ℕ → Bool
is_echo icmp plen =
    if ltb plen icmp_hdr_len
    then false
    else if not (icmp 0 == icmp_echo_request) || not (icmp 1 == 0)
    then false
    else checksum_valid icmp plen

unfoldable pub icmp_is_echo_request : Mem → ℕ → Mem → Bool
icmp_is_echo_request frame len our_ip =
    let ip = offset frame eth_hdr_len in
    if ltb len (14 + 20 + 8)
    then false
    else if not (ether_type frame == ethertype_ipv4)
    then false
    else if not (ipv4_valid ip (sub16 len eth_hdr_len))
    then false
    else if not (ipv4_proto ip == ipproto_icmp)
    then false
    else if not (ipv4_addr_eq (ipv4_dst ip) our_ip)
    then false
    else is_echo (ipv4_payload ip) (ipv4_payload_len ip)

-- The reply's ICMP message: the request's with another type and checksum.
unfoldable pub echo_message : Mem → Mem → ℕ → Mem
echo_message oicmp ricmp plen =
    let o1 = poke (copy oicmp ricmp plen) 0 icmp_echo_reply in
    let o2 = write_at o1 2 (λ m. put16 m 0) in write_at o2 2 (λ m. put16 m (checksum o2 plen))

unfoldable pub icmp_build_echo_reply : Mem → Mem → Mem → Mem → Mem × ℕ
icmp_build_echo_reply out request our_mac our_ip =
    let rip = offset request eth_hdr_len in
    let ricmp = ipv4_payload rip in
    let plen = ipv4_payload_len rip in
    let o1 = (ether_build out (ether_src request) our_mac ethertype_ipv4).0 in
    let o2 =
      write_at o1 eth_hdr_len
        (λ m. (ipv4_build m our_ip (ipv4_src rip) ipproto_icmp plen (get16 (offset rip 4))).0) in
    (
      write_at o2 (eth_hdr_len + ipv4_hdr_len) (λ m. echo_message m ricmp plen),
      u16 (eth_hdr_len + ipv4_hdr_len + plen),
    )
