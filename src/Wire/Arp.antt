-- ===== src/Wire/Arp.antt =====
-- src/net/mn_arp.c: building and recognising ARP frames. The cache is in `Wire.Arp.Cache`.
pub mod Cache
pub mod Laws
use mega_net.Base.{
  ℕ, ◌+◌, Bool, true, false, not, ◌||◌, Mem, poke, offset, write_at, copy, eq, ltb, ◌==◌,
  if◌then◌else◌,
}
use mega_net.Wire.Byteorder.{get16, put16}
use mega_net.Wire.Ether.{
  ether_build, ether_type, eth_broadcast, ethertype_arp, ethertype_ipv4, eth_addr_len,
}

abbrev pub ipv4_addr_len : ℕ
ipv4_addr_len = 4

abbrev pub arp_frame_len : ℕ
arp_frame_len = 14 + 28

abbrev pub arp_op_request : ℕ
arp_op_request = 1

abbrev pub arp_op_reply : ℕ
arp_op_reply = 2

-- The fixed part that every ARP-over-Ethernet-for-IPv4 packet shares.
unfoldable pub fixed_header : Mem → ℕ → Mem
fixed_header buf oper =
    let b1 = write_at buf 14 (λ m. put16 m 1) in
    let b2 = write_at b1 16 (λ m. put16 m ethertype_ipv4) in
    let b3 = poke (poke b2 18 eth_addr_len) 19 ipv4_addr_len in write_at b3 20 (λ m. put16 m oper)

unfoldable pub is_arp : Mem → ℕ → Bool
is_arp frame len =
    if ltb len arp_frame_len
    then false
    else if not (ether_type frame == ethertype_arp)
    then false
    else if not (get16 (offset frame 14) == 1)
    then false
    else if not (get16 (offset frame 16) == ethertype_ipv4)
    then false
    else if not (frame 18 == eth_addr_len) || not (frame 19 == ipv4_addr_len)
    then false
    else true

-- `for (i = 0; i < 6; i++) buf[OFF_THA + i] = 0`
unfoldable pub clear_tha : Mem → Mem
clear_tha buf = poke (poke (poke (poke (poke (poke buf 32 0) 33 0) 34 0) 35 0) 36 0) 37 0

unfoldable pub arp_build_request : Mem → Mem → Mem → Mem → Mem × ℕ
arp_build_request buf sender_mac sender_ip target_ip =
    let b1 = (ether_build buf eth_broadcast sender_mac ethertype_arp).0 in
    let b2 = fixed_header b1 arp_op_request in
    let b3 = write_at b2 22 (λ m. copy m sender_mac eth_addr_len) in
    let b4 = write_at b3 28 (λ m. copy m sender_ip ipv4_addr_len) in
    let b5 = clear_tha b4 in (write_at b5 38 (λ m. copy m target_ip ipv4_addr_len), arp_frame_len)

unfoldable pub arp_build_reply : Mem → Mem → Mem → Mem → Mem × ℕ
arp_build_reply buf request our_mac our_ip =
    let b1 = (ether_build buf (offset request 22) our_mac ethertype_arp).0 in
    let b2 = fixed_header b1 arp_op_reply in
    let b3 = write_at b2 22 (λ m. copy m our_mac eth_addr_len) in
    let b4 = write_at b3 28 (λ m. copy m our_ip ipv4_addr_len) in
    let b5 = write_at b4 32 (λ m. copy m (offset request 22) eth_addr_len) in
    (write_at b5 38 (λ m. copy m (offset request 28) ipv4_addr_len), arp_frame_len)

-- 0 if the frame is not valid ARP.
unfoldable pub arp_opcode : Mem → ℕ → ℕ
arp_opcode frame len = if not (is_arp frame len) then 0 else get16 (offset frame 20)

unfoldable pub arp_wants_us : Mem → ℕ → Mem → Bool
arp_wants_us frame len our_ip =
    if not (arp_opcode frame len == arp_op_request)
    then false
    else eq (offset frame 38) our_ip ipv4_addr_len

abbrev pub arp_sender_mac : Mem → Mem
arp_sender_mac frame = offset frame 22

abbrev pub arp_sender_ip : Mem → Mem
arp_sender_ip frame = offset frame 28

abbrev pub arp_target_ip : Mem → Mem
arp_target_ip frame = offset frame 38
