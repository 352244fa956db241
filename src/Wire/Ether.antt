-- ===== src/Wire/Ether.antt =====
-- src/net/mn_ether.c: the Ethernet header.
pub mod Laws
use mega_net.Base.{Mem, offset, write_at, copy, eq, ℕ, Bool, ◌||◌}
use mega_net.Wire.Byteorder.{get16, put16}

abbrev pub eth_hdr_len : ℕ
eth_hdr_len = 14

abbrev pub eth_addr_len : ℕ
eth_addr_len = 6

abbrev pub max_frame : ℕ
max_frame = 1518

abbrev pub ethertype_ipv4 : ℕ
ethertype_ipv4 = 0x0800

abbrev pub ethertype_arp : ℕ
ethertype_arp = 0x0806

-- `mn_eth_broadcast`
abbrev pub eth_broadcast : Mem
eth_broadcast = λ _. 0xff

unfoldable pub addr_eq : Mem → Mem → Bool
addr_eq a b = eq a b eth_addr_len

unfoldable pub addr_copy : Mem → Mem → Mem
addr_copy dst src = copy dst src eth_addr_len

-- The header written at `buf`, and the length that is returned.
unfoldable pub ether_build : Mem → Mem → Mem → ℕ → Mem × ℕ
ether_build buf dst src ethertype =
    let b1 = write_at buf 0 (λ m. addr_copy m dst) in
    let b2 = write_at b1 6 (λ m. addr_copy m src) in
    (write_at b2 12 (λ m. put16 m ethertype), eth_hdr_len)

unfoldable pub ether_type : Mem → ℕ
ether_type frame = get16 (offset frame 12)

abbrev pub ether_dst : Mem → Mem
ether_dst frame = offset frame 0

abbrev pub ether_src : Mem → Mem
ether_src frame = offset frame 6

unfoldable pub ether_is_for_us : Mem → Mem → Bool
ether_is_for_us frame our_mac =
    let dst = offset frame 0 in addr_eq dst our_mac || addr_eq dst eth_broadcast
