-- ===== src/Wire/Ipv4.antt =====
-- src/net/mn_ipv4.c: IPv4 headers.
pub mod Laws
use mega_net.Base.{
  ℕ, ◌+◌, ◌*◌, ◌/◌, ◌^◌, bit_and, Bool, false, not, ◌||◌, Mem, poke, offset, write_at, eq, ltb,
  ◌==◌, if◌then◌else◌, u8, u16, sub16,
}
use mega_net.Wire.Byteorder.{get16, put16}
use mega_net.Wire.Checksum.{checksum, checksum_valid}

abbrev pub ipv4_hdr_len : ℕ
ipv4_hdr_len = 20

abbrev pub ipproto_icmp : ℕ
ipproto_icmp = 1

abbrev pub ipproto_tcp : ℕ
ipproto_tcp = 6

abbrev pub ipproto_udp : ℕ
ipproto_udp = 17

-- The header with a zero checksum field: the statements before the last `mn_put16`.
-- The loop over the addresses writes `src_ip[i]` and `dst_ip[i]` in turn.
unfoldable pub ipv4_fields : Mem → Mem → Mem → ℕ → ℕ → ℕ → Mem
ipv4_fields pkt src_ip dst_ip proto payload_len id =
    let p1 = poke (poke pkt 0 0x45) 1 0 in
    let p2 = write_at p1 2 (λ m. put16 m (u16 (ipv4_hdr_len + payload_len))) in
    let p3 = write_at p2 4 (λ m. put16 m id) in
    let p4 = write_at p3 6 (λ m. put16 m 0x4000) in
    let p5 = poke (poke p4 8 64) 9 proto in
    let p6 = write_at p5 10 (λ m. put16 m 0) in
    let p7 = poke (poke p6 12 (src_ip 0)) 16 (dst_ip 0) in
    let p8 = poke (poke p7 13 (src_ip 1)) 17 (dst_ip 1) in
    let p9 = poke (poke p8 14 (src_ip 2)) 18 (dst_ip 2) in
    poke (poke p9 15 (src_ip 3)) 19 (dst_ip 3)

unfoldable pub ipv4_build : Mem → Mem → Mem → ℕ → ℕ → ℕ → Mem × ℕ
ipv4_build pkt src_ip dst_ip proto payload_len id =
    let p = ipv4_fields pkt src_ip dst_ip proto payload_len id in
    (write_at p 10 (λ m. put16 m (checksum p ipv4_hdr_len)), ipv4_hdr_len)

-- `mn_ipv4_hdr_len`: IHL * 4
unfoldable pub ipv4_header_len : Mem → ℕ
ipv4_header_len pkt = u8 (bit_and (pkt 0) 0x0f * 4)

unfoldable pub ipv4_total_len : Mem → ℕ
ipv4_total_len pkt = get16 (offset pkt 2)

unfoldable pub ipv4_valid : Mem → ℕ → Bool
ipv4_valid pkt len =
    if ltb len ipv4_hdr_len
    then false
    else if not (pkt 0 / 2 ^ 4 == 4)
    then false
    else (let hl = ipv4_header_len pkt in
        if ltb hl ipv4_hdr_len || ltb len hl
        then false
        else (let tl = ipv4_total_len pkt in
            if ltb tl hl || ltb len tl then false else checksum_valid pkt hl))

abbrev pub ipv4_proto : Mem → ℕ
ipv4_proto pkt = pkt 9

abbrev pub ipv4_src : Mem → Mem
ipv4_src pkt = offset pkt 12

abbrev pub ipv4_dst : Mem → Mem
ipv4_dst pkt = offset pkt 16

unfoldable pub ipv4_payload : Mem → Mem
ipv4_payload pkt = offset pkt (ipv4_header_len pkt)

unfoldable pub ipv4_payload_len : Mem → ℕ
ipv4_payload_len pkt = sub16 (ipv4_total_len pkt) (ipv4_header_len pkt)

unfoldable pub ipv4_addr_eq : Mem → Mem → Bool
ipv4_addr_eq a b = eq a b 4
