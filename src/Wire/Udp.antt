-- ===== src/Wire/Udp.antt =====
-- src/net/mn_udp.c: UDP datagrams.
pub mod Laws
pub mod Local
use mega_net.Base.{
  ℕ, ◌+◌, Bool, true, false, not, Mem, offset, write_at, ltb, ◌==◌, if◌then◌else◌, u16,
}
use mega_net.Wire.Byteorder.{get16, put16}
use mega_net.Wire.Checksum.{checksum_pseudo}
use mega_net.Wire.Ipv4.{ipproto_udp}

abbrev pub udp_hdr_len : ℕ
udp_hdr_len = 8

-- The header with a zero checksum field.
unfoldable pub udp_fields : Mem → ℕ → ℕ → ℕ → Mem
udp_fields udp sport dport len =
    let u1 = write_at udp 0 (λ m. put16 m sport) in
    let u2 = write_at u1 2 (λ m. put16 m dport) in
    let u3 = write_at u2 4 (λ m. put16 m len) in write_at u3 6 (λ m. put16 m 0)

unfoldable pub udp_build : Mem → Mem → Mem → ℕ → ℕ → ℕ → Mem × ℕ
udp_build udp src_ip dst_ip sport dport payload_len =
    let len = u16 (udp_hdr_len + payload_len) in
    let u = udp_fields udp sport dport len in
    let c = checksum_pseudo src_ip dst_ip ipproto_udp u len in
    (write_at u 6 (λ m. put16 m (if c == 0 then 0xffff else c)), len)

unfoldable pub udp_valid : Mem → Mem → Mem → ℕ → Bool
udp_valid src_ip dst_ip udp udp_len =
    if ltb udp_len udp_hdr_len
    then false
    else if not (get16 (offset udp 4) == udp_len)
    then false
    else if get16 (offset udp 6) == 0
    then true
    else checksum_pseudo src_ip dst_ip ipproto_udp udp udp_len == 0

unfoldable pub udp_sport : Mem → ℕ
udp_sport udp = get16 (offset udp 0)

unfoldable pub udp_dport : Mem → ℕ
udp_dport udp = get16 (offset udp 2)

unfoldable pub udp_len : Mem → ℕ
udp_len udp = get16 (offset udp 4)

abbrev pub udp_payload : Mem → Mem
udp_payload udp = offset udp udp_hdr_len
