-- ===== src/Wire/Udp/Laws.antt =====
-- Building, validating and reading datagrams, src/net/mn_udp.c.
use mega_net.Base.{
  Mem, IsBytes, offset, ◌==◌, if◌then◌else◌, u16, ℕ, zero, suc, ◌+◌, ◌^◌, ◌<◌, ◌≡◌, refl, fun_ext,
  ◌⊎◌, inl, inr, true, arith,
}
use mega_net.Wire.Byteorder.{put16}
use mega_net.Wire.Byteorder.Laws.{word_lem}
use mega_net.Wire.Checksum.{checksum_pseudo}
use mega_net.Wire.Checksum.Field.{patch, patch-IsBytes, patch-zero}
use mega_net.Wire.Checksum.Pseudo.{checksum_pseudo-patch}
use mega_net.Wire.Ipv4.{ipproto_udp}
use mega_net.Wire.Udp.{udp_fields, udp_build, udp_valid, udp_sport, udp_dport, udp_len, udp_payload}

module _ (udp : Mem) (sport dport len : ℕ) where
  pub udp_fields-IsBytes : IsBytes udp → IsBytes (udp_fields udp sport dport len)
  unfolding udp_fields
  udp_fields-IsBytes h =
      patch-IsBytes _ 6 0
        (patch-IsBytes _ 4 len (patch-IsBytes _ 2 dport (patch-IsBytes udp 0 sport h)))

  pub udp_fields-zero_checksum :
      patch (udp_fields udp sport dport len) 6 0 ≡ udp_fields udp sport dport len
  udp_fields-zero_checksum =
      patch-zero _ 6 (unfold udp_fields put16 in refl) (unfold udp_fields put16 in refl)

-- What the readers of the header look at: each 16-bit field by its two bytes.
udp_build-fields :
    (udp src dst : Mem) (sport dport n : ℕ)
    → sport < 2 ^ 16
    → dport < 2 ^ 16
    → 8 + n < 2 ^ 16
    → let u = (udp_build udp src dst sport dport n).0 in
      (udp_sport u ≡ sport) × (udp_dport u ≡ dport) × (udp_len u ≡ 8 + n)
unfolding udp_build udp_fields put16 udp_sport udp_dport udp_len
udp_build-fields udp src dst sport dport n hs hd b = (
  word_lem (offset u 0) sport hs refl refl,
  word_lem (offset u 2) dport hd refl refl,
  word_lem (offset u 4) (8 + n) b (omega arith) (ground arith),
)
  where
    u : Mem
    u = (udp_build udp src dst sport dport n).0

never_zero :
    (c : ℕ)
    → ((if c == 0 then 0xffff else c) ≡ c) ⊎ ((c ≡ 0) × ((if c == 0 then 0xffff else c) ≡ 0xffff))
never_zero zero = inr (refl, refl)
never_zero (suc c) = inl (ground arith)

udp_build-checksum :
    (udp src dst : Mem) (sport dport n : ℕ)
    → IsBytes udp
    → IsBytes src
    → IsBytes dst
    → 8 + n < 2 ^ 16
    → checksum_pseudo src dst ipproto_udp (udp_build udp src dst sport dport n).0 (u16 (8 + n)) ≡ 0
unfolding udp_build
udp_build-checksum udp src dst sport dport n h hs hd b =
    let len : ℕ = u16 (8 + n) in
    let f = udp_fields udp sport dport len in
    let c = checksum_pseudo src dst ipproto_udp f len in
    checksum_pseudo-patch src dst ipproto_udp f len 3 (if c == 0 then 0xffff else c) hs hd
      (omega arith) (udp_fields-IsBytes udp sport dport len h) (omega arith) (omega arith)
      (rw (udp_fields-zero_checksum udp sport dport len) (never_zero c))

-- A datagram built for a payload that fits is accepted under the addresses that it was built for,
-- and its ports, its length and its payload are those that it was built from.
pub udp_valid-build :
    (udp src dst : Mem) (sport dport n : ℕ)
    → IsBytes udp
    → IsBytes src
    → IsBytes dst
    → sport < 2 ^ 16
    → dport < 2 ^ 16
    → 8 + n < 2 ^ 16
    → let (u, len) = udp_build udp src dst sport dport n in
      (udp_valid src dst u len ≡ true)
      × (len ≡ 8 + n)
      × (udp_sport u ≡ sport)
      × (udp_dport u ≡ dport)
      × (udp_payload u ≡ udp_payload udp)
udp_valid-build udp src dst sport dport n h hs hd bs bd b =
    let fields = udp_build-fields udp src dst sport dport n bs bd b in
    (valid, (unfold udp_build in omega arith), fields.0, fields.1, payload)
  where
    length_field : (udp_build udp src dst sport dport n).1 ≡ 8 + n
    length_field = unfold udp_build in omega arith

    valid :
        udp_valid src dst
          (udp_build udp src dst sport dport n).0
          (udp_build udp src dst sport dport n).1
        ≡ true
    valid =
        unfold udp_valid udp_len in
        ground (
          arith,
          length_field,
          udp_build-checksum udp src dst sport dport n h hs hd b,
          (udp_build-fields udp src dst sport dport n bs bd b).2,
        )

    payload : udp_payload (udp_build udp src dst sport dport n).0 ≡ udp_payload udp
    payload = unfold udp_build udp_fields put16 in fun_ext λ i. ground arith
