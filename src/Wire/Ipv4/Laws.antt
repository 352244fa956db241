-- ===== src/Wire/Ipv4/Laws.antt =====
-- Building, validating and reading IPv4 headers, src/net/mn_ipv4.c.
use mega_net.Base.{
  Mem, IsBytes, poke, offset, eq_from, eq, eq_congr, u16, ℕ, ◌+◌, ◌*◌, ◌/◌, ◌%◌, ◌^◌, ◌≤◌, ◌<◌,
  bit_and, ◌≡◌, refl, ap, ◌∙◌, true, arith,
}
use mega_net.Wire.Byteorder.{put16}
use mega_net.Wire.Byteorder.Laws.{word_lem}
use mega_net.Wire.Checksum.{checksum, checksum_valid}
use mega_net.Wire.Checksum.Field.{
  patch, patch-IsBytes, checksum_valid-patch, patch-zero, poke-IsBytes,
}
use mega_net.Wire.Checksum.Local.{checksum_valid_local}
use mega_net.Wire.Ipv4.{
  ipv4_fields, ipv4_build, ipv4_header_len, ipv4_total_len, ipv4_valid, ipv4_proto, ipv4_src,
  ipv4_dst, ipv4_payload, ipv4_payload_len, ipv4_addr_eq,
}
use mathlib.Core.Path.{subst}
use native.Mathlib.Nat.{mod-eq_of_lt}

module _ (pkt src dst : Mem) (proto n id : ℕ) (h : IsBytes pkt) (hs : IsBytes src)
    (hd : IsBytes dst) (hp : proto < 256) where
  addresses-IsBytes :
      (p : Mem)
      → IsBytes p
      → IsBytes (
          let p7 = poke (poke p 12 (src 0)) 16 (dst 0) in
          let p8 = poke (poke p7 13 (src 1)) 17 (dst 1) in
          let p9 = poke (poke p8 14 (src 2)) 18 (dst 2) in poke (poke p9 15 (src 3)) 19 (dst 3))
  addresses-IsBytes p k =
      let k1 = poke-IsBytes _ 16 (dst 0) (hd 0) (poke-IsBytes p 12 (src 0) (hs 0) k) in
      let k2 = poke-IsBytes _ 17 (dst 1) (hd 1) (poke-IsBytes _ 13 (src 1) (hs 1) k1) in
      let k3 = poke-IsBytes _ 18 (dst 2) (hd 2) (poke-IsBytes _ 14 (src 2) (hs 2) k2) in
      poke-IsBytes _ 19 (dst 3) (hd 3) (poke-IsBytes _ 15 (src 3) (hs 3) k3)

  ipv4_fields-IsBytes : IsBytes (ipv4_fields pkt src dst proto n id)
  unfolding ipv4_fields
  ipv4_fields-IsBytes =
      let k1 = poke-IsBytes _ 1 0 (omega arith) (poke-IsBytes pkt 0 0x45 (omega arith) h) in
      let k2 = patch-IsBytes _ 4 id (patch-IsBytes _ 2 (u16 (20 + n)) k1) in
      let k3 = poke-IsBytes _ 8 64 (omega arith) (patch-IsBytes _ 6 0x4000 k2) in
      addresses-IsBytes _ (patch-IsBytes _ 10 0 (poke-IsBytes _ 9 proto hp k3))

  -- The checksum of a built header verifies.
  pub ipv4_build-checksum_valid : checksum_valid (ipv4_build pkt src dst proto n id).0 20 ≡ true
  unfolding ipv4_build
  ipv4_build-checksum_valid =
      let f = ipv4_fields pkt src dst proto n id in
      subst (λ q. checksum_valid (patch f 10 (checksum q 20)) 20 ≡ true) zero_field
        (checksum_valid-patch f 20 5 ipv4_fields-IsBytes (omega arith) (omega arith))
    where
      zero_field :
          patch (ipv4_fields pkt src dst proto n id) 10 0 ≡ ipv4_fields pkt src dst proto n id
      zero_field =
          patch-zero _ 10 (unfold ipv4_fields put16 in refl) (unfold ipv4_fields put16 in refl)

-- The bytes of a built header that the readers look at.
module _ (pkt src dst : Mem) (proto n id : ℕ) where
  pub ipv4_build-addresses :
      let p = (ipv4_build pkt src dst proto n id).0 in
      (ipv4_addr_eq (ipv4_src p) src ≡ true) × (ipv4_addr_eq (ipv4_dst p) dst ≡ true)
  unfolding ipv4_build ipv4_fields ipv4_addr_eq put16 eq eq_from
  ipv4_build-addresses = ground arith

-- A packet that begins with a built header, for a payload that fits, is accepted as valid with
-- that payload available, and its protocol, addresses, payload length and payload are the ones
-- given.
pub ipv4_valid-build :
    (pkt src dst : Mem) (proto n id len : ℕ) (p : Mem)
    → IsBytes pkt
    → IsBytes src
    → IsBytes dst
    → proto < 256
    → 20 + n < 2 ^ 16
    → 20 + n ≤ len
    → ((i : ℕ) → i < 20 → p i ≡ (ipv4_build pkt src dst proto n id).0 i)
    → (ipv4_valid p len ≡ true)
      × (ipv4_proto p ≡ proto)
      × (ipv4_addr_eq (ipv4_src p) src ≡ true)
      × (ipv4_addr_eq (ipv4_dst p) dst ≡ true)
      × (ipv4_payload_len p ≡ n)
      × (ipv4_payload p ≡ offset p 20)
ipv4_valid-build pkt src dst proto n id len p h hs hd hp b g same = (
  (unfold ipv4_valid in ground (arith, same 0 (omega arith), version, header_len, total_len, sum)),
  same 9 (omega arith) ∙ protocol,
  addresses 12 src (λ i k. same (12 + i) (omega arith))
      (ipv4_build-addresses pkt src dst proto n id).0,
  addresses 16 dst (λ i k. same (16 + i) (omega arith))
      (ipv4_build-addresses pkt src dst proto n id).1,
  (unfold ipv4_payload_len in ground (arith, header_len, total_len)),
  (unfold ipv4_payload in rw header_len),
)
  where
    built : Mem
    built = (ipv4_build pkt src dst proto n id).0

    protocol : built 9 ≡ proto
    protocol = unfold ipv4_build ipv4_fields put16 in refl

    version : built 0 ≡ 0x45
    version = unfold ipv4_build ipv4_fields put16 in refl

    high : built 2 ≡ u16 (20 + n) / 2 ^ 8 % 2 ^ 8
    high = unfold ipv4_build ipv4_fields put16 in refl

    low : built 3 ≡ bit_and (u16 (20 + n)) 0xff % 2 ^ 8
    low = unfold ipv4_build ipv4_fields put16 in refl

    header_len : ipv4_header_len p ≡ 20
    header_len =
        unfold ipv4_header_len in
        ap (λ (b0 : ℕ). bit_and b0 0x0f * 4 % 2 ^ 8) (same 0 (omega arith) ∙ version)

    total_len : ipv4_total_len p ≡ 20 + n
    total_len =
        unfold ipv4_total_len in
        word_lem (offset p 2) (u16 (20 + n)) (omega arith) (same 2 (omega arith) ∙ high)
          (same 3 (omega arith) ∙ low)
        ∙ mod-eq_of_lt b

    sum : checksum_valid p 20 ≡ true
    sum =
        checksum_valid_local p built 20 (omega arith) same
        ∙ ipv4_build-checksum_valid pkt src dst proto n id h hs hd hp

    addresses :
        (k : ℕ) (a : Mem)
        → ((i : ℕ) → i < 4 → p (k + i) ≡ built (k + i))
        → ipv4_addr_eq (offset built k) a ≡ true
        → ipv4_addr_eq (offset p k) a ≡ true
    addresses k a s e =
        let same_field : ipv4_addr_eq (offset p k) a ≡ ipv4_addr_eq (offset built k) a =
          unfold ipv4_addr_eq in eq_congr (offset p k) (offset built k) a 4 s in
        same_field ∙ e

pub ipv4_build-IsBytes :
    (pkt src dst : Mem) (proto n id : ℕ)
    → IsBytes pkt
    → IsBytes src
    → IsBytes dst
    → proto < 256
    → IsBytes (ipv4_build pkt src dst proto n id).0
unfolding ipv4_build
ipv4_build-IsBytes pkt src dst proto n id h hs hd hp =
    patch-IsBytes _ 10 _ (ipv4_fields-IsBytes pkt src dst proto n id h hs hd hp)
