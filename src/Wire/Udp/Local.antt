-- ===== src/Wire/Udp/Local.antt =====
-- What the test of a datagram of src/net/mn_udp.c looks at: its own bytes and the addresses.
use mega_net.Base.{
  Mem, offset, copy, copy_lem, ℕ, ◌+◌, ◌-◌, ◌^◌, ◌≤◌, ◌<◌, ◌≡◌, refl, ap, fun_ext, arith,
}
use mega_net.Wire.Byteorder.{get16, put16}
use mega_net.Wire.Checksum.{sum16, pseudo_header, checksum_pseudo}
use mega_net.Wire.Checksum.Local.{sum16_local}
use mega_net.Wire.Ipv4.{ipproto_udp}
use mega_net.Wire.Udp.{udp_valid}

pub checksum_pseudo_local :
    (src src' dst dst' : Mem) (proto : ℕ) (p q : Mem) (len : ℕ)
    → len < 2 ^ 16
    → ((i : ℕ) → i < 4 → src i ≡ src' i)
    → ((i : ℕ) → i < 4 → dst i ≡ dst' i)
    → ((i : ℕ) → i < len → p i ≡ q i)
    → checksum_pseudo src dst proto p len ≡ checksum_pseudo src' dst' proto q len
unfolding checksum_pseudo
checksum_pseudo_local src src' dst dst' proto p q len b hs hd h =
    rw (sum16_local p q len b h, header) refl
  where
    same : (j : ℕ) → pseudo_header src dst proto len j ≡ pseudo_header src' dst' proto len j
    same j =
        unfold pseudo_header put16 in
        ground (
          arith,
          copy_lem (λ _. 0) src 4 j,
          copy_lem (λ _. 0) src' 4 j,
          copy_lem (offset (copy (λ _. 0) src 4) 4) dst 4 (j - 4),
          copy_lem (offset (copy (λ _. 0) src' 4) 4) dst' 4 (j - 4),
          copy_lem (λ _. 0) src 4 (4 + (j - 4)),
          copy_lem (λ _. 0) src' 4 (4 + (j - 4)),
          hs j,
          hs (4 + (j - 4)),
          hd (j - 4),
        )

    header :
        sum16 (pseudo_header src dst proto len) 12 ≡ sum16 (pseudo_header src' dst' proto len) 12
    header = ap (λ (m : Mem). sum16 m 12) (fun_ext same)

pub udp_valid_local :
    (src src' dst dst' u v : Mem) (len : ℕ)
    → 8 ≤ len
    → len < 2 ^ 16
    → ((i : ℕ) → i < 4 → src i ≡ src' i)
    → ((i : ℕ) → i < 4 → dst i ≡ dst' i)
    → ((i : ℕ) → i < len → u i ≡ v i)
    → udp_valid src dst u len ≡ udp_valid src' dst' v len
unfolding udp_valid get16
udp_valid_local src src' dst dst' u v len g b hs hd h =
    rw
      (
        h 4 (omega arith),
        h 5 (omega arith),
        h 6 (omega arith),
        h 7 (omega arith),
        checksum_pseudo_local src src' dst dst' ipproto_udp u v len b hs hd h,
      )
      refl
