-- ===== src/Net/Arrival.antt =====
-- A datagram of src/net/mn_net.c from the program that sends it to the one that receives it.
use mega_net.Base.{
  Mem, IsBytes, offset, write_at, copy, eq, copy_lem, copy-IsBytes, eq_from_sound, write_at-IsBytes,
  ℕ, ◌+◌, ◌-◌, ◌^◌, ◌≤◌, ◌<◌, ◌≡◌, ap, ◌∙◌, true, arith,
}
use mega_net.Net.Outgoing.{
  datagram, with_datagram, packet, sent_frame, packet-datagram, sent_frame-packet,
}
use mega_net.Net.State.{udp_max_payload, Sys}
use mega_net.Wire.Byteorder.{get16}
use mega_net.Wire.Checksum.Field.{patch-IsBytes}
use mega_net.Wire.Ether.{ethertype_ipv4, ether_type, ether_dst, ether_src, ether_is_for_us}
use mega_net.Wire.Ether.Laws.{ether_type-build}
use mega_net.Wire.Ipv4.{
  ipproto_udp, ipv4_valid, ipv4_proto, ipv4_src, ipv4_dst, ipv4_payload, ipv4_payload_len,
  ipv4_addr_eq,
}
use mega_net.Wire.Ipv4.Laws.{ipv4_valid-build}
use mega_net.Wire.Udp.{udp_build, udp_valid, udp_sport, udp_dport, udp_payload}
use mega_net.Wire.Udp.Laws.{udp_fields-IsBytes, udp_valid-build}
use mega_net.Wire.Udp.Local.{udp_valid_local}
use mathlib.Core.Path.{subst}

-- What a station reads in memory `g` that begins with the frame of a datagram.
module _ (s : Sys) (dst mac : Mem) (sport dport : ℕ) (payload : Mem) (n : ℕ) (ht : IsBytes s.txf)
    (hi : IsBytes s.net.ip) (hd : IsBytes dst) (hp : IsBytes payload) (bs : sport < 2 ^ 16)
    (bd : dport < 2 ^ 16) (fits : n ≤ udp_max_payload) where
  with_payload-IsBytes : IsBytes (write_at s.txf 42 (λ m. copy m payload n))
  with_payload-IsBytes =
      write_at-IsBytes s.txf 42 (λ m. copy m payload n) ht
        (copy-IsBytes (offset s.txf 42) payload n (λ i. ht (42 + i)) hp)

  abbrev before : Mem
  before = offset (write_at s.txf 42 (λ m. copy m payload n)) 34

  built :
      let u = datagram s dst mac sport dport payload n in
      (udp_valid s.net.ip dst u (8 + n) ≡ true)
      × (udp_sport u ≡ sport)
      × (udp_dport u ≡ dport)
      × (udp_payload u ≡ udp_payload before)
  unfolding datagram
  built =
      let (v, l, sp, dp, rest) =
        udp_valid-build before s.net.ip dst sport dport n (λ i. with_payload-IsBytes (34 + i)) hi hd
          bs bd (omega arith) in
      (
        subst (λ k. udp_valid s.net.ip dst (udp_build before s.net.ip dst sport dport n).0 k ≡ true)
            l v,
        sp,
        dp,
        rest,
      )

  datagram-IsBytes : IsBytes (datagram s dst mac sport dport payload n)
  unfolding datagram udp_build
  datagram-IsBytes =
      patch-IsBytes _ 6 _
        (udp_fields-IsBytes before sport dport _ (λ i. with_payload-IsBytes (34 + i)))

  module _ (g : Mem)
      (same : (i : ℕ) → i < 42 + n → g i ≡ sent_frame s dst mac sport dport payload n i) where
    pub ether_header :
        (ether_type g ≡ ethertype_ipv4)
        × (eq (ether_dst g) mac 6 ≡ true)
        × (eq (ether_src g) s.nif.mac 6 ≡ true)
        × (ether_is_for_us g mac ≡ true)
    unfolding sent_frame
    ether_header =
        ether_type-build
          (write_at (with_datagram s dst mac sport dport payload n) 14
            (λ m. packet s dst mac sport dport payload n))
          mac s.nif.mac ethertype_ipv4 (omega arith) g (λ i h. same i (omega arith))

    same_packet : (i : ℕ) → i < 28 + n → g (14 + i) ≡ packet s dst mac sport dport payload n i
    same_packet i h =
        same (14 + i) (omega arith)
        ∙ ap (λ (m : Mem). m i) (sent_frame-packet s dst mac sport dport payload n)

    same_datagram :
        (i : ℕ) → i < 8 + n → g (14 + (20 + i)) ≡ datagram s dst mac sport dport payload n i
    same_datagram i h =
        same_packet (20 + i) (omega arith)
        ∙ ap (λ (m : Mem). m i) (packet-datagram s dst mac sport dport payload n)

    pub ip_header :
        let p = offset g 14 in
        (ipv4_valid p (28 + n) ≡ true)
        × (ipv4_proto p ≡ ipproto_udp)
        × (ipv4_addr_eq (ipv4_src p) s.net.ip ≡ true)
        × (ipv4_addr_eq (ipv4_dst p) dst ≡ true)
        × (ipv4_payload_len p ≡ 8 + n)
        × (ipv4_payload p ≡ offset p 20)
    unfolding packet with_datagram
    ip_header =
        ipv4_valid-build (offset (with_datagram s dst mac sport dport payload n) 14) s.net.ip dst
          ipproto_udp (8 + n) s.net.ip_id (28 + n) (offset g 14)
          (λ i.
            write_at-IsBytes (write_at s.txf 42 (λ m. copy m payload n)) 34
              (λ m. datagram s dst mac sport dport payload n) with_payload-IsBytes datagram-IsBytes
              (14 + i))
          hi hd (omega arith) (omega arith) (omega arith) (λ i h. same_packet i (omega arith))

    pub addresses :
        ((i : ℕ) → i < 4 → ipv4_src (offset g 14) i ≡ s.net.ip i)
        × ((i : ℕ) → i < 4 → ipv4_dst (offset g 14) i ≡ dst i)
    unfolding ipv4_addr_eq eq
    addresses =
        let (_, _, from, to, _, _) = ip_header in
        (
          λ i h.
              eq_from_sound 4 0 (ipv4_src (offset g 14)) s.net.ip i from (omega arith)
                (omega arith),
          λ i h. eq_from_sound 4 0 (ipv4_dst (offset g 14)) dst i to (omega arith) (omega arith),
        )

    written : (i : ℕ) → i < n → before (8 + i) ≡ payload i
    written i h = ground (
      arith,
      copy_lem (offset s.txf 42) payload n i,
      ap (copy (offset s.txf 42) payload n) {x = 34 + (8 + i) - 42} {y = i} (omega arith),
    )

    pub udp_header :
        let p = offset g 14 in
        (udp_valid (ipv4_src p) (ipv4_dst p) (ipv4_payload p) (8 + n) ≡ true)
        × (udp_sport (ipv4_payload p) ≡ sport)
        × (udp_dport (ipv4_payload p) ≡ dport)
        × ((i : ℕ) → i < n → udp_payload (ipv4_payload p) i ≡ payload i)
    udp_header =
        let (_, _, _, _, _, at) = ip_header in
        let (v, sp, dp, rest) = built in
        let u = datagram s dst mac sport dport payload n in
        rw at (
          udp_valid_local (ipv4_src (offset g 14)) s.net.ip (ipv4_dst (offset g 14)) dst
                (offset (offset g 14) 20) u (8 + n) (omega arith) (omega arith) addresses.0
                addresses.1 same_datagram
              ∙ v,
          (unfold udp_sport get16 in
              rw (same_datagram 0 (omega arith), same_datagram 1 (omega arith)) sp),
          (unfold udp_dport get16 in
              rw (same_datagram 2 (omega arith), same_datagram 3 (omega arith)) dp),
          λ i h. same_datagram (8 + i) (omega arith) ∙ ap (λ (m : Mem). m i) rest ∙ written i h,
        )
