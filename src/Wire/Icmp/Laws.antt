-- ===== src/Wire/Icmp/Laws.antt =====
-- The echo reply of src/net/mn_icmp.c, as its receiver reads it.
use mega_net.Base.{
  Mem, IsBytes, poke, offset, write_at, copy, eq, copy_lem, copy-IsBytes, write_at-before,
  write_at-inside, write_at-IsBytes, ℕ, ◌+◌, ◌-◌, ◌^◌, ◌≤◌, ◌<◌, ◌≡◌, refl, ap, ◌∙◌, fun_ext, true,
  arith,
}
use mega_net.Wire.Byteorder.{get16, put16}
use mega_net.Wire.Checksum.{checksum, checksum_valid}
use mega_net.Wire.Checksum.Field.{
  patch, patch-IsBytes, checksum_valid-patch, patch-zero, poke-IsBytes,
}
use mega_net.Wire.Ether.{
  ethertype_ipv4, ether_build, ether_type, ether_dst, ether_src, ether_is_for_us,
}
use mega_net.Wire.Ether.Laws.{ether_build-IsBytes, ether_type-build}
use mega_net.Wire.Icmp.{
  icmp_echo_reply, is_echo, icmp_is_echo_request, echo_message, icmp_build_echo_reply,
}
use mega_net.Wire.Ipv4.{
  ipproto_icmp, ipv4_build, ipv4_header_len, ipv4_total_len, ipv4_valid, ipv4_proto, ipv4_src,
  ipv4_dst, ipv4_payload, ipv4_payload_len, ipv4_addr_eq,
}
use mega_net.Wire.Ipv4.Laws.{ipv4_valid-build, ipv4_build-IsBytes}
use mathlib.Core.Path.{subst}

module _ (oicmp ricmp : Mem) (plen : ℕ) (ho : IsBytes oicmp) (hr : IsBytes ricmp) where
  echo_message-valid :
      8 ≤ plen → plen < 2 ^ 16 → checksum_valid (echo_message oicmp ricmp plen) plen ≡ true
  unfolding echo_message
  echo_message-valid a b =
      let o = poke (copy oicmp ricmp plen) 0 icmp_echo_reply in
      let o2 = patch o 2 0 in
      subst (λ q. checksum_valid (patch o2 2 (checksum q plen)) plen ≡ true)
        (patch-zero o2 2 (unfold put16 in refl) (unfold put16 in refl))
        (checksum_valid-patch o2 plen 1
          (patch-IsBytes o 2 0
            (poke-IsBytes _ 0 0 (omega arith) (copy-IsBytes oicmp ricmp plen ho hr)))
          b (omega arith))

  -- The type is that of a reply, the code and all that follows the checksum are the request's.
  echo_message-bytes :
      8 ≤ plen
      → let o = echo_message oicmp ricmp plen in
        (o 0 ≡ icmp_echo_reply) × (o 1 ≡ ricmp 1) × ((i : ℕ) → 4 ≤ i → i < plen → o i ≡ ricmp i)
  unfolding echo_message put16
  echo_message-bytes a = (
    refl,
    ground (arith, copy_lem oicmp ricmp plen 1),
    λ i p q. ground (arith, copy_lem oicmp ricmp plen i),
  )

-- What the checks on a request say of its lengths.
pub ipv4_valid-lengths :
    (ip : Mem) (len : ℕ)
    → ipv4_valid ip len ≡ true
    → (20 ≤ ipv4_header_len ip)
      × (ipv4_header_len ip ≤ ipv4_total_len ip)
      × (ipv4_total_len ip ≤ len)
unfolding ipv4_valid
ipv4_valid-lengths ip len h = ground arith

request-lengths :
    (request our_ip : Mem) (len : ℕ)
    → len < 2 ^ 16
    → icmp_is_echo_request request len our_ip ≡ true
    → (8 ≤ ipv4_payload_len (offset request 14)) × (34 + ipv4_payload_len (offset request 14) ≤ len)
unfolding icmp_is_echo_request is_echo ipv4_payload_len
request-lengths request our_ip len b h =
    ground (arith, ipv4_valid-lengths (offset request 14) (len - 14))

-- The reply frame, and what it is made of.
module _ (out request our_mac our_ip : Mem) where
  abbrev request_ip : Mem
  request_ip = offset request 14

  abbrev begun : Mem
  begun = (ether_build out (ether_src request) our_mac ethertype_ipv4).0

  abbrev fill_header : Mem → Mem
  fill_header m =
      (ipv4_build m our_ip (ipv4_src request_ip) ipproto_icmp (ipv4_payload_len request_ip)
        (get16 (offset request_ip 4))).0

  abbrev with_header : Mem
  with_header = write_at begun 14 fill_header

  abbrev fill_message : Mem → Mem
  fill_message m = echo_message m (ipv4_payload request_ip) (ipv4_payload_len request_ip)

  reply : Mem
  reply = (icmp_build_echo_reply out request our_mac our_ip).0

  reply_parts : reply ≡ write_at with_header 34 fill_message
  unfolding reply icmp_build_echo_reply
  reply_parts = refl

  reply-ether : (i : ℕ) → i < 14 → reply i ≡ begun i
  reply-ether i h = rw reply_parts (
      write_at-before with_header 34 fill_message i (omega arith)
      ∙ write_at-before begun 14 fill_header i h)

  reply-header : (i : ℕ) → i < 20 → reply (14 + i) ≡ fill_header (offset begun 14) i
  reply-header i h = rw reply_parts (
      write_at-before with_header 34 fill_message (14 + i) (omega arith)
      ∙ write_at-inside begun 14 fill_header i)

  reply-message : offset (offset reply 14) 20 ≡ fill_message (offset with_header 34)
  reply-message = rw reply_parts (
      fun_ext (λ i.
        ap (write_at with_header 34 fill_message) {x = 14 + (20 + i)} {y = 34 + i} (omega arith)
        ∙ write_at-inside with_header 34 fill_message i))

-- All that a reply to a valid echo request is.
icmp_build_echo_reply_lem :
    (out request our_mac our_ip : Mem) (len : ℕ)
    → IsBytes out
    → IsBytes request
    → IsBytes our_mac
    → IsBytes our_ip
    → len < 2 ^ 16
    → icmp_is_echo_request request len our_ip ≡ true
    → let (f, n) = icmp_build_echo_reply out request our_mac our_ip in
      let ip = offset f 14 in
      let asked = ipv4_payload (offset request 14) in
      let plen = ipv4_payload_len (offset request 14) in
      (ether_type f ≡ ethertype_ipv4)
      × (ether_is_for_us f (ether_src request) ≡ true)
      × (n ≡ 34 + plen)
      × (n ≤ len)
      × (ipv4_valid ip (n - 14) ≡ true)
      × (ipv4_proto ip ≡ ipproto_icmp)
      × (ipv4_addr_eq (ipv4_src ip) our_ip ≡ true)
      × (ipv4_addr_eq (ipv4_dst ip) (ipv4_src (offset request 14)) ≡ true)
      × (ipv4_payload_len ip ≡ plen)
      × (checksum_valid (ipv4_payload ip) plen ≡ true)
      × (ipv4_payload ip 0 ≡ icmp_echo_reply)
      × (ipv4_payload ip 1 ≡ asked 1)
      × ((i : ℕ) → 4 ≤ i → i < plen → ipv4_payload ip i ≡ asked i)
icmp_build_echo_reply_lem out request our_mac our_ip len ho hr hm hi b h = (
  ether.0,
  ether.3,
  length,
  omega (arith, length, sizes),
  rw length (header.0),
  header.1,
  header.2,
  header.3,
  header.4,
  rw (header.5, message)
      (echo_message-valid m asked plen m-bytes asked-bytes sizes.0 (omega (arith, sizes))),
  ap (λ (p : Mem). p 0) to_message ∙ bytes.0,
  ap (λ (p : Mem). p 1) to_message ∙ bytes.1,
  λ i p q. ap (λ (t : Mem). t i) to_message ∙ bytes.2 i p q,
)
  where
    plen : ℕ
    plen = ipv4_payload_len (offset request 14)

    asked : Mem
    asked = ipv4_payload (offset request 14)

    f : Mem
    f = (icmp_build_echo_reply out request our_mac our_ip).0

    sizes : (8 ≤ plen) × (34 + plen ≤ len)
    sizes = request-lengths request our_ip len b h

    f-reply : f ≡ reply out request our_mac our_ip
    f-reply = unfold reply in refl

    begun-bytes : IsBytes (begun out request our_mac our_ip)
    begun-bytes =
        ether_build-IsBytes out (ether_src request) our_mac ethertype_ipv4 ho (λ i. hr (6 + i)) hm

    asked-bytes : IsBytes asked
    asked-bytes = unfold ipv4_payload in λ i. hr (14 + (ipv4_header_len (offset request 14) + i))

    ether :
        (ether_type f ≡ ethertype_ipv4)
        × (eq (ether_dst f) (ether_src request) 6 ≡ true)
        × (eq (ether_src f) our_mac 6 ≡ true)
        × (ether_is_for_us f (ether_src request) ≡ true)
    ether =
        ether_type-build out (ether_src request) our_mac ethertype_ipv4 (omega arith) f
          (λ i k. rw f-reply (reply-ether out request our_mac our_ip i k))

    length : (icmp_build_echo_reply out request our_mac our_ip).1 ≡ 34 + plen
    length = unfold icmp_build_echo_reply in omega (arith, sizes)

    src-bytes : IsBytes (ipv4_src (offset request 14))
    src-bytes i = hr (14 + (12 + i))

    header :
        (ipv4_valid (offset f 14) (34 + plen - 14) ≡ true)
        × (ipv4_proto (offset f 14) ≡ ipproto_icmp)
        × (ipv4_addr_eq (ipv4_src (offset f 14)) our_ip ≡ true)
        × (ipv4_addr_eq (ipv4_dst (offset f 14)) (ipv4_src (offset request 14)) ≡ true)
        × (ipv4_payload_len (offset f 14) ≡ plen)
        × (ipv4_payload (offset f 14) ≡ offset (offset f 14) 20)
    header =
        ipv4_valid-build (offset (begun out request our_mac our_ip) 14) our_ip
          (ipv4_src (offset request 14)) ipproto_icmp plen (get16 (offset (offset request 14) 4))
          (34 + plen - 14) (offset f 14) (λ i. begun-bytes (14 + i)) hi src-bytes (omega arith)
          (omega (arith, sizes)) (omega arith)
          (λ i k. rw f-reply (reply-header out request our_mac our_ip i k))

    m : Mem
    m = offset (with_header out request our_mac our_ip) 34

    m-bytes : IsBytes m
    m-bytes i =
        write_at-IsBytes (begun out request our_mac our_ip) 14
          (fill_header out request our_mac our_ip) begun-bytes
          (ipv4_build-IsBytes (offset (begun out request our_mac our_ip) 14) our_ip
            (ipv4_src (offset request 14)) ipproto_icmp plen (get16 (offset (offset request 14) 4))
            (λ j. begun-bytes (14 + j)) hi src-bytes (omega arith))
          (34 + i)

    message : offset (offset f 14) 20 ≡ echo_message m asked plen
    message = rw f-reply (reply-message out request our_mac our_ip)

    to_message : ipv4_payload (offset f 14) ≡ echo_message m asked plen
    to_message = header.5 ∙ message

    bytes :
        (echo_message m asked plen 0 ≡ icmp_echo_reply)
        × (echo_message m asked plen 1 ≡ asked 1)
        × ((i : ℕ) → 4 ≤ i → i < plen → echo_message m asked plen i ≡ asked i)
    bytes = echo_message-bytes m asked plen m-bytes asked-bytes sizes.0

-- The answer to a valid echo request for our address is a frame for its sender, no longer than
-- the request, that holds a valid IPv4 packet from our address to the sender's with an ICMP echo
-- reply of the request's code and a valid checksum.
pub icmp_build_echo_reply-valid :
    (out request our_mac our_ip : Mem) (len : ℕ)
    → IsBytes out
    → IsBytes request
    → IsBytes our_mac
    → IsBytes our_ip
    → len < 2 ^ 16
    → icmp_is_echo_request request len our_ip ≡ true
    → let (f, n) = icmp_build_echo_reply out request our_mac our_ip in
      let ip = offset f 14 in
      let asked = ipv4_payload (offset request 14) in
      let plen = ipv4_payload_len (offset request 14) in
      (ether_type f ≡ ethertype_ipv4)
      × (ether_is_for_us f (ether_src request) ≡ true)
      × (n ≡ 34 + plen)
      × (n ≤ len)
      × (ipv4_valid ip (n - 14) ≡ true)
      × (ipv4_proto ip ≡ ipproto_icmp)
      × (ipv4_addr_eq (ipv4_src ip) our_ip ≡ true)
      × (ipv4_addr_eq (ipv4_dst ip) (ipv4_src (offset request 14)) ≡ true)
      × (ipv4_payload_len ip ≡ plen)
      × (checksum_valid (ipv4_payload ip) plen ≡ true)
      × (ipv4_payload ip 0 ≡ icmp_echo_reply)
      × (ipv4_payload ip 1 ≡ asked 1)
icmp_build_echo_reply-valid out request our_mac our_ip len ho hr hm hi b h =
    let r = icmp_build_echo_reply_lem out request our_mac our_ip len ho hr hm hi b h in
    (r.0, r.1, r.2, r.3, r.4, r.5, r.6, r.7, r.8, r.9, r.10, r.11)

-- The answer to a valid echo request for our address carries the request's identifier, sequence
-- number and data.
pub icmp_build_echo_reply-payload :
    (out request our_mac our_ip : Mem) (len i : ℕ)
    → IsBytes out
    → IsBytes request
    → IsBytes our_mac
    → IsBytes our_ip
    → len < 2 ^ 16
    → icmp_is_echo_request request len our_ip ≡ true
    → 4 ≤ i
    → i < ipv4_payload_len (offset request 14)
    → ipv4_payload (offset (icmp_build_echo_reply out request our_mac our_ip).0 14) i
      ≡ ipv4_payload (offset request 14) i
icmp_build_echo_reply-payload out request our_mac our_ip len i ho hr hm hi b h p q =
    (icmp_build_echo_reply_lem out request our_mac our_ip len ho hr hm hi b h).12 i p q
