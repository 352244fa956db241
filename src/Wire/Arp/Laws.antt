-- ===== src/Wire/Arp/Laws.antt =====
-- The two sides of the ARP exchange of src/net/mn_arp.c.
use mega_net.Base.{Mem, offset, copy, eq, le→not-ltb, ℕ, ◌≤◌, ◌≡◌, refl, true, arith}
use mega_net.Wire.Arp.{
  arp_frame_len, arp_op_request, arp_op_reply, fixed_header, is_arp, clear_tha, arp_build_request,
  arp_build_reply, arp_opcode, arp_wants_us, arp_sender_mac, arp_sender_ip, arp_target_ip,
}
use mega_net.Wire.Byteorder.{get16, put16}
use mega_net.Wire.Ether.{addr_eq, addr_copy, ether_build, ether_type, ether_is_for_us}

arp_opcode-request :
    (buf mac ip target : Mem) (len : ℕ)
    → arp_frame_len ≤ len
    → arp_opcode (arp_build_request buf mac ip target).0 len ≡ arp_op_request
unfolding arp_build_request arp_opcode is_arp ether_build ether_type fixed_header clear_tha put16
    get16 copy addr_copy
arp_opcode-request buf mac ip target len h = rw (le→not-ltb len arp_frame_len h)

arp_opcode-reply :
    (buf request mac ip : Mem) (len : ℕ)
    → arp_frame_len ≤ len
    → arp_opcode (arp_build_reply buf request mac ip).0 len ≡ arp_op_reply
unfolding arp_build_reply arp_opcode is_arp ether_build ether_type fixed_header put16 get16 copy
    addr_copy
arp_opcode-reply buf request mac ip len h = rw (le→not-ltb len arp_frame_len h)

target-request :
    (buf mac ip target q : Mem)
    → eq (offset (arp_build_request buf mac ip target).0 38) q 4 ≡ eq target q 4
unfolding arp_build_request copy eq
target-request buf mac ip target q = refl

-- Whom a built request comes from.
sender-request :
    (buf mac ip target : Mem)
    → let f = (arp_build_request buf mac ip target).0 in
      (eq (arp_sender_ip f) ip 4 ≡ true) × (eq (arp_sender_mac f) mac 6 ≡ true)
unfolding arp_build_request copy eq clear_tha
sender-request buf mac ip target = ground arith

broadcast-request :
    (buf mac ip target q : Mem) → ether_is_for_us (arp_build_request buf mac ip target).0 q ≡ true
unfolding arp_build_request copy ether_build addr_copy addr_eq eq clear_tha fixed_header put16
    ether_is_for_us
broadcast-request buf mac ip target q = ground arith

-- A built request, in a buffer of a frame's length at least, reaches every station, is read as a
-- request, is wanted by exactly the stations whose address it asks for, and carries the addresses
-- of the asker.
pub arp_wants_us-request :
    (buf mac ip target our_mac our_ip : Mem) (len : ℕ)
    → arp_frame_len ≤ len
    → let f = (arp_build_request buf mac ip target).0 in
      (ether_is_for_us f our_mac ≡ true)
      × (arp_opcode f len ≡ arp_op_request)
      × (arp_wants_us f len our_ip ≡ eq target our_ip 4)
      × (eq (arp_sender_ip f) ip 4 ≡ true)
      × (eq (arp_sender_mac f) mac 6 ≡ true)
unfolding arp_wants_us
arp_wants_us-request buf mac ip target our_mac our_ip len h = (
  broadcast-request buf mac ip target our_mac,
  arp_opcode-request buf mac ip target len h,
  rw (arp_opcode-request buf mac ip target len h) (target-request buf mac ip target our_ip),
  (sender-request buf mac ip target).0,
  (sender-request buf mac ip target).1,
)

addresses-reply :
    (buf request mac ip : Mem)
    → let r = (arp_build_reply buf request mac ip).0 in
      (ether_is_for_us r (arp_sender_mac request) ≡ true)
      × (eq (arp_sender_ip r) ip 4 ≡ true)
      × (eq (arp_sender_mac r) mac 6 ≡ true)
      × (eq (arp_target_ip r) (arp_sender_ip request) 4 ≡ true)
unfolding arp_build_reply copy ether_build addr_copy addr_eq eq fixed_header put16 ether_is_for_us
addresses-reply buf request mac ip = ground arith

-- The reply to any request, in a buffer of a frame's length at least, reaches the asker's
-- hardware address, is read as a reply, and says that the answerer's address is at the answerer's
-- hardware address.
pub arp_opcode-build_reply :
    (buf request mac ip : Mem) (len : ℕ)
    → arp_frame_len ≤ len
    → let r = (arp_build_reply buf request mac ip).0 in
      (ether_is_for_us r (arp_sender_mac request) ≡ true)
      × (arp_opcode r len ≡ arp_op_reply)
      × (eq (arp_sender_ip r) ip 4 ≡ true)
      × (eq (arp_sender_mac r) mac 6 ≡ true)
      × (eq (arp_target_ip r) (arp_sender_ip request) 4 ≡ true)
arp_opcode-build_reply buf request mac ip len h =
    let a = addresses-reply buf request mac ip in
    (a.0, arp_opcode-reply buf request mac ip len h, a.1, a.2, a.3)
