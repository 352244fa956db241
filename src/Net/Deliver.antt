-- ===== src/Net/Deliver.antt =====
-- A datagram of src/net/mn_net.c from the frame to the program that reads it.
use mega_net.Base.{
  Mem, ltb, leb, ◌==◌, if◌then◌else◌, sub16, ℕ, zero, suc, ◌+◌, ◌-◌, ◌*◌, ◌^◌, ◌≤◌, ◌<◌, ◌≡◌, refl,
  ap, true, false, ◌||◌, some, arith,
}
use mega_net.Net.Receive.{sock_on_port, store_udp, deliver_udp}
use mega_net.Net.Sockets.{Received, net_udp_recv}
use mega_net.Net.State.{udp_sockets, udp_sock_buf, UdpSock, Net, Sys, copy4}
use mega_net.Wire.Ipv4.{ipv4_src, ipv4_dst, ipv4_payload, ipv4_payload_len}
use mega_net.Wire.Udp.{udp_hdr_len, udp_valid, udp_sport, udp_dport, udp_payload}
use mega_net.Xmem.{xmem_read, xmem_write}
use mega_net.Xmem.Laws.{xmem_read_lem, xmem_write_lem}

sock_on_port-in :
    (n i : ℕ) (net : Net) (port k : ℕ)
    → sock_on_port n i net port ≡ some k
    → (k < i + n) × ((net.sock k).port ≡ port)
unfolding sock_on_port
sock_on_port-in zero i net port k e = ground arith
sock_on_port-in (suc n) i net port k e = ground (arith, sock_on_port-in n (i + 1) net port k)

-- The socket buffers are addressed by words.
abbrev pub HasBuffer : UdpSock → Type 0
HasBuffer k = (k.xseg < 2 ^ 16) × (k.xoff < 2 ^ 16)

recv-store :
    (s : Sys) (ip buf from : Mem) (cap i : ℕ)
    → i < udp_sockets
    → (s.net.sock i).pending ≡ false
    → sub16 (ipv4_payload_len ip) udp_hdr_len ≤ udp_sock_buf
    → HasBuffer (s.net.sock i)
    → let s' = store_udp s ip i in
      let plen = sub16 (ipv4_payload_len ip) udp_hdr_len in
      (r : Received) × ((net_udp_recv s'.net s'.pool i buf cap from).1 ≡ some r)
      × (r.len ≡ (if ltb cap plen then cap else plen))
      × (r.src_port ≡ udp_sport (ipv4_payload ip))
      × ((j : ℕ) → j < 4 → r.src_ip j ≡ ipv4_src ip j)
      × ((j : ℕ) → r.buf j ≡ (if ltb j r.len then udp_payload (ipv4_payload ip) j else buf j))
unfolding store_udp net_udp_recv
recv-store s ip buf from cap i h p l b =
    let k = s.net.sock i in
    let payload = udp_payload (ipv4_payload ip) in
    let plen = sub16 (ipv4_payload_len ip) udp_hdr_len in
    let n = if ltb cap plen then cap else plen in
    let pool = xmem_write s.pool k.xseg k.xoff payload plen in
    let taken : (k.pending || ltb udp_sock_buf plen) ≡ false = ground arith in
    let known : leb udp_sockets i ≡ false = ground arith in
    let same : (i == i) ≡ true = ground arith in
    let r : Received = record {
      buf = xmem_read pool buf k.xseg k.xoff n;
      len = n;
      src_ip = copy4 from (copy4 k.src_ip (ipv4_src ip));
      src_port = udp_sport (ipv4_payload ip);
    } in
    (
      r,
      rw (taken, known, same) refl,
      refl,
      refl,
      λ j h. ground arith,
      λ j. ground (
        arith,
        xmem_read_lem pool buf k.xseg k.xoff n j b.0 b.1,
        xmem_write_lem s.pool payload k.xseg k.xoff plen (k.xseg * 2 ^ 16 + k.xoff + j) b.0 b.1,
        ap payload {x = (k.xseg * 2 ^ 16 + k.xoff + j) - (k.xseg * 2 ^ 16 + k.xoff)} {y = j}
            (omega arith),
      ),
    )

-- A valid datagram for a port that is open on a socket where none waits, no longer than the
-- socket's buffer, is handed out by the next receive: its payload up to the capacity, with the
-- length, the source port and the four bytes of the source address.
pub net_udp_recv-deliver_udp :
    (s : Sys) (ip buf from : Mem) (cap i : ℕ)
    → udp_valid (ipv4_src ip) (ipv4_dst ip) (ipv4_payload ip) (ipv4_payload_len ip) ≡ true
    → sock_on_port udp_sockets 0 s.net (udp_dport (ipv4_payload ip)) ≡ some i
    → (s.net.sock i).pending ≡ false
    → sub16 (ipv4_payload_len ip) udp_hdr_len ≤ udp_sock_buf
    → HasBuffer (s.net.sock i)
    → let s' = deliver_udp s ip in
      let plen = sub16 (ipv4_payload_len ip) udp_hdr_len in
      (r : Received) × ((net_udp_recv s'.net s'.pool i buf cap from).1 ≡ some r)
      × (r.len ≡ (if ltb cap plen then cap else plen))
      × (r.src_port ≡ udp_sport (ipv4_payload ip))
      × ((j : ℕ) → j < 4 → r.src_ip j ≡ ipv4_src ip j)
      × ((j : ℕ) → r.buf j ≡ (if ltb j r.len then udp_payload (ipv4_payload ip) j else buf j))
unfolding deliver_udp
net_udp_recv-deliver_udp s ip buf from cap i v e p l b =
    let (h, port) = sock_on_port-in udp_sockets 0 s.net (udp_dport (ipv4_payload ip)) i e in
    rw (v, e) (recv-store s ip buf from cap i (omega (arith, h)) p l b)
