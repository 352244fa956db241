-- ===== src/Net/Across.antt =====
-- A datagram of src/net/mn_net.c from mn_net_send_udp of one station to mn_net_udp_recv of another.
use mega_net.Base.{
  Mem, IsBytes, offset, copy, eq, copy_lem, eq_trans, ltb, if◌then◌else◌, u16, sub16, ℕ, ◌+◌, ◌^◌,
  ◌≤◌, ◌<◌, ◌≡◌, refl, sym, ap, ◌∙◌, true, false, Option, some, [], ◌∷◌, ◌++◌, arith,
}
use mega_net.Net.Arrival.{ether_header, ip_header, addresses, udp_header}
use mega_net.Net.Deliver.{HasBuffer, net_udp_recv-deliver_udp}
use mega_net.Net.Outgoing.{Resolves, sent_frame, net_send_udp-sent, net_send_udp-txf}
use mega_net.Net.Receive.{sock_on_port, deliver_udp, accepts, ipv4_input, frame_input, net_poll}
use mega_net.Net.Sockets.{Received, net_udp_recv}
use mega_net.Net.State.{udp_sockets, udp_sock_buf, udp_max_payload, Frame, Net, Sys, limited_bcast}
use mega_net.Net.Transmit.{net_send_udp}
use mega_net.Wire.Ether.{eth_hdr_len, max_frame, eth_broadcast, addr_eq, ether_dst, ether_is_for_us}
use mega_net.Wire.Ipv4.{ipv4_dst, ipv4_payload_len, ipv4_addr_eq}
use mega_net.Wire.Udp.{udp_hdr_len}
use mathlib.Core.Path.{subst}

accepts_addr :
    (net : Net) (a b : Mem) → ipv4_addr_eq a b ≡ true → accepts net b ≡ true → accepts net a ≡ true
unfolding accepts ipv4_addr_eq
accepts_addr net a b e h = rw (eq_trans a b net.ip 4 e, eq_trans a b limited_bcast 4 e) h

for_us_addr :
    (f mac our : Mem)
    → eq (ether_dst f) mac 6 ≡ true
    → ether_is_for_us mac our ≡ true
    → ether_is_for_us f our ≡ true
unfolding ether_is_for_us addr_eq eq
for_us_addr f mac our e h =
    rw (eq_trans (ether_dst f) mac our 6 e, eq_trans (ether_dst f) mac eth_broadcast 6 e) h

-- Handing out the first bytes of a datagram looks at no byte behind it.
capped_congr :
    (a b buf : Mem) (cap n k j : ℕ)
    → k ≡ (if ltb cap n then cap else n)
    → ((i : ℕ) → i < n → a i ≡ b i)
    → (if ltb j k then a j else buf j) ≡ (if ltb j k then b j else buf j)
capped_congr a b buf cap n k j l h = ground (arith, l, h j)

module _ (s : Sys) (dst mac : Mem) (sport dport : ℕ) (payload : Mem) (n : ℕ) (ht : IsBytes s.txf)
    (hi : IsBytes s.net.ip) (hd : IsBytes dst) (hp : IsBytes payload) (bs : sport < 2 ^ 16)
    (bd : dport < 2 ^ 16) (fits : n ≤ udp_max_payload) {T : Type 0}
    (upper : Option (T → Sys → Mem → T × Sys)) where
  frame_input-sent :
      (t : T) (p : Sys)
      → ((i : ℕ) → i < 42 + n → p.rxf i ≡ sent_frame s dst mac sport dport payload n i)
      → ether_is_for_us mac p.nif.mac ≡ true
      → accepts p.net dst ≡ true
      → frame_input upper t p (42 + n) ≡ (t, deliver_udp p (offset p.rxf 14))
  unfolding frame_input ipv4_input
  frame_input-sent t p same us ours =
      let (ty, to, _, _) =
        ether_header s dst mac sport dport payload n ht hi hd hp bs bd fits p.rxf same in
      let (v, proto, _, to_ip, _, _) =
        ip_header s dst mac sport dport payload n ht hi hd hp bs bd fits p.rxf same in
      let len : sub16 (42 + n) eth_hdr_len ≡ 28 + n = omega arith in
      let long : ltb (42 + n) eth_hdr_len ≡ false = ground arith in
      let longer : ltb (42 + n) (14 + 20) ≡ false = ground arith in
      rw
        (
          for_us_addr p.rxf mac p.nif.mac to us,
          ty,
          len,
          v,
          accepts_addr p.net (ipv4_dst (offset p.rxf 14)) dst to_ip ours,
          proto,
          long,
          longer,
        )
        refl

  received :
      (p : Sys) (buf from : Mem) (cap i : ℕ)
      → ((i : ℕ) → i < 42 + n → p.rxf i ≡ sent_frame s dst mac sport dport payload n i)
      → sock_on_port udp_sockets 0 p.net dport ≡ some i
      → (p.net.sock i).pending ≡ false
      → n ≤ udp_sock_buf
      → HasBuffer (p.net.sock i)
      → let p' = deliver_udp p (offset p.rxf 14) in
        (r : Received) × ((net_udp_recv p'.net p'.pool i buf cap from).1 ≡ some r)
        × (r.len ≡ (if ltb cap n then cap else n))
        × (r.src_port ≡ sport)
        × ((j : ℕ) → j < 4 → r.src_ip j ≡ s.net.ip j)
        × ((j : ℕ) → r.buf j ≡ (if ltb j r.len then payload j else buf j))
  received p buf from cap i same e free small b =
      let ip = offset p.rxf 14 in
      let (_, _, _, _, plen, _) =
        ip_header s dst mac sport dport payload n ht hi hd hp bs bd fits p.rxf same in
      let (v, sp, dp, rest) =
        udp_header s dst mac sport dport payload n ht hi hd hp bs bd fits p.rxf same in
      let size : sub16 (ipv4_payload_len ip) udp_hdr_len ≡ n = rw plen (omega arith) in
      let (r, got, l, port, src, bytes) =
        net_udp_recv-deliver_udp p ip buf from cap i (rw plen v) (rw dp e) free (rw size small) b in
      (
        r,
        got,
        l ∙ (rw size refl),
        port ∙ sp,
        λ j h.
            src j h
            ∙ (addresses s dst mac sport dport payload n ht hi hd hp bs bd fits p.rxf same).0 j h,
        λ j. bytes j ∙ capped_congr _ (λ k. payload k) buf cap n r.len j (l ∙ (rw size refl)) rest,
      )

  polled_frame :
      (p : Sys) (t : T) (f : Frame)
      → p.nif.rx p.nif.polls max_frame ≡ some f
      → (net_poll upper t p).0
        ≡ frame_input upper t
            (record p {
              nif = record p.nif { polls = p.nif.polls + 1 };
              rxf = copy p.rxf f.bytes f.len;
              net = record p.net { rx_frames = u16 (p.net.rx_frames + 1) };
            })
            f.len
  unfolding net_poll
  polled_frame p t f e = rw (net_poll, e) refl

  -- A datagram of at most 576 bytes that one station sends to an address that it can resolve goes
  -- out as one frame. If the next poll of another station finds that frame, the station is the
  -- one that the frame and the packet are for, the port is open on a socket of its where none
  -- waits, and the address of that socket's buffer is two words, then its receive hands out the
  -- bytes sent, up to the capacity, with their number, the source port and the sender's address.
  -- The buffer and the addresses of the sender and the payload hold bytes, and the ports are
  -- words.
  pub net_udp_recv-net_send_udp :
      (p : Sys) (t : T) (buf from : Mem) (cap i : ℕ)
      → Resolves s.net dst mac
      → p.nif.rx p.nif.polls max_frame
        ≡ some (record { bytes = (net_send_udp s dst sport dport payload n).0.txf; len = 42 + n })
      → ether_is_for_us mac p.nif.mac ≡ true
      → accepts p.net dst ≡ true
      → sock_on_port udp_sockets 0 p.net dport ≡ some i
      → (p.net.sock i).pending ≡ false
      → n ≤ udp_sock_buf
      → HasBuffer (p.net.sock i)
      → let s' = (net_send_udp s dst sport dport payload n).0 in
        let p' = (net_poll upper t p).0.1 in
        (s'.nif.sent ≡ s.nif.sent ++ (record { bytes = s'.txf; len = 42 + n } ∷ []))
        × (r : Received) × ((net_udp_recv p'.net p'.pool i buf cap from).1 ≡ some r)
        × (r.len ≡ (if ltb cap n then cap else n))
        × (r.src_port ≡ sport)
        × ((j : ℕ) → j < 4 → r.src_ip j ≡ s.net.ip j)
        × ((j : ℕ) → r.buf j ≡ (if ltb j r.len then payload j else buf j))
  net_udp_recv-net_send_udp p t buf from cap i known heard us ours on_port free small b =
      let f : Frame = record {
        bytes = (net_send_udp s dst sport dport payload n).0.txf;
        len = 42 + n;
      } in
      let p1 : Sys = record p {
        nif = record p.nif { polls = p.nif.polls + 1 };
        rxf = copy p.rxf f.bytes f.len;
        net = record p.net { rx_frames = u16 (p.net.rx_frames + 1) };
      } in
      let txf = net_send_udp-txf s dst mac sport dport payload n fits known in
      let same : (j : ℕ) → j < 42 + n → p1.rxf j ≡ sent_frame s dst mac sport dport payload n j =
        λ j h. ground (arith, copy_lem p.rxf f.bytes f.len j) ∙ ap (λ (m : Mem). m j) txf in
      let step =
        polled_frame p t f heard ∙ frame_input-sent t p1 same us (unfold accepts in ours) in
      let (r, got, l, port, src, bytes) =
        subst
          (λ (q : Sys).
            (r : Received) × ((net_udp_recv q.net q.pool i buf cap from).1 ≡ some r)
            × (r.len ≡ (if ltb cap n then cap else n))
            × (r.src_port ≡ sport)
            × ((j : ℕ) → j < 4 → r.src_ip j ≡ s.net.ip j)
            × ((j : ℕ) → r.buf j ≡ (if ltb j r.len then payload j else buf j)))
          (sym (ap (λ (q : T × Sys). q.1) step))
          (received p1 buf from cap i same (unfold sock_on_port in on_port) free small b) in
      (
        rw txf (net_send_udp-sent s dst mac sport dport payload n fits known),
        r,
        got,
        l,
        port,
        src,
        bytes,
      )
