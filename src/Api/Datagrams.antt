-- ===== src/Api/Datagrams.antt =====
-- The entries of src/abi/api.c for UDP sockets. The index of the socket is in Z.
use mega_net.Base.{
  offset, write_at, ltb, leb, ◌==◌, if◌then◌else◌, u16, ◌*◌, ◌^◌, bit_or, ◌||◌, Option, none, some,
}
use mega_net.Api.State.{
  Machine, ptr28, ret, blk_ptr, get16_le, put16_le, set_sys, fetch_blk, put_out, give_blk,
  fetch_frame,
}
use mega_net.Net.Sockets.{net_udp_open, net_udp_close, Received, net_udp_recv}
use mega_net.Net.State.{udp_sockets, udp_max_payload, set_net}
use mega_net.Net.Transmit.{net_send_udp}
use mega_net.Wire.Ether.{max_frame}

unfoldable pub api_udp_open : Machine → Machine
api_udp_open m =
    let (net, i) = net_udp_open m.sys.net (u16 (bit_or m.a (u16 (m.x * 2 ^ 8)))) in
    ret (set_sys m (set_net m.sys net)) i 0 0 0

unfoldable pub api_udp_close : Machine → Machine
api_udp_close m =
    let closed = set_sys m (set_net m.sys (net_udp_close m.sys.net m.z)) in
    ret (if ltb m.z udp_sockets then closed else m) 0 0 0 0

-- The rest of `mn_api_udp_send`, with the block fetched.
unfoldable pub send_blk : Machine → Machine
send_blk m =
    let dport = get16_le m.blk 4 in
    let src = ptr28 (m.blk 6) (m.blk 7) (m.blk 8) in
    let len = get16_le m.blk 9 in
    if ltb udp_max_payload len
    then ret m 0 0 0 0
    else (let m1 = fetch_frame m src len in
        let (s, r) = net_send_udp m1.sys m1.blk (m1.sys.net.sock m1.z).port dport m1.sys.rxf len in
        ret (set_sys m1 s) r 0 0 0)

unfoldable pub api_udp_send : Machine → Machine
api_udp_send m =
    if leb udp_sockets m.z || (m.sys.net.sock m.z).port == 0
    then ret m 0xff 0 0 0
    else send_blk (fetch_blk m 11)

-- What `mn_net_udp_recv` left, on the way to the caller.
unfoldable pub hand_datagram : Option Received → Machine → Machine
hand_datagram none m =
    let b = put16_le (put16_le m.blk 5 0) 11 0 in ret (give_blk (record m { blk = b }) 5 8) 0 0 0 0
hand_datagram (some r) m =
    let m1 = record m {
      sys = record m.sys { rxf = r.buf };
      blk = write_at m.blk 7 (λ _. r.src_ip);
    } in
    let m2 = if r.len == 0 then m1 else put_out m1 (blk_ptr m1) r.buf r.len in
    let b = put16_le (put16_le m2.blk 5 r.len) 11 r.src_port in
    ret (give_blk (record m2 { blk = b }) 5 8) 1 0 0 0

-- The rest of `mn_api_udp_recv`, with the block fetched.
unfoldable pub recv_blk : Machine → Machine
recv_blk m =
    let asked = get16_le m.blk 3 in
    let cap = if ltb max_frame asked then max_frame else asked in
    let s = m.sys in
    let (net, got) = net_udp_recv s.net s.pool m.z s.rxf cap (offset m.blk 7) in
    hand_datagram got (set_sys m (set_net s net))

unfoldable pub api_udp_recv : Machine → Machine
api_udp_recv m = if leb udp_sockets m.z then ret m 0xff 0 0 0 else recv_blk (fetch_blk m 5)
