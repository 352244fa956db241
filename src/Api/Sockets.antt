-- ===== src/Api/Sockets.antt =====
-- The entries of src/abi/api.c for TCP sockets. The index of the socket is in Z.
use mega_net.Base.{Mem, ltb, ◌==◌, if◌then◌else◌, u8, u16, ℕ, ◌*◌, ◌/◌, ◌^◌, bit_or, Bool, not}
use mega_net.Api.State.{
  Machine, tick, ret, blk_ptr, get16_le, put16_le, flag, set_sys, fetch_blk, give_blk,
}
use mega_net.Net.State.{copy4}
use mega_net.Tcp.Calls.{
  tcp_connect, tcp_listen, tcp_send_x, tcp_available, tcp_recv_x, tcp_close, tcp_abort,
}
use mega_net.Tcp.State.{code, Tcp, set_tcp}

-- `sock_z`: whether the index has a socket; which one it is.
abbrev pub sock_z : Machine → Bool
sock_z m = ltb m.z m.tcpset.n

abbrev pub at_z : Machine → Tcp
at_z m = m.tcpset.sock m.z

abbrev pub put_z : Machine → Tcp → Machine
put_z m t = record m { tcpset = set_tcp m.tcpset m.z t }

-- `mn_tcp_connect(t, &net, blk, port, tick())`
unfoldable pub connect_z : ℕ → Machine → Machine
connect_z f m =
    let m1 = tick f m in
    let (t, s, ok) = tcp_connect (at_z m1) m1.sys m1.blk (get16_le m1.blk 4) m1.ticks in
    ret (set_sys (put_z m1 t) s) (flag ok) 0 0 0

unfoldable pub api_tcp_connect : ℕ → Machine → Machine
api_tcp_connect f m = if sock_z m then connect_z f (fetch_blk m 6) else ret m 0xff 0 0 0

unfoldable pub listen_z : Machine → Machine
listen_z m =
    let (t, ok) = tcp_listen (at_z m) (u16 (bit_or m.a (u16 (m.x * 2 ^ 8)))) in
    ret (put_z m t) (flag ok) 0 0 0

unfoldable pub api_tcp_listen : Machine → Machine
api_tcp_listen m = if sock_z m then listen_z m else ret m 0xff 0 0 0

unfoldable pub api_tcp_state : Machine → Machine
api_tcp_state m =
    let t = at_z m in
    let n = tcp_available t in
    if sock_z m then ret m (code t.state) t.flags (u8 n) (u8 (n / 2 ^ 8)) else ret m 0xff 0 0 0

unfoldable pub peer_blk : Machine → Mem
peer_blk m = put16_le (copy4 m.blk (at_z m).remote_ip) 4 (at_z m).remote_port

unfoldable pub api_tcp_peer : Machine → Machine
api_tcp_peer m =
    if sock_z m
    then ret (give_blk (record m { blk = peer_blk m }) 0 6) 1 0 0 0
    else ret m 0xff 0 0 0

unfoldable pub api_tcp_info : Machine → Machine
api_tcp_info m =
    let b = u16 (m.pool_base / 2 ^ 12) in ret m m.tcpset.n m.pool_kind (u8 b) (u8 (b / 2 ^ 8))

unfoldable pub send_z : Machine → Machine
send_z m =
    let (t, pool, n) = tcp_send_x (at_z m) m.sys.pool (blk_ptr m) (get16_le m.blk 3) in
    ret (set_sys (put_z m t) (record m.sys { pool = pool })) (u8 n) (u8 (n / 2 ^ 8)) 0 0

unfoldable pub api_tcp_send : Machine → Machine
api_tcp_send m = if sock_z m then send_z (fetch_blk m 5) else ret m 0xff 0xff 0 0

unfoldable pub recv_z : Machine → Machine
recv_z m =
    let (t, pool, n) = tcp_recv_x (at_z m) m.sys.pool (blk_ptr m) (get16_le m.blk 3) in
    let m1 = record (set_sys (put_z m t) (record m.sys { pool = pool })) {
      blk = put16_le m.blk 5 n;
    } in
    ret (give_blk m1 5 2) (flag (not (n == 0))) 0 0 0

unfoldable pub api_tcp_recv : Machine → Machine
api_tcp_recv m = if sock_z m then recv_z (fetch_blk m 5) else ret m 0xff 0 0 0

unfoldable pub api_tcp_close : Machine → Machine
api_tcp_close m = if sock_z m then ret (put_z m (tcp_close (at_z m))) 0 0 0 0 else ret m 0xff 0 0 0

unfoldable pub abort_z : Machine → Machine
abort_z m = let (t, s) = tcp_abort (at_z m) m.sys in ret (set_sys (put_z m t) s) 0 0 0 0

unfoldable pub api_tcp_abort : Machine → Machine
api_tcp_abort m = if sock_z m then abort_z m else ret m 0xff 0 0 0
