-- ===== src/Caller/Sockets.antt =====
-- The wrappers of src/abi/meganet.h for TCP and UDP sockets; `p` is the address of the local block.
use mega_net.Base.{Mem, u8, ℕ, ◌+◌, ◌/◌, ◌^◌}
use mega_net.Api.State.{Machine}
use mega_net.Api.Table.{
  entry_tcp_connect, entry_tcp_state, entry_tcp_send, entry_tcp_recv, entry_tcp_close,
  entry_tcp_abort, entry_tcp_listen, entry_tcp_peer, entry_tcp_info, entry_udp_open,
  entry_udp_close, entry_udp_send, entry_udp_recv, World,
}
use mega_net.Caller.Services.{buffer_blk, tr_ryz}
use mega_net.Caller.Staging.{
  meganet_tr, store8, store16, load16, tr_rx, meganet_call, meganet_call_s, meganet_ptr28, store_ip,
  ip_at,
}

-- A block of an address and a port at `p`.
unfoldable pub addr_blk : ℕ → Mem → ℕ → Machine → Machine
addr_blk p ip4 port m = store16 (store_ip p ip4 m) (p + 4) port

unfoldable pub meganet_tcp_connect_s : World → ℕ → ℕ → Mem → ℕ → Machine → Machine
meganet_tcp_connect_s w p s ip4 port m =
    meganet_call_s w entry_tcp_connect p s (addr_blk p ip4 port m)

unfoldable pub meganet_tcp_listen : World → ℕ → ℕ → Machine → Machine
meganet_tcp_listen w s port m = meganet_call w entry_tcp_listen (u8 port) (u8 (port / 2 ^ 8)) 0 s m

-- The machine, the flags and the bytes available.
unfoldable pub meganet_tcp_state_s : World → ℕ → Machine → Machine × ℕ × ℕ
meganet_tcp_state_s w s m =
    let m1 = meganet_call w entry_tcp_state 0 0 0 s m in (m1, tr_rx m1, tr_ryz m1)

-- The machine, the peer's address and its port.
unfoldable pub meganet_tcp_peer : World → ℕ → ℕ → Machine → Machine × Mem × ℕ
meganet_tcp_peer w p s m =
    let m1 = meganet_call_s w entry_tcp_peer p s m in (m1, ip_at m1 p, load16 m1 (p + 4))

-- The machine, where the buffers are and their base.
unfoldable pub meganet_tcp_info : World → Machine → Machine × ℕ × ℕ
meganet_tcp_info w m = let m1 = meganet_call w entry_tcp_info 0 0 0 0 m in (m1, tr_rx m1, tr_ryz m1)

-- The machine and the bytes taken.
unfoldable pub meganet_tcp_send_s : World → ℕ → ℕ → ℕ → ℕ → Machine → Machine × ℕ
meganet_tcp_send_s w p s bytes len m =
    let m1 = meganet_call_s w entry_tcp_send p s (buffer_blk p bytes len m) in
    (m1, load16 m1 (meganet_tr + 6))

-- The machine and the bytes that came.
unfoldable pub meganet_tcp_recv_s : World → ℕ → ℕ → ℕ → ℕ → Machine → Machine × ℕ
meganet_tcp_recv_s w p s buf cap m =
    let m1 = store8 (store8 (buffer_blk p buf cap m) (p + 6) 0) (p + 5) 0 in
    let m2 = meganet_call_s w entry_tcp_recv p s m1 in (m2, load16 m2 (p + 5))

unfoldable pub meganet_tcp_close_s : World → ℕ → Machine → Machine
meganet_tcp_close_s w s m = meganet_call w entry_tcp_close 0 0 0 s m

unfoldable pub meganet_tcp_abort_s : World → ℕ → Machine → Machine
meganet_tcp_abort_s w s m = meganet_call w entry_tcp_abort 0 0 0 s m

-- Socket 0, for the single-connection client.
unfoldable pub meganet_tcp_connect : World → ℕ → Mem → ℕ → Machine → Machine
meganet_tcp_connect w p ip4 port m = meganet_tcp_connect_s w p 0 ip4 port m

unfoldable pub meganet_tcp_state : World → Machine → Machine × ℕ × ℕ
meganet_tcp_state w m = meganet_tcp_state_s w 0 m

unfoldable pub meganet_tcp_send : World → ℕ → ℕ → ℕ → Machine → Machine × ℕ
meganet_tcp_send w p bytes len m = meganet_tcp_send_s w p 0 bytes len m

unfoldable pub meganet_tcp_recv : World → ℕ → ℕ → ℕ → Machine → Machine × ℕ
meganet_tcp_recv w p buf cap m = meganet_tcp_recv_s w p 0 buf cap m

unfoldable pub meganet_tcp_close : World → Machine → Machine
meganet_tcp_close w m = meganet_tcp_close_s w 0 m

unfoldable pub meganet_tcp_abort : World → Machine → Machine
meganet_tcp_abort w m = meganet_tcp_abort_s w 0 m

unfoldable pub meganet_udp_open : World → ℕ → Machine → Machine
meganet_udp_open w port m = meganet_call w entry_udp_open (u8 port) (u8 (port / 2 ^ 8)) 0 0 m

unfoldable pub meganet_udp_close : World → ℕ → Machine → Machine
meganet_udp_close w s m = meganet_call w entry_udp_close 0 0 0 s m

unfoldable pub meganet_udp_send : World → ℕ → ℕ → Mem → ℕ → ℕ → ℕ → Machine → Machine
meganet_udp_send w p s ip4 port bytes len m =
    let m1 = meganet_ptr28 (p + 6) bytes (addr_blk p ip4 port m) in
    meganet_call_s w entry_udp_send p s (store16 m1 (p + 9) len)

-- The machine, the length, the source address and the source port.
unfoldable pub meganet_udp_recv : World → ℕ → ℕ → ℕ → ℕ → Machine → Machine × ℕ × Mem × ℕ
meganet_udp_recv w p s buf cap m =
    let m1 = meganet_call_s w entry_udp_recv p s (buffer_blk p buf cap m) in
    (m1, load16 m1 (p + 5), ip_at m1 (p + 7), load16 m1 (p + 11))
