-- ===== src/Api/Refusals.antt =====
-- The entries of src/abi/api.c at an index that has no socket.
use mega_net.Base.{ℕ, Bool, true, false}
use mega_net.Api.Table.{
  Entry, entry_tcp_connect, entry_tcp_state, entry_tcp_send, entry_tcp_recv, entry_tcp_close,
  entry_tcp_abort, entry_tcp_listen, entry_tcp_peer,
}

-- The entries that work on the TCP socket in Z.
abbrev pub on_socket : Entry → Bool
on_socket entry_tcp_connect = true
on_socket entry_tcp_state = true
on_socket entry_tcp_send = true
on_socket entry_tcp_recv = true
on_socket entry_tcp_close = true
on_socket entry_tcp_abort = true
on_socket entry_tcp_listen = true
on_socket entry_tcp_peer = true
on_socket _ = false

-- The second register of the refusal: a count of $FFFF from a send.
abbrev pub refusal_x : Entry → ℕ
refusal_x entry_tcp_send = 0xff
refusal_x _ = 0
