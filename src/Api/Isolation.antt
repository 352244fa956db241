-- ===== src/Api/Isolation.antt =====
-- Which entries of src/abi/api.c reach the TCP sockets.
use mega_net.Base.{ℕ, ◌≡◌, refl, Bool, true, false, Option, none, some, arith}
use mega_net.Api.Clients.{
  api_set_dns, start_dns, api_dns_start, api_dns_state, api_dns_result, api_ntp_start,
  api_ntp_state, api_ntp_result, api_set_rtc, api_dhcp_start, api_dhcp_state, api_get_dns,
  api_dhcp_last_msg,
}
use mega_net.Api.Config.{api_set_ip, api_get_ip, api_get_stats, api_set_local_ip4}
use mega_net.Api.Datagrams.{
  api_udp_open, api_udp_close, send_blk, api_udp_send, hand_datagram, recv_blk, api_udp_recv,
}
use mega_net.Api.Link.{api_version, api_get_mac, api_link_tx, hand_frame, api_link_rx}
use mega_net.Api.Sockets.{api_tcp_state, api_tcp_peer, api_tcp_info}
use mega_net.Api.State.{Machine, tick, fetch_blk, put_out, give_blk, fetch_frame}
use mega_net.Api.Table.{
  Entry, entry_init, entry_version, entry_get_mac, entry_link_tx, entry_link_rx, entry_poll,
  entry_set_ip, entry_get_ip, entry_get_stats, entry_set_local_ip4, entry_dhcp_start,
  entry_dhcp_state, entry_get_dns, entry_set_dns, entry_dns_start, entry_dns_state,
  entry_dns_result, entry_ntp_start, entry_ntp_state, entry_ntp_result, entry_set_rtc,
  entry_dhcp_last_msg, entry_tcp_connect, entry_tcp_state, entry_tcp_send, entry_tcp_recv,
  entry_tcp_close, entry_tcp_abort, entry_tcp_listen, entry_tcp_peer, entry_tcp_info,
  entry_udp_open, entry_udp_close, entry_udp_send, entry_udp_recv, World, handler,
}
use mega_net.Net.Sockets.{Received}

-- The entries that may change a TCP socket.
abbrev pub uses_tcp : Entry → Bool
uses_tcp entry_init = true
uses_tcp entry_poll = true
uses_tcp entry_tcp_connect = true
uses_tcp entry_tcp_send = true
uses_tcp entry_tcp_recv = true
uses_tcp entry_tcp_close = true
uses_tcp entry_tcp_abort = true
uses_tcp entry_tcp_listen = true
uses_tcp _ = false

hand_frame-tcpset : (got : Option ℕ) (m : Machine) → (hand_frame got m).tcpset ≡ m.tcpset
unfolding hand_frame give_blk put_out
hand_frame-tcpset none m = refl
hand_frame-tcpset (some n) m = refl

hand_datagram-tcpset :
    (got : Option Received) (m : Machine) → (hand_datagram got m).tcpset ≡ m.tcpset
unfolding hand_datagram give_blk put_out
hand_datagram-tcpset none m = refl
hand_datagram-tcpset (some r) m = ground arith

link_tx-tcpset : (m : Machine) → (api_link_tx m).tcpset ≡ m.tcpset
unfolding api_link_tx fetch_blk fetch_frame
link_tx-tcpset m = ground arith

udp_send-tcpset : (m : Machine) → (api_udp_send m).tcpset ≡ m.tcpset
unfolding api_udp_send send_blk fetch_blk fetch_frame
udp_send-tcpset m = ground arith

recv_blk-tcpset : (m : Machine) → (recv_blk m).tcpset ≡ m.tcpset
unfolding recv_blk
recv_blk-tcpset m = hand_datagram-tcpset _ _

udp_recv-tcpset : (m : Machine) → (api_udp_recv m).tcpset ≡ m.tcpset
unfolding api_udp_recv fetch_blk
udp_recv-tcpset m = ground (arith, recv_blk-tcpset (fetch_blk m 5))

dns_start-tcpset : (f : ℕ) (m : Machine) → (api_dns_start f m).tcpset ≡ m.tcpset
unfolding api_dns_start start_dns tick
dns_start-tcpset f m = ground arith

tcp_state-tcpset : (m : Machine) → (api_tcp_state m).tcpset ≡ m.tcpset
unfolding api_tcp_state
tcp_state-tcpset m = ground arith

tcp_peer-tcpset : (m : Machine) → (api_tcp_peer m).tcpset ≡ m.tcpset
unfolding api_tcp_peer give_blk put_out
tcp_peer-tcpset m = ground arith

pub handler-tcpset :
    (e : Entry) (w : World) (m : Machine) → uses_tcp e ≡ false → (handler e w m).tcpset ≡ m.tcpset
unfolding api_version api_get_mac api_link_rx api_set_ip api_get_ip api_get_stats api_set_local_ip4
    api_dhcp_start api_dhcp_state api_get_dns api_set_dns api_dns_state api_dns_result api_ntp_start
    api_ntp_state api_ntp_result api_set_rtc api_dhcp_last_msg api_tcp_info api_udp_open
    api_udp_close fetch_blk give_blk put_out tick
handler-tcpset entry_init w m h = cc
handler-tcpset entry_version w m h = refl
handler-tcpset entry_get_mac w m h = refl
handler-tcpset entry_link_tx w m h = link_tx-tcpset m
handler-tcpset entry_link_rx w m h = hand_frame-tcpset _ _
handler-tcpset entry_poll w m h = cc
handler-tcpset entry_set_ip w m h = refl
handler-tcpset entry_get_ip w m h = refl
handler-tcpset entry_get_stats w m h = refl
handler-tcpset entry_set_local_ip4 w m h = refl
handler-tcpset entry_dhcp_start w m h = refl
handler-tcpset entry_dhcp_state w m h = refl
handler-tcpset entry_get_dns w m h = refl
handler-tcpset entry_set_dns w m h = refl
handler-tcpset entry_dns_start w m h = dns_start-tcpset w.frames m
handler-tcpset entry_dns_state w m h = refl
handler-tcpset entry_dns_result w m h = refl
handler-tcpset entry_ntp_start w m h = refl
handler-tcpset entry_ntp_state w m h = refl
handler-tcpset entry_ntp_result w m h = refl
handler-tcpset entry_set_rtc w m h = refl
handler-tcpset entry_dhcp_last_msg w m h = refl
handler-tcpset entry_tcp_connect w m h = cc
handler-tcpset entry_tcp_state w m h = tcp_state-tcpset m
handler-tcpset entry_tcp_send w m h = cc
handler-tcpset entry_tcp_recv w m h = cc
handler-tcpset entry_tcp_close w m h = cc
handler-tcpset entry_tcp_abort w m h = cc
handler-tcpset entry_tcp_listen w m h = cc
handler-tcpset entry_tcp_peer w m h = tcp_peer-tcpset m
handler-tcpset entry_tcp_info w m h = refl
handler-tcpset entry_udp_open w m h = refl
handler-tcpset entry_udp_close w m h = ground arith
handler-tcpset entry_udp_send w m h = udp_send-tcpset m
handler-tcpset entry_udp_recv w m h = udp_recv-tcpset m
