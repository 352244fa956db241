-- ===== src/Caller/Entries.antt =====
-- The addresses of src/abi/meganet.h are those of the table of src/abi/jumptable.S.
use mega_net.Base.{◌≡◌, refl, some}
use mega_net.Api.Table.{
  Entry, entry_init, entry_version, entry_get_mac, entry_link_tx, entry_link_rx, entry_poll,
  entry_set_ip, entry_get_ip, entry_get_stats, entry_set_local_ip4, entry_dhcp_start,
  entry_dhcp_state, entry_get_dns, entry_set_dns, entry_dns_start, entry_dns_state,
  entry_dns_result, entry_ntp_start, entry_ntp_state, entry_ntp_result, entry_set_rtc,
  entry_dhcp_last_msg, entry_tcp_connect, entry_tcp_state, entry_tcp_send, entry_tcp_recv,
  entry_tcp_close, entry_tcp_abort, entry_tcp_listen, entry_tcp_peer, entry_tcp_info,
  entry_udp_open, entry_udp_close, entry_udp_send, entry_udp_recv,
}
use mega_net.Caller.Staging.{entry_at, meganet_addr}

pub entry_at-meganet_addr : (e : Entry) → entry_at (meganet_addr e) ≡ some e
unfolding entry_at
entry_at-meganet_addr entry_init = refl
entry_at-meganet_addr entry_version = refl
entry_at-meganet_addr entry_get_mac = refl
entry_at-meganet_addr entry_link_tx = refl
entry_at-meganet_addr entry_link_rx = refl
entry_at-meganet_addr entry_poll = refl
entry_at-meganet_addr entry_set_ip = refl
entry_at-meganet_addr entry_get_ip = refl
entry_at-meganet_addr entry_get_stats = refl
entry_at-meganet_addr entry_set_local_ip4 = refl
entry_at-meganet_addr entry_dhcp_start = refl
entry_at-meganet_addr entry_dhcp_state = refl
entry_at-meganet_addr entry_get_dns = refl
entry_at-meganet_addr entry_set_dns = refl
entry_at-meganet_addr entry_dns_start = refl
entry_at-meganet_addr entry_dns_state = refl
entry_at-meganet_addr entry_dns_result = refl
entry_at-meganet_addr entry_ntp_start = refl
entry_at-meganet_addr entry_ntp_state = refl
entry_at-meganet_addr entry_ntp_result = refl
entry_at-meganet_addr entry_set_rtc = refl
entry_at-meganet_addr entry_dhcp_last_msg = refl
entry_at-meganet_addr entry_tcp_connect = refl
entry_at-meganet_addr entry_tcp_state = refl
entry_at-meganet_addr entry_tcp_send = refl
entry_at-meganet_addr entry_tcp_recv = refl
entry_at-meganet_addr entry_tcp_close = refl
entry_at-meganet_addr entry_tcp_abort = refl
entry_at-meganet_addr entry_tcp_listen = refl
entry_at-meganet_addr entry_tcp_peer = refl
entry_at-meganet_addr entry_tcp_info = refl
entry_at-meganet_addr entry_udp_open = refl
entry_at-meganet_addr entry_udp_close = refl
entry_at-meganet_addr entry_udp_send = refl
entry_at-meganet_addr entry_udp_recv = refl
