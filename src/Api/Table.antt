-- ===== src/Api/Table.antt =====
-- The jump table of src/abi/jumptable.S: its entries in order, and the call behind each.
use mega_net.Base.{ℕ}
use mega_net.Api.Clients.{
  api_set_dns, api_dns_start, api_dns_state, api_dns_result, api_ntp_start, api_ntp_state,
  api_ntp_result, api_set_rtc, api_dhcp_start, api_dhcp_state, api_get_dns, api_dhcp_last_msg,
}
use mega_net.Api.Config.{api_set_ip, api_get_ip, api_get_stats, api_set_local_ip4}
use mega_net.Api.Datagrams.{api_udp_open, api_udp_close, api_udp_send, api_udp_recv}
use mega_net.Api.Link.{api_version, api_get_mac, api_link_tx, api_link_rx, api_poll}
use mega_net.Api.Sockets.{
  api_tcp_connect, api_tcp_listen, api_tcp_state, api_tcp_peer, api_tcp_info, api_tcp_send,
  api_tcp_recv, api_tcp_close, api_tcp_abort,
}
use mega_net.Api.Start.{api_init}
use mega_net.Api.State.{Machine}
use mega_net.Net.State.{Netif}

pub data Entry : Type 0 where
  entry_init entry_version entry_get_mac entry_link_tx : Entry
  entry_link_rx entry_poll entry_set_ip entry_get_ip : Entry
  entry_get_stats entry_set_local_ip4 entry_dhcp_start entry_dhcp_state : Entry
  entry_get_dns entry_set_dns entry_dns_start entry_dns_state : Entry
  entry_dns_result entry_ntp_start entry_ntp_state entry_ntp_result : Entry
  entry_set_rtc entry_dhcp_last_msg entry_tcp_connect entry_tcp_state : Entry
  entry_tcp_send entry_tcp_recv entry_tcp_close entry_tcp_abort : Entry
  entry_tcp_listen entry_tcp_peer entry_tcp_info entry_udp_open : Entry
  entry_udp_close entry_udp_send entry_udp_recv : Entry

-- What surrounds a call: what bringing up the controller makes of the interface, the address of
-- `window_irqs`, and the frame counter.
pub record World : Type 0 where
  pub nif : Netif
  pub irqs : ℕ
  pub frames : ℕ

-- The handler of an entry.
abbrev pub handler : Entry → World → Machine → Machine
handler entry_init w m = api_init w.nif w.irqs w.frames m
handler entry_version w m = api_version m
handler entry_get_mac w m = api_get_mac m
handler entry_link_tx w m = api_link_tx m
handler entry_link_rx w m = api_link_rx m
handler entry_poll w m = api_poll w.frames m
handler entry_set_ip w m = api_set_ip m
handler entry_get_ip w m = api_get_ip m
handler entry_get_stats w m = api_get_stats m
handler entry_set_local_ip4 w m = api_set_local_ip4 m
handler entry_dhcp_start w m = api_dhcp_start w.frames m
handler entry_dhcp_state w m = api_dhcp_state m
handler entry_get_dns w m = api_get_dns m
handler entry_set_dns w m = api_set_dns m
handler entry_dns_start w m = api_dns_start w.frames m
handler entry_dns_state w m = api_dns_state m
handler entry_dns_result w m = api_dns_result m
handler entry_ntp_start w m = api_ntp_start w.frames m
handler entry_ntp_state w m = api_ntp_state m
handler entry_ntp_result w m = api_ntp_result m
handler entry_set_rtc w m = api_set_rtc m
handler entry_dhcp_last_msg w m = api_dhcp_last_msg m
handler entry_tcp_connect w m = api_tcp_connect w.frames m
handler entry_tcp_state w m = api_tcp_state m
handler entry_tcp_send w m = api_tcp_send m
handler entry_tcp_recv w m = api_tcp_recv m
handler entry_tcp_close w m = api_tcp_close m
handler entry_tcp_abort w m = api_tcp_abort m
handler entry_tcp_listen w m = api_tcp_listen m
handler entry_tcp_peer w m = api_tcp_peer m
handler entry_tcp_info w m = api_tcp_info m
handler entry_udp_open w m = api_udp_open m
handler entry_udp_close w m = api_udp_close m
handler entry_udp_send w m = api_udp_send m
handler entry_udp_recv w m = api_udp_recv m

-- A call with the registers set, as the stubs of the table make it.
unfoldable pub call : Entry → World → ℕ → ℕ → ℕ → ℕ → Machine → Machine
call e w a x y z m = handler e w (record m { a = a; x = x; y = y; z = z })
