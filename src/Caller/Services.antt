-- ===== src/Caller/Services.antt =====
-- The wrappers of src/abi/meganet.h for frames, addresses, DHCP, DNS, SNTP and the clock. A pointer of
-- the caller is an address; what a wrapper writes through an optional pointer is a result.
use mega_net.Base.{ℕ, ◌+◌}
use mega_net.Api.State.{Machine}
use mega_net.Api.Table.{
  entry_link_tx, entry_link_rx, entry_poll, entry_set_ip, entry_get_ip, entry_get_stats,
  entry_dhcp_start, entry_dhcp_state, entry_get_dns, entry_dns_start, entry_dns_state,
  entry_dns_result, entry_ntp_start, entry_ntp_state, entry_ntp_result, entry_set_rtc, World,
}
use mega_net.Caller.Staging.{
  meganet_tr, load, store8, store16, load16, tr_ra, tr_rx, tr_ry, tr_rz, meganet_call,
  meganet_call_ptr, meganet_ptr28,
}

-- A block of a pointer and a length at `b`.
unfoldable pub buffer_blk : ℕ → ℕ → ℕ → Machine → Machine
buffer_blk b buf len m = store16 (meganet_ptr28 b buf m) (b + 3) len

unfoldable pub meganet_link_tx : World → ℕ → ℕ → ℕ → Machine → Machine
meganet_link_tx w b frame len m = meganet_call_ptr w entry_link_tx b (buffer_blk b frame len m)

-- The machine and `*len`.
unfoldable pub meganet_link_rx : World → ℕ → ℕ → ℕ → Machine → Machine × ℕ
meganet_link_rx w b buf cap m =
    let m1 = store8 (store8 (buffer_blk b buf cap m) (b + 6) 0) (b + 5) 0 in
    let m2 = meganet_call_ptr w entry_link_rx b m1 in (m2, load16 m2 (b + 5))

unfoldable pub meganet_set_ip : World → ℕ → Machine → Machine
meganet_set_ip w c m = meganet_call_ptr w entry_set_ip c m

unfoldable pub meganet_get_ip : World → ℕ → Machine → Machine
meganet_get_ip w c m = meganet_call_ptr w entry_get_ip c m

unfoldable pub meganet_get_stats : World → ℕ → Machine → Machine
meganet_get_stats w s m = meganet_call_ptr w entry_get_stats s m

unfoldable pub meganet_dhcp_start : World → Machine → Machine
meganet_dhcp_start w m = meganet_call w entry_dhcp_start 0 0 0 0 m

unfoldable pub meganet_dhcp_state : World → Machine → Machine
meganet_dhcp_state w m = meganet_call w entry_dhcp_state 0 0 0 0 m

-- `(uint16_t)(MEGANET_TR_RY | ((uint16_t)MEGANET_TR_RZ << 8))`
abbrev pub tr_ryz : Machine → ℕ
tr_ryz m = load16 m (meganet_tr + 8)

-- The machine, the phase and the minutes left.
unfoldable pub meganet_dhcp_status : World → Machine → Machine × ℕ × ℕ
meganet_dhcp_status w m = let m1 = meganet_dhcp_state w m in (m1, tr_rx m1, tr_ryz m1)

unfoldable pub meganet_get_dns : World → ℕ → Machine → Machine
meganet_get_dns w dns4 m = meganet_call_ptr w entry_get_dns dns4 m

unfoldable pub meganet_dns_start : World → ℕ → Machine → Machine
meganet_dns_start w name m = meganet_call_ptr w entry_dns_start name m

unfoldable pub meganet_dns_state : World → Machine → Machine
meganet_dns_state w m = meganet_call w entry_dns_state 0 0 0 0 m

unfoldable pub meganet_dns_result : World → ℕ → Machine → Machine
meganet_dns_result w ip4 m =
    let m1 = meganet_call w entry_dns_result 0 0 0 0 m in
    store8 (store8 (store8 (store8 m1 ip4 (tr_ra m1)) (ip4 + 1) (tr_rx m1)) (ip4 + 2) (tr_ry m1))
      (ip4 + 3) (tr_rz m1)

unfoldable pub meganet_ntp_start : World → ℕ → Machine → Machine
meganet_ntp_start w ip4 m =
    meganet_call w entry_ntp_start (load m ip4) (load m (ip4 + 1)) (load m (ip4 + 2))
      (load m (ip4 + 3)) m

unfoldable pub meganet_ntp_state : World → Machine → Machine
meganet_ntp_state w m = meganet_call w entry_ntp_state 0 0 0 0 m

unfoldable pub meganet_ntp_result : World → ℕ → Machine → Machine
meganet_ntp_result w t m = meganet_call_ptr w entry_ntp_result t m

unfoldable pub meganet_set_rtc : World → ℕ → Machine → Machine
meganet_set_rtc w r m = meganet_call_ptr w entry_set_rtc r m

unfoldable pub meganet_poll : World → Machine → Machine
meganet_poll w m = meganet_call w entry_poll 0 0 0 0 m
