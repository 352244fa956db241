-- ===== src/Caller/Staging.antt =====
-- The staging of a call in src/abi/meganet.h and src/abi/trampoline.S. The caller's memory is the
-- first 64 KB of the memory of 28-bit addresses; a local variable of a wrapper stands at an address
-- that is its argument.
use mega_net.Base.{
  Mem, poke, mem4, leb, ◌==◌, if◌then◌else◌, u8, ℕ, zero, suc, ◌+◌, ◌-◌, ◌/◌, ◌%◌, ◌^◌, bit_and,
  ◌&&◌, Option, none, some, List, [], ◌∷◌,
}
use mega_net.Api.State.{Machine, get16_le, set_sys}
use mega_net.Api.Table.{
  Entry, entry_init, entry_version, entry_get_mac, entry_link_tx, entry_link_rx, entry_poll,
  entry_set_ip, entry_get_ip, entry_get_stats, entry_set_local_ip4, entry_dhcp_start,
  entry_dhcp_state, entry_get_dns, entry_set_dns, entry_dns_start, entry_dns_state,
  entry_dns_result, entry_ntp_start, entry_ntp_state, entry_ntp_result, entry_set_rtc,
  entry_dhcp_last_msg, entry_tcp_connect, entry_tcp_state, entry_tcp_send, entry_tcp_recv,
  entry_tcp_close, entry_tcp_abort, entry_tcp_listen, entry_tcp_peer, entry_tcp_info,
  entry_udp_open, entry_udp_close, entry_udp_send, entry_udp_recv, World, call,
}

-- The table in its order; its entries are three bytes each, from $2000 on.
abbrev pub table : List Entry
table =
    entry_init ∷ entry_version ∷ entry_get_mac ∷ entry_link_tx ∷ entry_link_rx ∷ entry_poll
    ∷ entry_set_ip ∷ entry_get_ip ∷ entry_get_stats ∷ entry_set_local_ip4 ∷ entry_dhcp_start
    ∷ entry_dhcp_state ∷ entry_get_dns ∷ entry_set_dns ∷ entry_dns_start ∷ entry_dns_state
    ∷ entry_dns_result ∷ entry_ntp_start ∷ entry_ntp_state ∷ entry_ntp_result ∷ entry_set_rtc
    ∷ entry_dhcp_last_msg ∷ entry_tcp_connect ∷ entry_tcp_state ∷ entry_tcp_send ∷ entry_tcp_recv
    ∷ entry_tcp_close ∷ entry_tcp_abort ∷ entry_tcp_listen ∷ entry_tcp_peer ∷ entry_tcp_info
    ∷ entry_udp_open ∷ entry_udp_close ∷ entry_udp_send ∷ entry_udp_recv ∷ []

abbrev pub nth_entry : List Entry → ℕ → Option Entry
nth_entry [] n = none
nth_entry (e ∷ es) zero = some e
nth_entry (e ∷ es) (suc n) = nth_entry es n

-- The entry that a jump to an address reaches; there is none between the jumps.
unfoldable pub entry_at : ℕ → Option Entry
entry_at addr =
    if leb 0x2000 addr && (addr - 0x2000) % 3 == 0
    then nth_entry table ((addr - 0x2000) / 3)
    else none

-- `MEGANET_INIT` .. `MEGANET_UDP_RECV`
abbrev pub meganet_addr : Entry → ℕ
meganet_addr entry_init = 0x2000
meganet_addr entry_version = 0x2003
meganet_addr entry_get_mac = 0x2006
meganet_addr entry_link_tx = 0x2009
meganet_addr entry_link_rx = 0x200C
meganet_addr entry_poll = 0x200F
meganet_addr entry_set_ip = 0x2012
meganet_addr entry_get_ip = 0x2015
meganet_addr entry_get_stats = 0x2018
meganet_addr entry_set_local_ip4 = 0x201B
meganet_addr entry_dhcp_start = 0x201E
meganet_addr entry_dhcp_state = 0x2021
meganet_addr entry_get_dns = 0x2024
meganet_addr entry_set_dns = 0x2027
meganet_addr entry_dns_start = 0x202A
meganet_addr entry_dns_state = 0x202D
meganet_addr entry_dns_result = 0x2030
meganet_addr entry_ntp_start = 0x2033
meganet_addr entry_ntp_state = 0x2036
meganet_addr entry_ntp_result = 0x2039
meganet_addr entry_set_rtc = 0x203C
meganet_addr entry_dhcp_last_msg = 0x203F
meganet_addr entry_tcp_connect = 0x2042
meganet_addr entry_tcp_state = 0x2045
meganet_addr entry_tcp_send = 0x2048
meganet_addr entry_tcp_recv = 0x204B
meganet_addr entry_tcp_close = 0x204E
meganet_addr entry_tcp_abort = 0x2051
meganet_addr entry_tcp_listen = 0x2054
meganet_addr entry_tcp_peer = 0x2057
meganet_addr entry_tcp_info = 0x205A
meganet_addr entry_udp_open = 0x205D
meganet_addr entry_udp_close = 0x2060
meganet_addr entry_udp_send = 0x2063
meganet_addr entry_udp_recv = 0x2066

abbrev pub meganet_tr : ℕ
meganet_tr = 0x1600

abbrev pub load : Machine → ℕ → ℕ
load m a = m.sys.pool a

abbrev pub store8 : Machine → ℕ → ℕ → Machine
store8 m a v = set_sys m (record m.sys { pool = poke m.sys.pool a v })

-- Two bytes, the low one first.
abbrev pub store16 : Machine → ℕ → ℕ → Machine
store16 m a v = store8 (store8 m a (u8 v)) (a + 1) (u8 (v / 2 ^ 8))

abbrev pub load16 : Machine → ℕ → ℕ
load16 m a = get16_le m.sys.pool a

-- The jump: none is made to an address that is no entry.
abbrev pub jump : Option Entry → World → Machine → Machine
jump none w m = m
jump (some e) w m =
    let t = meganet_tr in
    call e w (load m (t + 2)) (load m (t + 3)) (load m (t + 4)) (load m (t + 5)) m

-- The registers that come back, in the mailbox.
unfoldable pub keep_results : Machine → Machine
keep_results m =
    let t = meganet_tr in
    store8 (store8 (store8 (store8 m (t + 6) m.ra) (t + 7) m.rx) (t + 8) m.ry) (t + 9) m.rz

-- `meganet_tr_call`
unfoldable pub tr_call : World → Machine → Machine
tr_call w m = keep_results (jump (entry_at (load16 m meganet_tr)) w m)

-- The stores of `meganet_call` before the jump.
unfoldable pub stage_call : ℕ → ℕ → ℕ → ℕ → ℕ → Machine → Machine
stage_call addr a x y z m =
    let t = meganet_tr in
    let m1 = store8 (store8 m t (u8 (bit_and addr 0xff))) (t + 1) (u8 (addr / 2 ^ 8)) in
    store8 (store8 (store8 (store8 m1 (t + 2) a) (t + 3) x) (t + 4) y) (t + 5) z

abbrev pub tr_ra : Machine → ℕ
tr_ra m = load m (meganet_tr + 6)

abbrev pub tr_rx : Machine → ℕ
tr_rx m = load m (meganet_tr + 7)

abbrev pub tr_ry : Machine → ℕ
tr_ry m = load m (meganet_tr + 8)

abbrev pub tr_rz : Machine → ℕ
tr_rz m = load m (meganet_tr + 9)

-- `meganet_call`, less its result, which is `tr_ra`.
unfoldable pub meganet_call : World → Entry → ℕ → ℕ → ℕ → ℕ → Machine → Machine
meganet_call w e a x y z m = tr_call w (stage_call (meganet_addr e) a x y z m)

unfoldable pub meganet_call_ptr : World → Entry → ℕ → Machine → Machine
meganet_call_ptr w e p m = meganet_call w e (u8 (bit_and p 0xff)) (u8 (p / 2 ^ 8)) 0 0 m

-- A call with a block at `p`, and the index of a socket.
unfoldable pub meganet_call_s : World → Entry → ℕ → ℕ → Machine → Machine
meganet_call_s w e p s m = meganet_call w e (u8 p) (u8 (p / 2 ^ 8)) 0 s m

unfoldable pub meganet_ptr28 : ℕ → ℕ → Machine → Machine
meganet_ptr28 out p m =
    store8 (store8 (store8 m out (u8 (bit_and p 0xff))) (out + 1) (u8 (p / 2 ^ 8))) (out + 2) 0

-- `dst[i] = ip4[i]` for four bytes of the caller's.
abbrev pub store_ip : ℕ → Mem → Machine → Machine
store_ip dst ip m =
    store8 (store8 (store8 (store8 m dst (ip 0)) (dst + 1) (ip 1)) (dst + 2) (ip 2)) (dst + 3)
      (ip 3)

-- The four bytes from an address on.
abbrev pub ip_at : Machine → ℕ → Mem
ip_at m a = mem4 (load m a) (load m (a + 1)) (load m (a + 2)) (load m (a + 3))

unfoldable pub meganet_set_restore_map : ℕ → ℕ → ℕ → ℕ → Machine → Machine
meganet_set_restore_map a x y z m =
    let t = meganet_tr in
    store8 (store8 (store8 (store8 m (t + 10) a) (t + 11) x) (t + 12) y) (t + 13) z
