-- ===== src/Api/Clients.antt =====
-- The entries of src/abi/api.c for DHCP, DNS, SNTP and the clock.
use mega_net.Base.{
  Mem, poke, mem4, ◌==◌, if◌then◌else◌, u8, ℕ, zero, suc, ◌+◌, ◌*◌, ◌/◌, ◌%◌, ◌^◌, bit_or, Bool,
  true, false, not,
}
use mega_net.Api.Codes.{dhcp_code, phase_code, dns_code, ntp_code}
use mega_net.Api.State.{
  Machine, tick, arg_ptr, ret, get16_le, put16_le, fetch_blk, put_out, give_blk,
}
use mega_net.Dhcp.Client.{dhcp_start}
use mega_net.Dhcp.Lease.{dhcp_lease_left}
use mega_net.Dns.Client.{DnsState, dns_start}
use mega_net.Dns.Message.{dns_name_max}
use mega_net.Net.State.{copy4}
use mega_net.Ntp.Civil.{Civil, ntp_civil}
use mega_net.Ntp.Client.{ntp_start}
use mega_net.Xmem.{dma_copy_in}

-- The address in the four registers.
abbrev pub regs4 : Machine → Mem
regs4 m = mem4 m.a m.x m.y m.z

unfoldable pub api_set_dns : Machine → Machine
api_set_dns m = ret (record m { dhcp = record m.dhcp { dns = copy4 m.dhcp.dns (regs4 m) } }) 0 0 0 0

-- The loop over the bytes of the server's address, with `n` rounds left at `i`: whether one is set.
unfoldable pub some_set_from : ℕ → ℕ → Mem → Bool
some_set_from zero i ip = false
some_set_from (suc n) i ip = if not (ip i == 0) then true else some_set_from n (i + 1) ip

-- The name that the registers point to.
unfoldable pub fetch_name : Machine → Mem
fetch_name m = poke (dma_copy_in m.name (arg_ptr m) m.sys.pool dns_name_max) dns_name_max 0

unfoldable pub start_dns : ℕ → Machine → Machine
start_dns f m =
    let m1 = tick f m in
    let (d, s) = dns_start m1.dns m1.sys m1.name m1.dhcp.dns m1.ticks in
    ret (record m1 { dns = d; sys = s }) 0 0 0 0

unfoldable pub api_dns_start : ℕ → Machine → Machine
api_dns_start f m =
    let m1 = record m { name = fetch_name m } in
    if some_set_from 4 0 m1.dhcp.dns
    then start_dns f m1
    else ret (record m1 { dns = record m1.dns { state = DnsState.failed } }) 1 0 0 0

unfoldable pub api_dns_state : Machine → Machine
api_dns_state m = ret m (dns_code m.dns.state) 0 0 0

unfoldable pub api_dns_result : Machine → Machine
api_dns_result m = ret m (m.dns.ip 0) (m.dns.ip 1) (m.dns.ip 2) (m.dns.ip 3)

unfoldable pub api_ntp_start : ℕ → Machine → Machine
api_ntp_start f m =
    let m1 = tick f m in
    let (n, s) = ntp_start m1.ntp m1.sys (regs4 m1) m1.ticks in
    ret (record m1 { ntp = n; sys = s }) 0 0 0 0

unfoldable pub api_ntp_state : Machine → Machine
api_ntp_state m = ret m (ntp_code m.ntp.state) 0 0 0

-- `blk[k] = v; blk[k + 1] = v >> 8; blk[k + 2] = v >> 16; blk[k + 3] = v >> 24`
unfoldable pub put32_le : Mem → ℕ → ℕ → Mem
put32_le b k v = put16_le (put16_le b k v) (k + 2) (v / 2 ^ 16)

unfoldable pub put_civil : Mem → Civil → Mem
put_civil b c =
    let b1 = poke (poke (put16_le b 6 c.year) 8 c.month) 9 c.day in
    poke (poke (poke (poke b1 10 c.hour) 11 c.minute) 12 c.second) 13 c.weekday

unfoldable pub api_ntp_result : Machine → Machine
api_ntp_result m =
    let m1 = fetch_blk m 2 in
    let c = ntp_civil m1.ntp.seconds (get16_le m1.blk 0) in
    let b = put_civil (put32_le m1.blk 2 m1.ntp.seconds) c in
    ret (give_blk (record m1 { blk = b }) 2 12) 0 0 0 0

unfoldable pub bcd : ℕ → ℕ
bcd v = u8 (bit_or (v / 10 * 2 ^ 4) (v % 10))

abbrev pub rtc_base : ℕ
rtc_base = 0xFFD7110

-- The seven registers of the clock, from the block.
unfoldable pub rtc_regs : Mem → Mem
rtc_regs b =
    let year = get16_le b 0 in
    let r =
      poke (poke (poke (λ _. 0) 0 (bcd (b 6))) 1 (bcd (b 5))) 2 (u8 (bit_or (bcd (b 4)) 0x80)) in
    poke (poke (poke (poke r 3 (bcd (b 3))) 4 (bcd (b 2))) 5 (bcd (u8 (year % 100)))) 6 (bcd (b 7))

unfoldable pub api_set_rtc : Machine → Machine
api_set_rtc m = let m1 = fetch_blk m 8 in ret (put_out m1 rtc_base (rtc_regs m1.blk) 7) 0 0 0 0

unfoldable pub api_dhcp_start : ℕ → Machine → Machine
api_dhcp_start f m =
    let m1 = tick f m in
    let (d, s) = dhcp_start m1.dhcp m1.sys m1.ticks in ret (record m1 { dhcp = d; sys = s }) 0 0 0 0

unfoldable pub api_dhcp_state : Machine → Machine
api_dhcp_state m =
    let left = dhcp_lease_left m.dhcp in
    ret m (dhcp_code m.dhcp.state) (phase_code m.dhcp.phase) (u8 left) (u8 (left / 2 ^ 8))

unfoldable pub api_get_dns : Machine → Machine
api_get_dns m = ret (give_blk (record m { blk = copy4 m.blk m.dhcp.dns }) 0 4) 0 0 0 0

unfoldable pub api_dhcp_last_msg : Machine → Machine
api_dhcp_last_msg m = ret (put_out m (arg_ptr m) m.sys.rxf 300) 0 0 0 0
