-- ===== src/Api/Codes.antt =====
-- The numbers that src/abi/api.c hands out for the states of the clients, and its tests of them.
use mega_net.Base.{ℕ, Bool, true, false}
use mega_net.Dhcp.State.{DhcpState, Phase}
use mega_net.Dns.Client.{DnsState}
use mega_net.Ntp.Client.{NtpState}

abbrev pub is_idle : DhcpState → Bool
is_idle DhcpState.idle = true
is_idle _ = false

abbrev pub is_failed : DhcpState → Bool
is_failed DhcpState.failed = true
is_failed _ = false

-- `MN_DHCP_*`
abbrev pub dhcp_code : DhcpState → ℕ
dhcp_code DhcpState.idle = 0
dhcp_code DhcpState.selecting = 1
dhcp_code DhcpState.requesting = 2
dhcp_code DhcpState.bound = 3
dhcp_code DhcpState.failed = 4

-- `MN_DHCP_PHASE_*`
abbrev pub phase_code : Phase → ℕ
phase_code Phase.steady = 0
phase_code Phase.renewing = 1
phase_code Phase.rebinding = 2

-- `dns.state == MN_DNS_WAITING`
abbrev pub is_looking_up : DnsState → Bool
is_looking_up DnsState.waiting = true
is_looking_up _ = false

-- `MN_DNS_*`
abbrev pub dns_code : DnsState → ℕ
dns_code DnsState.idle = 0
dns_code DnsState.waiting = 1
dns_code DnsState.done = 2
dns_code DnsState.failed = 3

-- `ntp.state == MN_NTP_WAITING`
abbrev pub is_asking : NtpState → Bool
is_asking NtpState.waiting = true
is_asking _ = false

-- `MN_NTP_*`
abbrev pub ntp_code : NtpState → ℕ
ntp_code NtpState.idle = 0
ntp_code NtpState.waiting = 1
ntp_code NtpState.done = 2
ntp_code NtpState.failed = 3
