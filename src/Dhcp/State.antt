-- ===== src/Dhcp/State.antt =====
-- The state of src/net/mn_dhcp.c.
use mega_net.Base.{Mem, mem4, ℕ, Bool, true, false}

pub data DhcpState : Type 0 where
  idle selecting requesting bound failed : DhcpState

pub data Phase : Type 0 where
  steady renewing rebinding : Phase

-- `mn_dhcp`; `steady` is `MN_DHCP_PHASE_BOUND`.
pub record Dhcp : Type 0 where
  pub state : DhcpState
  pub sock : ℕ
  pub xid : Mem
  pub offered_ip : Mem
  pub server_id : Mem
  pub mask : Mem
  pub gw : Mem
  pub dns : Mem
  pub lease_s : ℕ
  pub phase : Phase
  pub age_m : ℕ
  pub t1_m : ℕ
  pub t2_m : ℕ
  pub next_m : ℕ
  pub lease_m : ℕ
  pub tick_last : ℕ
  pub tick_acc : ℕ
  pub sec_acc : ℕ
  pub sent_at : ℕ
  pub tries : ℕ
  pub pending : Bool
  pub rx_count : ℕ
  pub last_len : ℕ
  pub last_op : ℕ
  pub last_type : ℕ
  pub last_xid : Mem
  pub last_chaddr : Mem

abbrev pub is_bound : DhcpState → Bool
is_bound bound = true
is_bound _ = false

abbrev pub is_selecting : DhcpState → Bool
is_selecting selecting = true
is_selecting _ = false

abbrev pub is_renewing : Phase → Bool
is_renewing renewing = true
is_renewing _ = false

abbrev pub port_server : ℕ
port_server = 67

abbrev pub port_client : ℕ
port_client = 68

abbrev pub msg_discover : ℕ
msg_discover = 1

abbrev pub msg_offer : ℕ
msg_offer = 2

abbrev pub msg_request : ℕ
msg_request = 3

abbrev pub msg_ack : ℕ
msg_ack = 5

abbrev pub msg_nak : ℕ
msg_nak = 6

abbrev pub dhcp_hdr_len : ℕ
dhcp_hdr_len = 236

abbrev pub cookie_len : ℕ
cookie_len = 4

abbrev pub min_len : ℕ
min_len = 300

abbrev pub dhcp_retry_ticks : ℕ
dhcp_retry_ticks = 200

abbrev pub dhcp_max_tries : ℕ
dhcp_max_tries = 5

abbrev pub ticks_per_s : ℕ
ticks_per_s = 50

abbrev pub renew_retry_m : ℕ
renew_retry_m = 1

abbrev pub lease_forever_s : ℕ
lease_forever_s = 3888000

abbrev pub cookie : Mem
cookie = mem4 0x63 0x82 0x53 0x63
