-- ===== src/Net/State.antt =====
-- The state of src/net/mn_net.c: the interface, the network layer's record and its static buffers.
use mega_net.Base.{Mem, poke, ◌==◌, if◌then◌else◌, ℕ, ◌-◌, Bool, ◌&&◌, Option, List}
use mega_net.Wire.Arp.Cache.{ArpCache}

abbrev pub udp_sockets : ℕ
udp_sockets = 4

abbrev pub udp_sock_buf : ℕ
udp_sock_buf = 576

abbrev pub udp_max_payload : ℕ
udp_max_payload = 1518 - 14 - 20 - 8

-- `MN_SEND_*`
abbrev pub send_failed : ℕ
send_failed = 0

abbrev pub send_ok : ℕ
send_ok = 1

abbrev pub send_pending : ℕ
send_pending = 2

pub record Frame : Type 0 where
  pub bytes : Mem
  pub len : ℕ

-- `mn_netif`. Its driver is a parameter: `rx` says what the n-th call delivers for a capacity, and
-- `tx` whether the n-th transmission of a frame succeeds. `polls` and `sent` stand for the driver's
-- own state: the calls of `rx` so far, and the frames that the driver was asked to transmit, in order.
pub record Netif : Type 0 where
  pub mac : Mem
  pub rx : ℕ → ℕ → Option Frame
  pub tx : ℕ → Frame → Bool
  pub polls : ℕ
  pub sent : List Frame

-- `mn_udp_sock`
pub record UdpSock : Type 0 where
  pub port : ℕ
  pub pending : Bool
  pub src_ip : Mem
  pub src_port : ℕ
  pub len : ℕ
  pub xseg : ℕ
  pub xoff : ℕ

-- `mn_net`, less the interface and the TCP callback.
pub record Net : Type 0 where
  pub ip : Mem
  pub mask : Mem
  pub gw : Mem
  pub arp : ArpCache
  pub sock : ℕ → UdpSock
  pub ip_id : ℕ
  pub rx_frames : ℕ
  pub arp_replies : ℕ
  pub arp_learned : ℕ
  pub echo_replies : ℕ
  pub udp_rx : ℕ
  pub udp_dropped : ℕ
  pub tx_failures : ℕ

-- Everything that the network layer reads and writes: its record, the interface, the two frame
-- buffers, the address that `tx_begin` resolved, and the memory outside the image.
pub record Sys : Type 0 where
  pub net : Net
  pub nif : Netif
  pub rxf : Mem
  pub txf : Mem
  pub tx_mac : Mem
  pub pool : Mem

abbrev pub set_net : Sys → Net → Sys
set_net s n = record s { net = n }

abbrev pub set_sock : Net → ℕ → UdpSock → Net
set_sock n i k = record n { sock = λ j. if j == i then k else n.sock j }

abbrev pub limited_bcast : Mem
limited_bcast = λ _. 255

abbrev pub zero_ip : Mem
zero_ip = λ _. 0

abbrev pub copy4 : Mem → Mem → Mem
copy4 d s = poke (poke (poke (poke d 0 (s 0)) 1 (s 1)) 2 (s 2)) 3 (s 3)

unfoldable pub eq4 : Mem → Mem → Bool
eq4 a b = a 0 == b 0 && a 1 == b 1 && a 2 == b 2 && a 3 == b 3
