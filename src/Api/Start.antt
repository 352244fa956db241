-- ===== src/Api/Start.antt =====
-- `mn_api_init` of src/abi/api.c, and `mn_api_tcp_info`'s pool.
use mega_net.Base.{Mem, poke, u8, ℕ, ◌+◌, ◌*◌, ◌/◌, ◌^◌, false}
use mega_net.Api.State.{abi_tcp_sockets, pool_bank5, Machine, ret}
use mega_net.Dhcp.State.{DhcpState, Phase, Dhcp}
use mega_net.Dns.Client.{DnsState, Dns}
use mega_net.Net.Receive.{net_set_pool, net_init}
use mega_net.Net.State.{Netif, UdpSock, Net, set_net}
use mega_net.Ntp.Client.{NtpState, Ntp}
use mega_net.Tcp.Calls.{tcp_init}
use mega_net.Tcp.State.{TcpState, tcp_socket_xmem, Tcp}
use mega_net.Wire.Arp.Cache.{ArpCache}

-- What clearing `.bss` leaves in each part.
abbrev pub zero_mem : Mem
zero_mem = λ _. 0

abbrev pub zero_sock : UdpSock
zero_sock = record {
  port = 0;
  pending = false;
  src_ip = zero_mem;
  src_port = 0;
  len = 0;
  xseg = 0;
  xoff = 0;
}

abbrev pub zero_cache : ArpCache
zero_cache = record { e = λ _. record { ip = zero_mem; mac = zero_mem; valid = false }; next = 0 }

abbrev pub zero_net : Net
zero_net = record {
  ip = zero_mem;
  mask = zero_mem;
  gw = zero_mem;
  arp = zero_cache;
  sock = λ _. zero_sock;
  ip_id = 0;
  rx_frames = 0;
  arp_replies = 0;
  arp_learned = 0;
  echo_replies = 0;
  udp_rx = 0;
  udp_dropped = 0;
  tx_failures = 0;
}

abbrev pub zero_tcp : Tcp
zero_tcp = record {
  state = TcpState.closed;
  flags = 0;
  index = 0;
  remote_ip = zero_mem;
  remote_port = 0;
  local_port = 0;
  iss = 0;
  snd_una = 0;
  snd_nxt = 0;
  irs = 0;
  rcv_nxt = 0;
  adv_edge = 0;
  snd_wnd = 0;
  peer_mss = 0;
  xseg = 0;
  rcvbuf = 0;
  sndbuf = 0;
  snd_head = 0;
  snd_len = 0;
  inflight = 0;
  cwnd = 0;
  fin_queued = false;
  fin_sent = false;
  rcv_head = 0;
  rcv_count = 0;
  ack_pending = false;
  syn_pending = false;
  tx_pending = false;
  sent_at = 0;
  rto = 0;
  timewait_at = 0;
  retries = 0;
  stat_rx_seg = 0;
  stat_tx_seg = 0;
  stat_retrans = 0;
  stat_ooo = 0;
}

abbrev pub zero_dhcp : Dhcp
zero_dhcp = record {
  state = DhcpState.idle;
  sock = 0;
  xid = zero_mem;
  offered_ip = zero_mem;
  server_id = zero_mem;
  mask = zero_mem;
  gw = zero_mem;
  dns = zero_mem;
  lease_s = 0;
  phase = Phase.steady;
  age_m = 0;
  t1_m = 0;
  t2_m = 0;
  next_m = 0;
  lease_m = 0;
  tick_last = 0;
  tick_acc = 0;
  sec_acc = 0;
  sent_at = 0;
  tries = 0;
  pending = false;
  rx_count = 0;
  last_len = 0;
  last_op = 0;
  last_type = 0;
  last_xid = zero_mem;
  last_chaddr = zero_mem;
}

abbrev pub zero_dns : Dns
zero_dns = record {
  state = DnsState.idle;
  sock = 0;
  id = 0;
  port = 0;
  server = zero_mem;
  ip = zero_mem;
  name = zero_mem;
  sent_at = 0;
  tries = 0;
  pending = false;
}

abbrev pub zero_ntp : Ntp
zero_ntp = record {
  state = NtpState.idle;
  sock = 0;
  port = 0;
  server = zero_mem;
  seconds = 0;
  sent_at = 0;
  tries = 0;
  pending = false;
  msg = zero_mem;
}

-- The loops of `mn_api_init` over `.bss`: all but the mailboxes and what lies outside the image.
unfoldable pub clear_bss : Machine → Netif → Machine
clear_bss m nif = record m {
  sys = record {
    net = zero_net;
    nif = nif;
    rxf = zero_mem;
    txf = zero_mem;
    tx_mac = zero_mem;
    pool = m.sys.pool;
  };
  dhcp = zero_dhcp;
  dns = zero_dns;
  ntp = zero_ntp;
  tcpset = record { sock = λ _. zero_tcp; n = 0; rst_sent = 0; now = 0 };
  pool_kind = 0;
  pool_base = 0;
  window_irqs = 0;
  name = zero_mem;
  ticks = 0;
  last_frame = 0;
  blk = zero_mem;
}

-- The stub that counts an interrupt, where `irqs` is the address of the counter, and the vectors of
-- NMI, RESET and IRQ/BRK to it.
unfoldable pub install_window_vectors : Mem → ℕ → Mem
install_window_vectors w irqs =
    let w1 = poke (poke w 0xFFF0 0xEE) 0xFFF1 (u8 irqs) in
    let w2 = poke (poke w1 0xFFF2 (u8 (irqs / 2 ^ 8))) 0xFFF3 0x40 in
    let w3 = poke (poke w2 0xFFFA 0xF0) 0xFFFB 0xFF in
    let w4 = poke (poke w3 0xFFFC 0xF0) 0xFFFD 0xFF in poke (poke w4 0xFFFE 0xF0) 0xFFFF 0xFF

-- `probe_pool`, as the default build has it.
unfoldable pub probe_pool : Machine → Machine
probe_pool m = record m { pool_kind = 2; pool_base = pool_bank5 }

-- `mn_tcp_init(&tcpset, tcps, ...)` and `mn_net_set_pool(&net, ...)`
unfoldable pub init_sockets : Machine → Machine
init_sockets m = record m {
  tcpset = (tcp_init m.tcpset.sock abi_tcp_sockets m.pool_base).0;
  sys = set_net m.sys (net_set_pool m.sys.net (m.pool_base + abi_tcp_sockets * tcp_socket_xmem));
}

-- `mn_api_init`: the interface is what `mn_eth45e100_init` made of it, and `irqs` the address of
-- `window_irqs`.
unfoldable pub api_init : Netif → ℕ → ℕ → Machine → Machine
api_init nif irqs f m =
    let m1 = clear_bss (record m { window = install_window_vectors m.window irqs }) nif in
    let m2 = record m1 {
      sys = set_net m1.sys (net_init m1.sys.net);
      dhcp = record m1.dhcp { state = DhcpState.idle; sock = 0xff };
      dns = record m1.dns { state = DnsState.idle; sock = 0xff };
      ntp = record m1.ntp { state = NtpState.idle; sock = 0xff };
    } in
    ret (record (init_sockets (probe_pool m2)) { last_frame = f }) 0 0 0 0
