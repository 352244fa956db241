-- ===== src/Dhcp/Client.antt =====
-- The machine of src/net/mn_dhcp.c. Its messages are built and parsed in the network layer's receive
-- buffer, `rxf`.
use mega_net.Base.{
  Mem, poke, offset, copy, ltb, leb, ◌==◌, if◌then◌else◌, u8, u16, sub16, ℕ, ◌+◌, not, ◌&&◌, none,
  some,
}
use mega_net.Dhcp.Lease.{granted, clock_tick}
use mega_net.Dhcp.Message.{dhcp_build, dhcp_parse}
use mega_net.Dhcp.State.{
  idle, failed, DhcpState, selecting, requesting, bound, steady, renewing, rebinding, Dhcp,
  is_bound, is_selecting, is_renewing, port_server, port_client, msg_discover, msg_offer,
  msg_request, msg_ack, msg_nak, dhcp_retry_ticks, dhcp_max_tries, renew_retry_m,
}
use mega_net.Net.Receive.{net_set_ip}
use mega_net.Net.Sockets.{net_udp_open, net_udp_close, Received, net_udp_recv}
use mega_net.Net.State.{udp_sock_buf, send_pending, Net, Sys, set_net, zero_ip, copy4}
use mega_net.Net.Transmit.{net_send_udp}

abbrev pub bcast : Mem
bcast = λ _. 255

unfoldable pub dhcp_transmit : Dhcp → Sys → ℕ → ℕ → Dhcp × Sys
dhcp_transmit d s type now =
    let (msg, n) = dhcp_build s.rxf d s.net s.nif.mac type in
    let dst = if is_bound d.state && is_renewing d.phase then d.server_id else bcast in
    let (s1, r) = net_send_udp (record s { rxf = msg }) dst port_client port_server msg n in
    (
      record d {
        pending = r == send_pending;
        sent_at = now;
        tries = if r == send_pending then d.tries else u8 (d.tries + 1);
      },
      s1,
    )

-- `d->offered_ip[i] = ... = 0`, for four bytes.
abbrev pub clear4 : Mem → Mem
clear4 m = copy m zero_ip 4

unfoldable pub dhcp_start : Dhcp → Sys → ℕ → Dhcp × Sys
dhcp_start d s now =
    let net1 = net_set_ip s.net zero_ip zero_ip zero_ip in
    let net2 = if d.sock == 0xff then net1 else net_udp_close net1 d.sock in
    let (net3, sock) = net_udp_open net2 port_client in
    let mac = s.nif.mac in
    let d1 = record d {
      sock = sock;
      xid = poke (poke (poke (poke d.xid 0 (mac 3)) 1 (mac 4)) 2 (mac 5)) 3 (u8 now);
      offered_ip = clear4 d.offered_ip;
      server_id = clear4 d.server_id;
      mask = clear4 d.mask;
      gw = clear4 d.gw;
      dns = clear4 d.dns;
      lease_s = 0;
      phase = steady;
      age_m = 0;
      t1_m = 0;
      t2_m = 0;
      next_m = 0;
      lease_m = 0;
      tick_last = now;
      tick_acc = 0;
      sec_acc = 0;
      tries = 0;
      rx_count = 0;
      last_len = 0;
      last_op = 0;
      last_type = 0;
      state = selecting;
    } in
    dhcp_transmit d1 (set_net s net3) msg_discover now

-- Opens the socket again if it was given up.
abbrev pub reopen : Dhcp → Net → Net × ℕ
reopen d net = if d.sock == 0xff then net_udp_open net port_client else (net, d.sock)

unfoldable pub lost : Dhcp → Sys → ℕ → Dhcp × Sys
lost d s now =
    let net1 = net_set_ip s.net zero_ip zero_ip zero_ip in
    let (net2, sock) = reopen d net1 in
    let d1 = record d {
      state = selecting;
      phase = steady;
      tries = 0;
      xid = poke d.xid 3 (u8 (d.xid 3 + 1));
      sock = sock;
    } in
    dhcp_transmit d1 (set_net s net2) msg_discover now

-- The renewal REQUEST that is due, and when the next one is.
unfoldable pub renew : Dhcp → Sys → ℕ → Dhcp × Sys
renew d s now =
    let ph = if leb d.t2_m d.age_m then rebinding else renewing in
    let (net1, sock) = reopen d s.net in
    let (d1, s1) =
      dhcp_transmit (record d { phase = ph; sock = sock; tries = 0 }) (set_net s net1) msg_request
        now in
    let next = u16 (d1.age_m + renew_retry_m) in
    (record d1 { next_m = if is_renewing ph && ltb d1.t2_m next then d1.t2_m else next }, s1)

-- The second half of `poll_bound`.
unfoldable pub bound_due : Dhcp → Sys → ℕ → Dhcp × Sys
bound_due d s now =
    if leb d.lease_m d.age_m
    then lost d s now
    else if leb d.next_m d.age_m
    then renew d s now
    else if d.pending
    then dhcp_transmit d s msg_request now
    else (d, s)

-- The machine gives up its socket.
abbrev pub give_up_sock : Dhcp → Sys → Dhcp × Sys
give_up_sock d s = (record d { sock = 0xff }, set_net s (net_udp_close s.net d.sock))

-- A datagram while bound.
unfoldable pub bound_input : Dhcp → Sys → Received → ℕ → Dhcp × Sys
bound_input d s r now =
    let d1 = record d { rx_count = u16 (d.rx_count + 1); last_len = r.len } in
    let (d2, yiaddr, type) = dhcp_parse d1 s.nif.mac r.buf r.len (λ _. 0) in
    let d3 = record d2 { last_type = type } in
    if type == msg_ack
    then (let (d4, s1) = give_up_sock d3 s in (granted d4 now, s1))
    else if type == msg_nak
    then lost d3 s now
    else bound_due d3 s now

unfoldable pub poll_bound : Dhcp → Sys → ℕ → Dhcp × Sys
poll_bound d0 s now =
    let d = clock_tick d0 now in
    if d.t1_m == 0
    then (d, s)
    else if d.sock == 0xff
    then bound_due d s now
    else (let (net1, got) = net_udp_recv s.net s.pool d.sock s.rxf udp_sock_buf (λ _. 0) in
        elim got [
          | none ↦ bound_due d (set_net s net1) now
          | some r ↦ bound_input d (record s { net = net1; rxf = r.buf }) r now
        ])

-- The message that is sent again in the current state.
abbrev pub again : DhcpState → ℕ
again st = if is_selecting st then msg_discover else msg_request

-- The second half of `mn_dhcp_poll`, while acquiring.
unfoldable pub acquire_due : Dhcp → Sys → ℕ → Dhcp × Sys
acquire_due d s now =
    if d.pending
    then dhcp_transmit d s (again d.state) now
    else if leb dhcp_retry_ticks (sub16 now d.sent_at)
    then (if leb dhcp_max_tries d.tries
        then give_up_sock (record d { state = failed }) s
        else dhcp_transmit d s (again d.state) now)
    else (d, s)

-- A datagram while acquiring: the bookkeeping, and what it says.
unfoldable pub note_input : Dhcp → Received → Dhcp
note_input d r = record d {
  rx_count = u16 (d.rx_count + 1);
  last_len = r.len;
  last_op = r.buf 0;
  last_xid = copy d.last_xid (offset r.buf 4) 4;
  last_chaddr = copy d.last_chaddr (offset r.buf 28) 6;
}

unfoldable pub acquire_input : Dhcp → Sys → Received → ℕ → Dhcp × Sys
acquire_input d s r now =
    let (d1, yiaddr, type) = dhcp_parse (note_input d r) s.nif.mac r.buf r.len (λ _. 0) in
    let d2 = record d1 { last_type = type } in
    if is_selecting d2.state && type == msg_offer
    then dhcp_transmit
        (record d2 { offered_ip = copy4 d2.offered_ip yiaddr; state = requesting; tries = 0 }) s
        msg_request now
    else if not (is_selecting d2.state) && type == msg_ack
    then (let (d3, s1) = give_up_sock d2 (set_net s (net_set_ip s.net yiaddr d2.mask d2.gw)) in
        (granted (record d3 { state = bound }) now, s1))
    else if not (is_selecting d2.state) && type == msg_nak
    then dhcp_transmit (record d2 { state = selecting; tries = 0 }) s msg_discover now
    else acquire_due d2 s now

unfoldable pub poll_acquire : Dhcp → Sys → ℕ → Dhcp × Sys
poll_acquire d s now =
    let (net1, got) = net_udp_recv s.net s.pool d.sock s.rxf udp_sock_buf (λ _. 0) in
    elim got [
      | none ↦ acquire_due d (set_net s net1) now
      | some r ↦ acquire_input d (record s { net = net1; rxf = r.buf }) r now
    ]

abbrev pub poll_in : DhcpState → Dhcp → Sys → ℕ → Dhcp × Sys
poll_in idle d s now = (d, s)
poll_in failed d s now = (d, s)
poll_in bound d s now = poll_bound d s now
poll_in st d s now = poll_acquire d s now

-- `mn_dhcp_poll`; the state that it returns is that of the machine.
unfoldable pub dhcp_poll : Dhcp → Sys → ℕ → Dhcp × Sys
dhcp_poll d s now = poll_in d.state d s now
