-- ===== src/Dns/Client.antt =====
-- The resolver of src/net/mn_dns.c: one lookup at a time, driven by poll. Its messages are built and
-- parsed in the network layer's receive buffer, `rxf`.
use mega_net.Base.{
  Mem, poke, offset, copy, leb, ◌==◌, if◌then◌else◌, u8, u16, sub16, ℕ, zero, suc, ◌+◌, ◌*◌,
  bit_and, Bool, true, false, none, some,
}
use mega_net.Dns.Message.{dns_name_max, dns_build, ignored, refused, answer, dns_parse}
use mega_net.Net.Sockets.{net_udp_open, net_udp_close, net_udp_recv}
use mega_net.Net.State.{udp_sock_buf, send_pending, Sys, set_net}
use mega_net.Net.Transmit.{net_send_udp}

pub data DnsState : Type 0 where
  idle waiting done failed : DnsState

abbrev pub is_waiting : DnsState → Bool
is_waiting waiting = true
is_waiting _ = false

-- `mn_dns`
pub record Dns : Type 0 where
  pub state : DnsState
  pub sock : ℕ
  pub id : ℕ
  pub port : ℕ
  pub server : Mem
  pub ip : Mem
  pub name : Mem
  pub sent_at : ℕ
  pub tries : ℕ
  pub pending : Bool

abbrev pub port_dns : ℕ
port_dns = 53

abbrev pub dns_retry_ticks : ℕ
dns_retry_ticks = 100

abbrev pub dns_max_tries : ℕ
dns_max_tries = 3

unfoldable pub dns_transmit : Dns → Sys → ℕ → Dns × Sys
dns_transmit d s now =
    let (msg, n) = dns_build s.rxf d.id d.name in
    let s1 = record s { rxf = msg } in
    if n == 0
    then (record d { state = failed }, s1)
    else (let (s2, r) = net_send_udp s1 d.server d.port port_dns msg n in
        (
          record d {
            pending = r == send_pending;
            sent_at = now;
            tries = if r == send_pending then d.tries else u8 (d.tries + 1);
          },
          s2,
        ))

-- `for (i = 0; i < MN_DNS_NAME_MAX && name[i]; i++) d->name[i] = name[i]; d->name[i] = 0`
unfoldable pub copy_name : ℕ → ℕ → Mem → Mem → Mem
copy_name zero i dst name = poke dst i 0
copy_name (suc n) i dst name =
    let rest = copy_name n (i + 1) (poke dst i (name i)) name in
    if name i == 0 then poke dst i 0 else rest

unfoldable pub dns_start : Dns → Sys → Mem → Mem → ℕ → Dns × Sys
dns_start d s name server now =
    let net1 = if d.sock == 0xff then s.net else net_udp_close s.net d.sock in
    let port = u16 (49152 + bit_and now 0x0fff) in
    let (net2, sock) = net_udp_open net1 port in
    let d1 = record d {
      name = copy_name dns_name_max 0 d.name name;
      server = copy d.server server 4;
      ip = copy d.ip (λ _. 0) 4;
      id = u16 (now * 7 + s.nif.mac 5);
      port = port;
      sock = sock;
      tries = 0;
      state = if sock == 0xff then failed else waiting;
    } in
    if sock == 0xff then (d1, set_net s net2) else dns_transmit d1 (set_net s net2) now

-- The machine gives up its socket.
abbrev pub dns_end : Dns → Sys → DnsState → Dns × Sys
dns_end d s st = (record d { state = st; sock = 0xff }, set_net s (net_udp_close s.net d.sock))

unfoldable pub dns_due : Dns → Sys → ℕ → Dns × Sys
dns_due d s now =
    if d.pending
    then dns_transmit d s now
    else if leb dns_retry_ticks (sub16 now d.sent_at)
    then (if leb dns_max_tries d.tries then dns_end d s failed else dns_transmit d s now)
    else (d, s)

unfoldable pub dns_poll_waiting : Dns → Sys → ℕ → Dns × Sys
dns_poll_waiting d s now =
    let (net1, got) = net_udp_recv s.net s.pool d.sock s.rxf udp_sock_buf (λ _. 0) in
    elim got [
      | none ↦ dns_due d (set_net s net1) now
      | some r ↦
          let s1 = record s { net = net1; rxf = r.buf } in
          elim (dns_parse d.id r.buf r.len) [
            | answer p ↦ dns_end (record d { ip = copy d.ip (offset r.buf p) 4 }) s1 done
            | refused ↦ dns_end d s1 failed
            | ignored ↦ dns_due d s1 now
          ]
    ]

unfoldable pub dns_poll : Dns → Sys → ℕ → Dns × Sys
dns_poll d s now = if is_waiting d.state then dns_poll_waiting d s now else (d, s)
