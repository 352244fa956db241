-- ===== src/Ntp/Client.antt =====
-- The SNTP client of src/net/mn_ntp.c: one request, one reply, the time.
pub mod Laws
use mega_net.Base.{
  Mem, poke, offset, copy, leb, ◌==◌, if◌then◌else◌, u8, u16, sub16, ℕ, ◌+◌, bit_and, Bool, true,
  false, not, ◌&&◌, ◌||◌, Option, none, some,
}
use mega_net.Net.Sockets.{net_udp_open, net_udp_close, Received, net_udp_recv}
use mega_net.Net.State.{send_pending, Sys, set_net}
use mega_net.Net.Transmit.{net_send_udp}
use mega_net.Wire.Byteorder.{get32}

pub data NtpState : Type 0 where
  idle waiting done failed : NtpState

abbrev pub is_waiting : NtpState → Bool
is_waiting waiting = true
is_waiting _ = false

-- `mn_ntp`, with the module's `msg` buffer.
pub record Ntp : Type 0 where
  pub state : NtpState
  pub sock : ℕ
  pub port : ℕ
  pub server : Mem
  pub seconds : ℕ
  pub sent_at : ℕ
  pub tries : ℕ
  pub pending : Bool
  pub msg : Mem

abbrev pub port_ntp : ℕ
port_ntp = 123

abbrev pub ntp_msg_len : ℕ
ntp_msg_len = 48

abbrev pub ntp_retry_ticks : ℕ
ntp_retry_ticks = 150

abbrev pub ntp_max_tries : ℕ
ntp_max_tries = 3

-- `for (i = 0; i < MSG_LEN; i++) msg[i] = 0; msg[0] = 0x23`
abbrev pub ntp_request : Mem → Mem
ntp_request msg = poke (copy msg (λ _. 0) ntp_msg_len) 0 0x23

unfoldable pub ntp_transmit : Ntp → Sys → ℕ → Ntp × Sys
ntp_transmit n s now =
    let m = ntp_request n.msg in
    let (s1, r) = net_send_udp s n.server n.port port_ntp m ntp_msg_len in
    (
      record n {
        msg = m;
        pending = r == send_pending;
        sent_at = now;
        tries = if r == send_pending then n.tries else u8 (n.tries + 1);
      },
      s1,
    )

-- A request begun on the socket that opening the port gave, or failed for want of one.
abbrev pub ntp_begun : Ntp → Mem → ℕ → ℕ → Ntp
ntp_begun n server port sock = record n {
  server = copy n.server server 4;
  seconds = 0;
  port = port;
  sock = sock;
  tries = 0;
  state = if sock == 0xff then failed else waiting;
}

unfoldable pub ntp_start : Ntp → Sys → Mem → ℕ → Ntp × Sys
ntp_start n s server now =
    let net1 = if n.sock == 0xff then s.net else net_udp_close s.net n.sock in
    let port = u16 (50000 + bit_and now 0x0fff) in
    let (net2, sock) = net_udp_open net1 port in
    let n1 = ntp_begun n server port sock in
    if sock == 0xff then (n1, set_net s net2) else ntp_transmit n1 (set_net s net2) now

-- Whether `msg`, of `len` bytes, is a server's reply with a transmit timestamp.
unfoldable pub is_ntp_reply : Mem → ℕ → Bool
is_ntp_reply msg len =
    let mode = bit_and (msg 0) 0x07 in
    leb ntp_msg_len len && (mode == 4 || mode == 2) && not (get32 (offset msg 40) == 0)

-- The machine gives up its socket.
abbrev pub ntp_end : Ntp → Sys → NtpState → Ntp × Sys
ntp_end n s st = (record n { state = st; sock = 0xff }, set_net s (net_udp_close s.net n.sock))

-- The second half of `mn_ntp_poll`: what is due.
unfoldable pub ntp_due : Ntp → Sys → ℕ → Ntp × Sys
ntp_due n s now =
    if n.pending
    then ntp_transmit n s now
    else if leb ntp_retry_ticks (sub16 now n.sent_at)
    then (if leb ntp_max_tries n.tries then ntp_end n s failed else ntp_transmit n s now)
    else (n, s)

-- What the socket delivered, or what is due.
unfoldable pub ntp_input : Option Received → Ntp → Sys → ℕ → Ntp × Sys
ntp_input none n s now = ntp_due n s now
ntp_input (some r) n s now =
    let n1 = record n { msg = r.buf } in
    if is_ntp_reply r.buf r.len
    then ntp_end (record n1 { seconds = get32 (offset r.buf 40) }) s done
    else ntp_due n1 s now

unfoldable pub ntp_poll_waiting : Ntp → Sys → ℕ → Ntp × Sys
ntp_poll_waiting n s now =
    let (net1, got) = net_udp_recv s.net s.pool n.sock n.msg ntp_msg_len (λ _. 0) in
    ntp_input got n (set_net s net1) now

-- `mn_ntp_poll`; the state that it returns is that of the machine.
unfoldable pub ntp_poll : Ntp → Sys → ℕ → Ntp × Sys
ntp_poll n s now = if is_waiting n.state then ntp_poll_waiting n s now else (n, s)
