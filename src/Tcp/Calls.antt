-- ===== src/Tcp/Calls.antt =====
-- What an application asks of a socket, in src/net/mn_tcp.c.
use mega_net.Base.{
  Mem, copy, ltb, leb, ◌==◌, if◌then◌else◌, u8, u16, u32, sub16, sub32, ℕ, zero, suc, ◌+◌, ◌-◌, ◌*◌,
  ◌/◌, ◌%◌, ◌^◌, bit_and, bit_or, Bool, true, false, not, ◌&&◌, ◌||◌,
}
use mega_net.Net.State.{send_ok, Sys}
use mega_net.Tcp.Emit.{emit}
use mega_net.Tcp.Ring.{ring_read, ring_write, ring_read_x, ring_write_x}
use mega_net.Tcp.State.{
  closed, syn_sent, established, fin_wait_1, fin_wait_2, close_wait, time_wait, listen, syn_rcvd,
  is_state, fl_syn, fl_rst, fl_ack, tcp_rcvbuf, tcp_sndbuf, tcp_socket_xmem, winupdate_grow, Tcp,
  TcpSet, set_tcp, adv_window, reset_counters, initial_seq,
}

-- What `mn_tcp_init` leaves in a socket.
abbrev pub initial : Tcp → ℕ → ℕ → ℕ → ℕ → Tcp
initial t i xseg rcvbuf sndbuf =
    record (reset_counters (record t {
      state = closed;
      index = i;
      xseg = xseg;
      rcvbuf = rcvbuf;
      sndbuf = sndbuf;
      local_port = 0;
      remote_port = 0;
    })) { stat_rx_seg = 0; stat_tx_seg = 0; stat_retrans = 0; stat_ooo = 0 }

-- The loop of `mn_tcp_init` over the sockets, with `n` rounds left at `i`.
unfoldable pub init_from : ℕ → ℕ → TcpSet → ℕ → TcpSet
init_from zero i set base = set
init_from (suc n) i set base =
    let rcv = u16 (base + i * tcp_socket_xmem) in
    let t = initial (set.sock i) i (u16 (base / 2 ^ 16)) rcv (u16 (rcv + tcp_rcvbuf)) in
    init_from n (i + 1) (set_tcp set i t) base

-- The sockets that fit before the next 64 KB boundary.
unfoldable pub sockets_in : ℕ → ℕ → ℕ
sockets_in n base =
    let room = 0x10000 - bit_and base 0xffff in
    if ltb room (n * tcp_socket_xmem) then u8 (room / tcp_socket_xmem) else n

unfoldable pub tcp_init : (ℕ → Tcp) → ℕ → ℕ → TcpSet × ℕ
tcp_init socks n base =
    let m = sockets_in n base in
    (init_from m 0 (record { sock = socks; n = m; rst_sent = 0; now = 0 }) base, m)

-- `for (i = 0; i < 4; i++) t->remote_ip[i] = ip[i]`
abbrev pub set_remote_ip : Tcp → Mem → Mem
set_remote_ip t ip = copy t.remote_ip ip 4

unfoldable pub tcp_connect : Tcp → Sys → Mem → ℕ → ℕ → Tcp × Sys × Bool
tcp_connect t s ip port now =
    if not (is_state t.state closed)
    then (t, s, false)
    else (let iss = initial_seq s.nif.mac now t.index in
        let t1 = reset_counters (record t {
          remote_ip = set_remote_ip t ip;
          remote_port = port;
          local_port = u16 (49152 + bit_and (now * 3 + s.nif.mac 5 + t.index * 37) 0x0fff);
          iss = iss;
          snd_una = iss;
          snd_nxt = u32 (iss + 1);
          rcv_nxt = 0;
        }) in
        let (t2, s1, r) =
          emit (record t1 { state = syn_sent; sent_at = now }) s fl_syn iss 0 0 true in
        (record t2 { syn_pending = not (r == send_ok) }, s1, true))

unfoldable pub tcp_listen : Tcp → ℕ → Tcp × Bool
tcp_listen t port = if not (is_state t.state closed) || port == 0 then (t, false) else (
  record (reset_counters (record t { local_port = port; remote_port = 0 })) { state = listen },
  true,
)

unfoldable pub can_send : Tcp → Bool
can_send t = (is_state t.state established || is_state t.state close_wait) && not t.fin_queued

-- How much of `len` bytes the send ring takes.
unfoldable pub accepted : Tcp → ℕ → ℕ
accepted t len = let room = sub16 tcp_sndbuf t.snd_len in if ltb room len then room else len

abbrev pub queued : Tcp → ℕ → Tcp
queued t len = record t { snd_len = u16 (t.snd_len + len); tx_pending = true }

-- `mn_tcp_send`: the socket, the pool and the bytes accepted.
unfoldable pub tcp_send : Tcp → Mem → Mem → ℕ → Tcp × Mem × ℕ
tcp_send t pool src len =
    if not (can_send t)
    then (t, pool, 0)
    else (let n = accepted t len in
        if n == 0 then (t, pool, n) else (
          queued t n,
          ring_write pool t.xseg t.sndbuf tcp_sndbuf ((t.snd_head + t.snd_len) % tcp_sndbuf) src n,
          n,
        ))

unfoldable pub tcp_send_x : Tcp → Mem → ℕ → ℕ → Tcp × Mem × ℕ
tcp_send_x t pool src len =
    if not (can_send t)
    then (t, pool, 0)
    else (let n = accepted t len in
        if n == 0 then (t, pool, n) else (
          queued t n,
          ring_write_x pool t.xseg t.sndbuf tcp_sndbuf ((t.snd_head + t.snd_len) % tcp_sndbuf) src
              n,
          n,
        ))

abbrev pub tcp_available : Tcp → ℕ
tcp_available t = t.rcv_count

-- Whether bytes taken from the ring have moved the right edge of the window far enough.
unfoldable pub window_moved : Tcp → Bool
window_moved t =
    let edge = u32 (t.rcv_nxt + adv_window t) in
    leb winupdate_grow (sub32 edge t.adv_edge) || t.adv_edge == t.rcv_nxt

unfoldable pub after_recv : Tcp → ℕ → Tcp
after_recv t n =
    let t1 = record t {
      rcv_head = (t.rcv_head + n) % tcp_rcvbuf;
      rcv_count = sub16 t.rcv_count n;
    } in
    let takes =
      is_state t.state established || is_state t.state fin_wait_1 || is_state t.state fin_wait_2 in
    if not (n == 0) && takes && window_moved t1 then record t1 { ack_pending = true } else t1

-- `mn_tcp_recv`: the socket, the buffer and the bytes taken.
unfoldable pub tcp_recv : Tcp → Mem → Mem → ℕ → Tcp × Mem × ℕ
tcp_recv t pool out cap =
    let n = if ltb cap t.rcv_count then cap else t.rcv_count in
    let out' = if n == 0 then out else ring_read pool out t.xseg t.rcvbuf tcp_rcvbuf t.rcv_head n in
    (after_recv t n, out', n)

unfoldable pub tcp_recv_x : Tcp → Mem → ℕ → ℕ → Tcp × Mem × ℕ
tcp_recv_x t pool dst cap =
    let n = if ltb cap t.rcv_count then cap else t.rcv_count in
    let pool' =
      if n == 0 then pool else ring_read_x pool dst t.xseg t.rcvbuf tcp_rcvbuf t.rcv_head n in
    (after_recv t n, pool', n)

unfoldable pub tcp_close : Tcp → Tcp
tcp_close t =
    if is_state t.state established || is_state t.state close_wait
    then record t { fin_queued = true; tx_pending = true }
    else if is_state t.state syn_sent || is_state t.state listen || is_state t.state syn_rcvd
    then record t { state = closed }
    else t

-- Everything that `mn_tcp_abort` clears.
abbrev pub dropped : Tcp → Tcp
dropped t = record t {
  state = closed;
  snd_head = 0;
  snd_len = 0;
  inflight = 0;
  fin_queued = false;
  fin_sent = false;
  ack_pending = false;
  syn_pending = false;
  tx_pending = false;
}

unfoldable pub tcp_abort : Tcp → Sys → Tcp × Sys
tcp_abort t s =
    if not (is_state t.state closed)
      && not (is_state t.state time_wait)
      && not (is_state t.state listen)
    then (let (t1, s1, r) = emit t s (bit_or fl_rst fl_ack) t.snd_nxt 0 0 false in (dropped t1, s1))
    else (dropped t, s)
