-- ===== src/Tcp/Input.antt =====
-- What arrives for a socket, in src/net/mn_tcp.c.
use mega_net.Base.{
  Mem, offset, ltb, ◌==◌, if◌then◌else◌, u16, u32, sub16, sub32, ℕ, zero, suc, ◌+◌, ◌*◌, ◌%◌,
  bit_or, Bool, true, false, not, ◌&&◌, ◌||◌,
}
use mega_net.Net.State.{send_ok, Sys}
use mega_net.Tcp.Calls.{set_remote_ip}
use mega_net.Tcp.Emit.{emit}
use mega_net.Tcp.Ring.{ring_write}
use mega_net.Tcp.State.{
  TcpState, closed, syn_sent, established, fin_wait_1, fin_wait_2, close_wait, closing, last_ack,
  time_wait, listen, syn_rcvd, is_state, f_eof, f_reset, f_refused, fl_fin, fl_syn, fl_rst, fl_ack,
  has, tcp_hdr_len, tcp_rcvbuf, tcp_sndbuf, tcp_mss, rto_initial, cwnd_max, Tcp, TcpSet, seq_lt,
  seq_leq, rcv_free, adv_window, reset_counters, initial_seq,
}
use mega_net.Wire.Byteorder.{get16}
use mega_net.Wire.Ipv4.{ipv4_src}

-- `ring_put`: as much of a payload as fits, and how much that is.
unfoldable pub ring_put : Tcp → Mem → Mem → ℕ → Tcp × Mem × ℕ
ring_put t pool src len =
    let n = if ltb (rcv_free t) len then rcv_free t else len in
    let pool' =
      if n == 0
      then pool
      else ring_write pool t.xseg t.rcvbuf tcp_rcvbuf ((t.rcv_head + t.rcv_count) % tcp_rcvbuf) src
          n in
    (record t { rcv_count = u16 (t.rcv_count + n) }, pool', n)

-- The bytes of the send ring that an acknowledgement retires.
unfoldable pub acked_bytes : Tcp → ℕ → ℕ
acked_bytes t ack =
    let a = u16 (sub32 ack t.snd_una) in
    let b = if t.fin_sent && ack == t.snd_nxt then sub16 a 1 else a in
    if ltb t.inflight b then t.inflight else b

-- An acknowledgement that is neither old nor beyond what was sent.
abbrev pub is_new_ack : Tcp → ℕ → Bool
is_new_ack t ack = not (seq_leq ack t.snd_una || seq_lt t.snd_nxt ack)

unfoldable pub handle_ack : Tcp → ℕ → ℕ → Tcp
handle_ack t ack now =
    if not (is_new_ack t ack)
    then t
    else (let acked = acked_bytes t ack in
        let len' = sub16 t.snd_len acked in
        let inflight' = sub16 t.inflight acked in
        record t {
          snd_head = (t.snd_head + acked) % tcp_sndbuf;
          snd_len = len';
          inflight = inflight';
          snd_una = ack;
          retries = 0;
          rto = rto_initial;
          sent_at = now;
          cwnd =
              if ltb t.cwnd (u16 (t.peer_mss * cwnd_max))
              then u16 (t.cwnd + t.peer_mss)
              else t.cwnd;
          tx_pending = if ltb inflight' len' then true else t.tx_pending;
        })

-- The loop of `take_mss` at `o`, on fuel: each round but the last moves on by a byte at least.
-- The result is `t->peer_mss`.
unfoldable pub mss_from : ℕ → Mem → ℕ → ℕ → ℕ → ℕ
mss_from zero seg hlen o mss = mss
mss_from (suc f) seg hlen o mss =
    let kind = seg o in
    let size = seg (o + 1) in
    let mss' =
      if kind == 2 && size == 4 && ltb (o + 3) hlen then get16 (offset seg (o + 2)) else mss in
    let after_pad = mss_from f seg hlen (u16 (o + 1)) mss in
    let after_option = mss_from f seg hlen (u16 (o + size)) mss' in
    if not (ltb (o + 1) hlen)
    then mss
    else if kind == 0
    then mss
    else if kind == 1
    then after_pad
    else if ltb size 2
    then mss'
    else after_option

unfoldable pub take_mss : Tcp → Mem → ℕ → Tcp
take_mss t seg hlen =
    let mss = mss_from hlen seg hlen tcp_hdr_len t.peer_mss in
    record t { peer_mss = if ltb tcp_mss mss then tcp_mss else mss }

unfoldable pub passive_open : TcpSet → Tcp → Sys → Mem → Mem → ℕ → ℕ → Tcp × Sys
passive_open set t s ip seg hlen seq =
    let iss = initial_seq s.nif.mac set.now t.index in
    let t1 =
      reset_counters
        (record t { remote_ip = set_remote_ip t (ipv4_src ip); remote_port = get16 seg }) in
    let t2 =
      take_mss
        (record t1 {
          irs = seq;
          rcv_nxt = u32 (seq + 1);
          iss = iss;
          snd_una = iss;
          snd_nxt = u32 (iss + 1);
          snd_wnd = get16 (offset seg 14);
        })
        seg hlen in
    let (t3, s1, r) =
      emit (record t2 { state = syn_rcvd; sent_at = set.now }) s (bit_or fl_syn fl_ack) iss 0 0
        true in
    (record t3 { syn_pending = not (r == send_ok) }, s1)

-- A segment as the dispatcher reads it: the bytes, the header's length, the flags, the two numbers
-- and the length of the data.
pub record Segment : Type 0 where
  pub bytes : Mem
  pub hlen : ℕ
  pub flags : ℕ
  pub seq : ℕ
  pub ack : ℕ
  pub dlen : ℕ

-- The RST case of `segment_input`.
unfoldable pub rst_input : Tcp → Segment → Tcp
rst_input t g =
    if is_state t.state syn_sent
    then (if has g.flags fl_ack && g.ack == t.snd_nxt
        then record t { flags = bit_or t.flags (bit_or f_refused f_reset); state = closed }
        else t)
    else if is_state t.state syn_rcvd
    then record t { state = listen; flags = 0 }
    else if seq_lt g.seq t.rcv_nxt || seq_leq (u32 (t.rcv_nxt + adv_window t)) g.seq
    then t
    else record t { flags = bit_or t.flags f_reset; state = closed }

-- What completing a handshake sets.
abbrev pub establish : Tcp → Tcp
establish t = record t {
  state = established;
  cwnd = u16 (t.peer_mss * 2);
  retries = 0;
  rto = rto_initial;
}

-- The answer to our SYN.
unfoldable pub syn_sent_input : Tcp → Segment → Tcp
syn_sent_input t g =
    if not (has g.flags fl_syn) || not (has g.flags fl_ack) || not (g.ack == t.snd_nxt)
    then t
    else (let t1 =
          take_mss
            (record t {
              irs = g.seq;
              rcv_nxt = u32 (g.seq + 1);
              snd_una = g.ack;
              snd_wnd = get16 (offset g.bytes 14);
            })
            g.bytes g.hlen in
        record (establish t1) { ack_pending = true })

abbrev pub takes_data : TcpState → Bool
takes_data st = is_state st established || is_state st fin_wait_1 || is_state st fin_wait_2

-- The in-order data of a segment, and whether its FIN is reached.
unfoldable pub data_input : Tcp → Mem → Segment → Tcp × Mem × Bool
data_input t pool g =
    let fin = has g.flags fl_fin in
    if g.dlen == 0
    then (t, pool, fin)
    else if takes_data t.state
    then (let (t1, pool', i) = ring_put t pool (offset g.bytes g.hlen) g.dlen in
        (
          record t1 { rcv_nxt = u32 (t1.rcv_nxt + i); ack_pending = true },
          pool',
          if ltb i g.dlen then false else fin,
        ))
    else (record t { ack_pending = true }, pool, fin)

abbrev pub after_fin : TcpState → TcpState
after_fin established = close_wait
after_fin fin_wait_1 = closing
after_fin fin_wait_2 = time_wait
after_fin st = st

unfoldable pub fin_input : Tcp → Bool → Tcp
fin_input t fin =
    if fin
    then record t {
      rcv_nxt = u32 (t.rcv_nxt + 1);
      flags = bit_or t.flags f_eof;
      ack_pending = true;
      state = after_fin t.state;
    }
    else t

abbrev pub after_our_fin : TcpState → TcpState
after_our_fin fin_wait_1 = fin_wait_2
after_our_fin closing = time_wait
after_our_fin last_ack = closed
after_our_fin st = st

-- "Our FIN acknowledged?"
unfoldable pub our_fin : Tcp → Tcp
our_fin t =
    if t.fin_sent && t.snd_una == t.snd_nxt then record t { state = after_our_fin t.state } else t

-- From the acknowledgement on, for a socket with a connection.
unfoldable pub connected_input : Tcp → Mem → Segment → ℕ → Tcp × Mem
connected_input t pool g now =
    if not (has g.flags fl_ack)
    then (t, pool)
    else if not (g.seq == t.rcv_nxt)
    then (let t1 =
          if not (g.dlen == 0) || has g.flags fl_fin
          then record t { stat_ooo = u16 (t.stat_ooo + 1); ack_pending = true }
          else t in
        (handle_ack t1 g.ack now, pool))
    else (let t1 = record (handle_ack t g.ack now) { snd_wnd = get16 (offset g.bytes 14) } in
        let (t2, pool', fin) = data_input t1 pool g in (our_fin (fin_input t2 fin), pool'))

-- The SYN_RCVD case of `segment_input`: the ACK of our SYN|ACK falls through with its data.
unfoldable pub syn_rcvd_input : Tcp → Mem → Segment → ℕ → Tcp × Mem
syn_rcvd_input t pool g now =
    if has g.flags fl_syn
    then ((if u32 (g.seq + 1) == t.rcv_nxt then record t { syn_pending = true } else t), pool)
    else if not (has g.flags fl_ack) || not (g.ack == t.snd_nxt) || not (g.seq == t.rcv_nxt)
    then (t, pool)
    else connected_input (establish (record t { snd_una = g.ack })) pool g now

unfoldable pub segment_input : Tcp → Mem → Segment → ℕ → Tcp × Mem
segment_input t0 pool g now =
    let t = record t0 { stat_rx_seg = u16 (t0.stat_rx_seg + 1) } in
    if has g.flags fl_rst
    then (rst_input t g, pool)
    else if is_state t.state syn_sent
    then (syn_sent_input t g, pool)
    else if is_state t.state syn_rcvd
    then syn_rcvd_input t pool g now
    else connected_input t pool g now
