-- ===== src/Tcp/Poll.antt =====
-- Timers and pending transmissions of a socket, in src/net/mn_tcp.c.
use mega_net.Base.{
  ltb, leb, ◌==◌, if◌then◌else◌, u8, u16, u32, sub16, sub32, ℕ, zero, suc, ◌+◌, ◌*◌, bit_or, Bool,
  true, false, not, ◌&&◌, ◌||◌,
}
use mega_net.Net.State.{send_ok, send_pending, Sys}
use mega_net.Tcp.Emit.{emit}
use mega_net.Tcp.State.{
  TcpState, closed, syn_sent, fin_wait_1, close_wait, last_ack, time_wait, listen, syn_rcvd,
  is_state, f_timeout, fl_fin, fl_syn, fl_psh, fl_ack, rto_max, max_retries, time_wait_ticks, Tcp,
  TcpSet, set_tcp,
}

abbrev pub elapsed : Tcp → ℕ → Bool
elapsed t now = leb t.rto (sub16 now t.sent_at)

abbrev pub back_off : Tcp → Tcp
back_off t = record t {
  stat_retrans = u16 (t.stat_retrans + 1);
  rto = if ltb t.rto rto_max then u16 (t.rto * 2) else t.rto;
}

-- `++t->retries > MAX_RETRIES`, after the increment.
abbrev pub tried : Tcp → Tcp
tried t = record t { retries = u8 (t.retries + 1) }

-- The handshake's timer: the SYN or the SYN|ACK again, or the end of the attempt.
unfoldable pub send_syn : Tcp → Sys → ℕ → Tcp × Sys
send_syn t s now =
    let flags = if is_state t.state syn_sent then fl_syn else bit_or fl_syn fl_ack in
    let (t1, s1, r) = emit (record t { sent_at = now }) s flags t.iss 0 0 true in
    (record t1 { syn_pending = not (r == send_ok) }, s1)

unfoldable pub poll_handshake : Tcp → Sys → ℕ → Tcp × Sys
poll_handshake t s now =
    if t.syn_pending
    then send_syn t s now
    else if elapsed t now
    then (let t1 = tried t in
        if ltb max_retries t1.retries
        then (
          (if is_state t.state syn_rcvd
              then record t1 { state = listen; flags = 0 }
              else record t1 { flags = bit_or t1.flags f_timeout; state = closed }),
          s,
        )
        else send_syn (back_off t1) s now)
    else (t, s)

-- TIME_WAIT answers the FIN it was entered with, which starts its timer.
unfoldable pub answer_fin : Tcp → Sys → ℕ → Tcp × Sys
answer_fin t s now =
    if t.ack_pending
    then (let (t1, s1, r) = emit (record t { ack_pending = false }) s fl_ack t.snd_nxt 0 0 false in
        (record t1 { timewait_at = now }, s1))
    else (t, s)

unfoldable pub poll_time_wait : Tcp → Sys → ℕ → Tcp × Sys
poll_time_wait t s now =
    let (t1, s1) = answer_fin t s now in
    if leb time_wait_ticks (sub16 now t1.timewait_at)
    then (record t1 { state = closed }, s1)
    else (t1, s1)

-- The oldest segment again, or the FIN.
unfoldable pub retransmit : Tcp → Sys → ℕ → Tcp × Sys
retransmit t s now =
    let t1 = tried t in
    if ltb max_retries t1.retries
    then (record t1 { flags = bit_or t1.flags f_timeout; state = closed }, s)
    else (let t2 = record (back_off t1) { sent_at = now; cwnd = t.peer_mss } in
        let (t3, s1, r) =
          if not (t2.inflight == 0)
          then emit t2 s (bit_or fl_ack fl_psh) t2.snd_una 0
              (if ltb t2.peer_mss t2.inflight then t2.peer_mss else t2.inflight) false
          else emit t2 s (bit_or fl_ack fl_fin) (sub32 t2.snd_nxt 1) 0 0 false in
        (t3, s1))

abbrev pub send_limit : Tcp → ℕ
send_limit t = if ltb t.snd_wnd t.cwnd then t.snd_wnd else t.cwnd

-- The size of the next segment under `limit`.
abbrev pub next_size : Tcp → ℕ → ℕ
next_size t limit =
    let n = sub16 t.snd_len t.inflight in
    let n' = if ltb t.peer_mss n then t.peer_mss else n in
    let room = sub16 limit t.inflight in if ltb room n' then room else n'

-- A segment of `n` bytes went out at `now`.
abbrev pub went_out : Tcp → ℕ → ℕ → Tcp
went_out t n now = record t {
  sent_at = if t.inflight == 0 then now else t.sent_at;
  inflight = u16 (t.inflight + n);
  snd_nxt = u32 (t.snd_nxt + n);
  ack_pending = false;
}

-- The sending loop, on fuel; each round but the last puts a byte at least in flight.
unfoldable pub send_from : ℕ → Tcp → Sys → ℕ → ℕ → ℕ → Tcp × Sys × ℕ
send_from zero t s limit now r = (t, s, r)
send_from (suc f) t s limit now r = elim (ltb t.inflight t.snd_len && ltb t.inflight limit) [
  | false ↦ (t, s, r)
  | true ↦
      let n = next_size t limit in
      let (t1, s1, r1) = emit t s (bit_or fl_ack fl_psh) t.snd_nxt t.inflight n false in
      elim (r1 == send_ok) [
        | true ↦ send_from f (went_out t1 n now) s1 limit now r1
        | false ↦ (t1, s1, r1)
      ]
]

unfoldable pub send_queued : Tcp → Sys → ℕ → Tcp × Sys
send_queued t s now =
    let (t1, s1, r) = send_from t.snd_len t s (send_limit t) now send_ok in
    (record t1 { tx_pending = ltb t1.inflight t1.snd_len || r == send_pending }, s1)

-- Our FIN went out at `now`.
abbrev pub fin_out : Tcp → ℕ → Tcp
fin_out t now = record t {
  fin_sent = true;
  snd_nxt = u32 (t.snd_nxt + 1);
  sent_at = now;
  ack_pending = false;
  state = if is_state t.state close_wait then last_ack else fin_wait_1;
}

unfoldable pub send_fin : Tcp → Sys → ℕ → Tcp × Sys
send_fin t s now =
    let (t1, s1, r) = emit t s (bit_or fl_ack fl_fin) t.snd_nxt 0 0 false in
    if r == send_ok then (fin_out t1 now, s1) else (t1, s1)

unfoldable pub send_ack : Tcp → Sys → Tcp × Sys
send_ack t s =
    let (t1, s1, r) = emit t s fl_ack t.snd_nxt 0 0 false in
    ((if r == send_pending then t1 else record t1 { ack_pending = false }), s1)

-- The part of `poll_one` below its `switch`.
unfoldable pub poll_connected : Tcp → Sys → ℕ → Tcp × Sys
poll_connected t s now =
    if (not (t.inflight == 0) || t.fin_sent) && elapsed t now
    then retransmit t s now
    else if t.tx_pending && ltb t.inflight t.snd_len
    then send_queued t s now
    else if t.fin_queued && not t.fin_sent && t.inflight == 0 && t.snd_len == 0
    then send_fin t s now
    else if t.ack_pending
    then send_ack t s
    else (t, s)

abbrev pub poll_in : TcpState → Tcp → Sys → ℕ → Tcp × Sys
poll_in closed t s now = (t, s)
poll_in listen t s now = (t, s)
poll_in syn_sent t s now = poll_handshake t s now
poll_in syn_rcvd t s now = poll_handshake t s now
poll_in time_wait t s now = poll_time_wait t s now
poll_in st t s now = poll_connected t s now

unfoldable pub poll_one : Tcp → Sys → ℕ → Tcp × Sys
poll_one t s now = poll_in t.state t s now

-- The loop of `mn_tcp_poll`, with `n` rounds left at `i`.
unfoldable pub poll_from : ℕ → ℕ → TcpSet → Sys → TcpSet × Sys
poll_from zero i set s = (set, s)
poll_from (suc n) i set s =
    let (t, s1) = poll_one (set.sock i) s set.now in poll_from n (i + 1) (set_tcp set i t) s1

unfoldable pub tcp_poll : TcpSet → Sys → ℕ → TcpSet × Sys
tcp_poll set s now = poll_from set.n 0 (record set { now = now }) s
