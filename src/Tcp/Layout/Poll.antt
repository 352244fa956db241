-- ===== src/Tcp/Layout/Poll.antt =====
-- The rings across the timers of src/net/mn_tcp.c.
use mega_net.Base.{
  ltb, ◌==◌, if◌then◌else◌, Bool-cases, sub32, ℕ, zero, suc, bit_or, inl, inr, Bool, true, false,
  ◌&&◌, arith,
}
use mega_net.Net.State.{send_ok, Sys}
use mega_net.Tcp.Emit.{emit}
use mega_net.Tcp.Layout.Calls.{emit-HasRings}
use mega_net.Tcp.Poll.{
  back_off, tried, send_syn, poll_handshake, answer_fin, poll_time_wait, retransmit, send_limit,
  next_size, went_out, send_from, send_queued, send_fin, send_ack, poll_connected, poll_one,
}
use mega_net.Tcp.Queue.{HasRings}
use mega_net.Tcp.State.{TcpState, syn_sent, is_state, fl_fin, fl_syn, fl_psh, fl_ack, Tcp}

timed-HasRings :
    (t : Tcp) (a b d e k : ℕ) (st : TcpState) (p q u v : Bool)
    → HasRings t
    → HasRings (record t {
      state = st;
      flags = a;
      sent_at = b;
      cwnd = d;
      timewait_at = e;
      retries = k;
      ack_pending = p;
      syn_pending = q;
      tx_pending = u;
      fin_sent = v;
    })
timed-HasRings t a b d e k st p q u v r = ground arith

backed_off-HasRings : (t : Tcp) → HasRings t → HasRings (back_off t)
backed_off-HasRings t r = ground arith

send_syn-HasRings : (t : Tcp) (s : Sys) (now : ℕ) → HasRings t → HasRings (send_syn t s now).0
unfolding send_syn
send_syn-HasRings t s now r = timed-HasRings _ _ _ _ _ _ _ _ _ _ _ (
    emit-HasRings (record t { sent_at = now }) s
      (if is_state t.state syn_sent then fl_syn else bit_or fl_syn fl_ack) t.iss 0 0 true
      (timed-HasRings t _ _ _ _ _ _ _ _ _ _ r))

poll_handshake-HasRings :
    (t : Tcp) (s : Sys) (now : ℕ) → HasRings t → HasRings (poll_handshake t s now).0
unfolding poll_handshake
poll_handshake-HasRings t s now r =
    let again =
      send_syn-HasRings (back_off (tried t)) s now
        (backed_off-HasRings (tried t) (timed-HasRings t _ _ _ _ _ _ _ _ _ _ r)) in
    ground (arith, r, send_syn-HasRings t s now r, again)

answer_fin-HasRings : (t : Tcp) (s : Sys) (now : ℕ) → HasRings t → HasRings (answer_fin t s now).0
unfolding answer_fin
answer_fin-HasRings t s now r =
    let e =
      emit-HasRings (record t { ack_pending = false }) s fl_ack t.snd_nxt 0 0 false
        (timed-HasRings t _ _ _ _ _ _ _ _ _ _ r) in
    ground (arith, r, e)

poll_time_wait-HasRings :
    (t : Tcp) (s : Sys) (now : ℕ) → HasRings t → HasRings (poll_time_wait t s now).0
unfolding poll_time_wait
poll_time_wait-HasRings t s now r = ground (arith, answer_fin-HasRings t s now r)

retransmit-HasRings : (t : Tcp) (s : Sys) (now : ℕ) → HasRings t → HasRings (retransmit t s now).0
unfolding retransmit
retransmit-HasRings t s now r =
    let t2 = record (back_off (tried t)) { sent_at = now; cwnd = t.peer_mss } in
    let w : HasRings t2 =
      timed-HasRings _ _ _ _ _ _ _ _ _ _ _
        (backed_off-HasRings (tried t) (timed-HasRings t _ _ _ _ _ _ _ _ _ _ r)) in
    let oldest = if ltb t2.peer_mss t2.inflight then t2.peer_mss else t2.inflight in
    let data_out = emit-HasRings t2 s (bit_or fl_ack fl_psh) t2.snd_una 0 oldest false w in
    let fin_again = emit-HasRings t2 s (bit_or fl_ack fl_fin) (sub32 t2.snd_nxt 1) 0 0 false w in
    ground (arith, r, data_out, fin_again)

went_out-HasRings : (t : Tcp) (n now : ℕ) → HasRings t → HasRings (went_out t n now)
went_out-HasRings t n now r = ground arith

send_from-HasRings :
    (f : ℕ) (t : Tcp) (s : Sys) (limit now why : ℕ)
    → HasRings t
    → HasRings (send_from f t s limit now why).0
unfolding send_from
send_from-HasRings zero t s limit now why r = r
send_from-HasRings (suc f) t s limit now why r =
    elim (Bool-cases (ltb t.inflight t.snd_len && ltb t.inflight limit)) [
      | inr n ↦ rw (n, send_from) r
      | inl y ↦
          let n = next_size t limit in
          let flags = bit_or fl_ack fl_psh in
          let w = emit-HasRings t s flags t.snd_nxt t.inflight n false r in
          elim (Bool-cases ((emit t s flags t.snd_nxt t.inflight n false).2 == send_ok)) [
            | inr m ↦ rw (y, send_from, m) w
            | inl m ↦
                rw (y, send_from, m)
                  (send_from-HasRings f _ _ limit now _ (went_out-HasRings _ n now w))
          ]
    ]

send_queued-HasRings : (t : Tcp) (s : Sys) (now : ℕ) → HasRings t → HasRings (send_queued t s now).0
unfolding send_queued
send_queued-HasRings t s now r =
    let w = send_from-HasRings t.snd_len t s (send_limit t) now send_ok r in ground (arith, w)

send_fin-HasRings : (t : Tcp) (s : Sys) (now : ℕ) → HasRings t → HasRings (send_fin t s now).0
unfolding send_fin
send_fin-HasRings t s now r =
    ground (arith, emit-HasRings t s (bit_or fl_ack fl_fin) t.snd_nxt 0 0 false r)

send_ack-HasRings : (t : Tcp) (s : Sys) → HasRings t → HasRings (send_ack t s).0
unfolding send_ack
send_ack-HasRings t s r = ground (arith, emit-HasRings t s fl_ack t.snd_nxt 0 0 false r)

poll_connected-HasRings :
    (t : Tcp) (s : Sys) (now : ℕ) → HasRings t → HasRings (poll_connected t s now).0
unfolding poll_connected
poll_connected-HasRings t s now r = ground (
  arith,
  r,
  retransmit-HasRings t s now r,
  send_queued-HasRings t s now r,
  send_fin-HasRings t s now r,
  send_ack-HasRings t s r,
)

pub poll_one-HasRings : (t : Tcp) (s : Sys) (now : ℕ) → HasRings t → HasRings (poll_one t s now).0
unfolding poll_one
poll_one-HasRings t s now r = ground (
  arith,
  r,
  poll_handshake-HasRings t s now r,
  poll_time_wait-HasRings t s now r,
  poll_connected-HasRings t s now r,
)
