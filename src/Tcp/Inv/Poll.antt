-- ===== src/Tcp/Inv/Poll.antt =====
-- The invariant of a socket across the timers and the sending loop of src/net/mn_tcp.c.
use mega_net.Base.{
  eq, ltb, ◌==◌, if◌then◌else◌, Bool-cases, sub32, ℕ, zero, suc, ◌<◌, bit_or, ◌≡◌, refl, sym, ap,
  inl, inr, Bool, true, false, not, ◌&&◌, ◌||◌, arith,
}
use mega_net.Net.State.{send_ok, send_pending, Sys}
use mega_net.Tcp.Emit.{emit}
use mega_net.Tcp.Emit.Laws.{emitted, emit-emitted}
use mega_net.Tcp.Inv.{is_connected, is_opening, IsValid, emitted-IsValid}
use mega_net.Tcp.Poll.{
  poll_in, elapsed, back_off, tried, send_syn, poll_handshake, answer_fin, poll_time_wait,
  retransmit, send_limit, next_size, went_out, send_from, send_queued, fin_out, send_fin, send_ack,
  poll_connected, poll_one,
}
use mega_net.Tcp.State.{
  TcpState, closed, syn_sent, established, fin_wait_1, fin_wait_2, close_wait, closing, last_ack,
  time_wait, listen, syn_rcvd, is_state, f_timeout, fl_fin, fl_syn, fl_psh, fl_ack, max_retries,
  Tcp,
}

send_syn-IsValid : (t : Tcp) (s : Sys) (now : ℕ) → IsValid t → IsValid (send_syn t s now).0
unfolding send_syn
send_syn-IsValid t s now v =
    let flags = if is_state t.state syn_sent then fl_syn else bit_or fl_syn fl_ack in
    let (e, k, eq) = emit-emitted (record t { sent_at = now }) s flags t.iss 0 0 true in
    rw eq (ground arith)

poll_handshake-IsValid :
    (t : Tcp) (s : Sys) (now : ℕ)
    → is_opening t.state ≡ true
    → IsValid t
    → IsValid (poll_handshake t s now).0
unfolding poll_handshake
poll_handshake-IsValid t s now o v =
    ground (arith, send_syn-IsValid t s now, send_syn-IsValid (back_off (tried t)) s now)

quiet-IsValid : (t : Tcp) → IsValid t → IsValid (record t { ack_pending = false })
quiet-IsValid t v = ground arith

lingering-IsValid : (t : Tcp) (n : ℕ) → IsValid t → IsValid (record t { timewait_at = n })
lingering-IsValid t n v = ground arith

shut-IsValid : (t : Tcp) → IsValid t → IsValid (record t { state = closed })
shut-IsValid t v = ground arith

chosen-IsValid :
    (b : Bool) (x y : Tcp × Sys)
    → (b ≡ true → IsValid x.0)
    → (b ≡ false → IsValid y.0)
    → IsValid (if◌then◌else◌ {A = Tcp × Sys} b x y).0
chosen-IsValid true x y v w = v refl
chosen-IsValid false x y v w = w refl

answer_fin-IsValid : (t : Tcp) (s : Sys) (now : ℕ) → IsValid t → IsValid (answer_fin t s now).0
unfolding answer_fin
answer_fin-IsValid t s now v =
    let (e, k, eq) = emit-emitted (record t { ack_pending = false }) s fl_ack t.snd_nxt 0 0 false in
    let w = lingering-IsValid _ now (emitted-IsValid _ e k (quiet-IsValid t v)) in
    chosen-IsValid t.ack_pending _ _ (λ _. rw eq w) (λ _. v)

poll_time_wait-IsValid :
    (t : Tcp) (s : Sys) (now : ℕ) → IsValid t → IsValid (poll_time_wait t s now).0
unfolding poll_time_wait
poll_time_wait-IsValid t s now v =
    let w = answer_fin-IsValid t s now v in ground (arith, w, shut-IsValid _ w)

given_up-IsValid :
    (t : Tcp)
    → IsValid t
    → IsValid (record (tried t) { flags = bit_or t.flags f_timeout; state = closed })
given_up-IsValid t v = ground arith

again-IsValid :
    (t : Tcp) (now : ℕ)
    → IsValid t
    → IsValid (record (back_off (tried t)) { sent_at = now; cwnd = t.peer_mss })
again-IsValid t now v = ground arith

retransmit-IsValid : (t : Tcp) (s : Sys) (now : ℕ) → IsValid t → IsValid (retransmit t s now).0
unfolding retransmit
retransmit-IsValid t s now v =
    let t2 = record (back_off (tried t)) { sent_at = now; cwnd = t.peer_mss } in
    let oldest = if ltb t2.peer_mss t2.inflight then t2.peer_mss else t2.inflight in
    let (e, k, eq) = emit-emitted t2 s (bit_or fl_ack fl_psh) t2.snd_una 0 oldest false in
    let (e', k', eq') = emit-emitted t2 s (bit_or fl_ack fl_fin) (sub32 t2.snd_nxt 1) 0 0 false in
    let w = again-IsValid t now v in
    elim (Bool-cases (ltb max_retries (tried t).retries)) [
      | inl y ↦ rw y (given_up-IsValid t v)
      | inr n ↦ elim (Bool-cases (t.inflight == 0)) [
        | inl z ↦ rw (n, z, eq') (emitted-IsValid t2 e' k' w)
        | inr z ↦ rw (n, z, eq) (emitted-IsValid t2 e k w)
      ]
    ]

pub went_out-IsValid :
    (t : Tcp) (limit now : ℕ)
    → is_connected t.state ≡ true
    → t.fin_sent ≡ false
    → t.inflight < t.snd_len
    → t.inflight < limit
    → IsValid t
    → IsValid (went_out t (next_size t limit) now)
went_out-IsValid t limit now c f p q v = ground arith

-- Our FIN is out.
fin_out-IsValid :
    (t : Tcp) (now : ℕ)
    → is_connected t.state ≡ true
    → t.fin_sent ≡ false
    → t.fin_queued ≡ true
    → t.snd_len ≡ 0
    → IsValid t
    → IsValid (fin_out t now)
fin_out-IsValid t now c f q l v = ground arith

send_fin-IsValid :
    (t : Tcp) (s : Sys) (now : ℕ)
    → is_connected t.state ≡ true
    → t.fin_sent ≡ false
    → t.fin_queued ≡ true
    → t.snd_len ≡ 0
    → IsValid t
    → IsValid (send_fin t s now).0
unfolding send_fin
send_fin-IsValid t s now c f q l v =
    let (e, k, eq) = emit-emitted t s (bit_or fl_ack fl_fin) t.snd_nxt 0 0 false in
    let w = emitted-IsValid t e k v in
    elim (Bool-cases ((emit t s (bit_or fl_ack fl_fin) t.snd_nxt 0 0 false).2 == send_ok)) [
      | inl y ↦ rw (y, eq) (fin_out-IsValid (emitted t e k) now c f q l w)
      | inr n ↦ rw (n, eq) w
    ]

send_ack-IsValid : (t : Tcp) (s : Sys) → IsValid t → IsValid (send_ack t s).0
unfolding send_ack
send_ack-IsValid t s v =
    let (e, k, eq) = emit-emitted t s fl_ack t.snd_nxt 0 0 false in
    let w = emitted-IsValid t e k v in
    elim (Bool-cases ((emit t s fl_ack t.snd_nxt 0 0 false).2 == send_pending)) [
      | inl y ↦ rw (y, eq) w
      | inr n ↦ rw (n, eq) (quiet-IsValid (emitted t e k) w)
    ]

send_from-IsValid :
    (f : ℕ) (t : Tcp) (s : Sys) (limit now r : ℕ)
    → is_connected t.state ≡ true
    → IsValid t
    → IsValid (send_from f t s limit now r).0
unfolding send_from
send_from-IsValid zero t s limit now r c v = v
send_from-IsValid (suc f) t s limit now r c v =
    elim (Bool-cases (ltb t.inflight t.snd_len && ltb t.inflight limit)) [
      | inr n ↦ rw (n, send_from) v
      | inl y ↦
          let n = next_size t limit in
          let flags = bit_or fl_ack fl_psh in
          let (e, k, eq) = emit-emitted t s flags t.snd_nxt t.inflight n false in
          let w = emitted-IsValid t e k v in
          let out =
            went_out-IsValid (emitted t e k) limit now c (ground arith) (ground arith)
              (ground arith) w in
          elim (Bool-cases ((emit t s flags t.snd_nxt t.inflight n false).2 == send_ok)) [
            | inr m ↦ rw (y, send_from, m, eq) w
            | inl m ↦ rw (y, send_from, m, eq) (send_from-IsValid f _ _ limit now _ c out)
          ]
    ]

tx-IsValid : (t : Tcp) (b : Bool) → IsValid t → IsValid (record t { tx_pending = b })
tx-IsValid t b v = ground arith

send_queued-IsValid :
    (t : Tcp) (s : Sys) (now : ℕ)
    → is_connected t.state ≡ true
    → IsValid t
    → IsValid (send_queued t s now).0
unfolding send_queued
send_queued-IsValid t s now c v =
    tx-IsValid _ _ (send_from-IsValid t.snd_len t s (send_limit t) now send_ok c v)

poll_connected-IsValid :
    (t : Tcp) (s : Sys) (now : ℕ)
    → is_connected t.state ≡ true
    → IsValid t
    → IsValid (poll_connected t s now).0
unfolding poll_connected
poll_connected-IsValid t s now c v =
    let quiet = (not (t.inflight == 0) || t.fin_sent) && elapsed t now in
    let asks = t.fin_queued && not t.fin_sent && t.inflight == 0 && t.snd_len == 0 in
    let fin = λ (a : asks ≡ true).
      send_fin-IsValid t s now c (ground arith) (ground arith) (ground arith) v in
    let ack = if t.ack_pending then send_ack t s else (t, s) in
    let ack-valid : IsValid ack.0 =
      chosen-IsValid t.ack_pending (send_ack t s) (t, s) (λ _. send_ack-IsValid t s v) (λ _. v) in
    let closing_part = if asks then send_fin t s now else ack in
    let closing-valid : IsValid closing_part.0 =
      chosen-IsValid asks (send_fin t s now) ack fin (λ _. ack-valid) in
    let sends = t.tx_pending && ltb t.inflight t.snd_len in
    let sending = if sends then send_queued t s now else closing_part in
    let sending-valid : IsValid sending.0 =
      chosen-IsValid sends (send_queued t s now) closing_part (λ _. send_queued-IsValid t s now c v)
        (λ _. closing-valid) in
    chosen-IsValid quiet (retransmit t s now) sending (λ _. retransmit-IsValid t s now v)
      (λ _. sending-valid)

-- A poll keeps a socket valid in every state: retransmissions, time-outs, queued data, the FIN
-- and acknowledgements, whether or not they go out.
pub poll_one-IsValid : (t : Tcp) (s : Sys) (now : ℕ) → IsValid t → IsValid (poll_one t s now).0
unfolding poll_one
poll_one-IsValid t s now v = by_state t.state refl
  where
    by_state : (st : TcpState) → st ≡ t.state → IsValid (poll_in st t s now).0
    by_state closed e = v
    by_state listen e = v
    by_state syn_sent e = poll_handshake-IsValid t s now (ap is_opening (sym e)) v
    by_state syn_rcvd e = poll_handshake-IsValid t s now (ap is_opening (sym e)) v
    by_state time_wait e = poll_time_wait-IsValid t s now v
    by_state established e = poll_connected-IsValid t s now (ap is_connected (sym e)) v
    by_state fin_wait_1 e = poll_connected-IsValid t s now (ap is_connected (sym e)) v
    by_state fin_wait_2 e = poll_connected-IsValid t s now (ap is_connected (sym e)) v
    by_state close_wait e = poll_connected-IsValid t s now (ap is_connected (sym e)) v
    by_state closing e = poll_connected-IsValid t s now (ap is_connected (sym e)) v
    by_state last_ack e = poll_connected-IsValid t s now (ap is_connected (sym e)) v
