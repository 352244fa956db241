-- ===== src/Tcp/Sending.antt =====
-- The sending loop of `poll_one` in src/net/mn_tcp.c: its end and the windows.
use mega_net.Base.{
  eq, ltb, ◌==◌, Bool-cases, ℕ, zero, suc, ◌+◌, ◌≤◌, ◌<◌, bit_or, ◌≡◌, refl, inl, inr, Bool, true,
  false, not, ◌&&◌, ◌||◌, arith,
}
use mega_net.Net.State.{send_ok, Sys}
use mega_net.Tcp.Emit.{emit}
use mega_net.Tcp.Emit.Laws.{emitted, emit-emitted}
use mega_net.Tcp.Inv.{is_connected, IsValid, emitted-IsValid}
use mega_net.Tcp.Inv.Poll.{went_out-IsValid}
use mega_net.Tcp.Poll.{send_limit, next_size, went_out, send_from, send_queued}
use mega_net.Tcp.State.{fl_psh, fl_ack, Tcp}

-- The loop ended by one of its tests, or by a segment that did not go out.
abbrev pub has_stopped : Tcp × Sys × ℕ → ℕ → Bool
has_stopped (t, s, r) limit =
    not (r == send_ok) || not (ltb t.inflight t.snd_len && ltb t.inflight limit)

went_out-grows :
    (t : Tcp) (limit now : ℕ)
    → t.inflight < t.snd_len
    → t.inflight < limit
    → limit ≤ t.cwnd
    → IsValid t
    → (t.inflight < (went_out t (next_size t limit) now).inflight)
      × ((went_out t (next_size t limit) now).inflight ≤ limit)
went_out-grows t limit now p q c v = ground arith

send_from-stops :
    (f : ℕ) (t : Tcp) (s : Sys) (limit now r : ℕ)
    → is_connected t.state ≡ true
    → t.snd_len ≤ t.inflight + f
    → limit ≤ t.cwnd
    → IsValid t
    → has_stopped (send_from f t s limit now r) limit ≡ true
unfolding send_from
send_from-stops zero t s limit now r c h l v = ground arith
send_from-stops (suc f) t s limit now r c h l v =
    elim (Bool-cases (ltb t.inflight t.snd_len && ltb t.inflight limit)) [
      | inr n ↦ rw (n, send_from) (ground arith)
      | inl y ↦
          let n = next_size t limit in
          let flags = bit_or fl_ack fl_psh in
          let (e, k, eq) = emit-emitted t s flags t.snd_nxt t.inflight n false in
          let w = emitted-IsValid t e k v in
          let out =
            went_out-IsValid (emitted t e k) limit now c (ground arith) (ground arith)
              (ground arith) w in
          let g = went_out-grows t limit now (ground arith) (ground arith) l v in
          elim (Bool-cases ((emit t s flags t.snd_nxt t.inflight n false).2 == send_ok)) [
            | inr m ↦ rw (y, send_from, m, m) refl
            | inl m ↦
                rw (y, send_from, m, eq)
                  (send_from-stops f (went_out (emitted t e k) n now) _ limit now _ c
                    (ground (arith, g)) l out)
          ]
    ]

send_from-inflight :
    (f : ℕ) (t : Tcp) (s : Sys) (limit now r : ℕ)
    → is_connected t.state ≡ true
    → limit ≤ t.cwnd
    → t.inflight ≤ limit
    → IsValid t
    → (send_from f t s limit now r).0.inflight ≤ limit
unfolding send_from
send_from-inflight zero t s limit now r c l h v = h
send_from-inflight (suc f) t s limit now r c l h v =
    elim (Bool-cases (ltb t.inflight t.snd_len && ltb t.inflight limit)) [
      | inr n ↦ rw (n, send_from) h
      | inl y ↦
          let n = next_size t limit in
          let flags = bit_or fl_ack fl_psh in
          let (e, k, eq) = emit-emitted t s flags t.snd_nxt t.inflight n false in
          let w = emitted-IsValid t e k v in
          let out =
            went_out-IsValid (emitted t e k) limit now c (ground arith) (ground arith)
              (ground arith) w in
          let g = went_out-grows t limit now (ground arith) (ground arith) l v in
          elim (Bool-cases ((emit t s flags t.snd_nxt t.inflight n false).2 == send_ok)) [
            | inr m ↦ rw (y, send_from, m, eq) h
            | inl m ↦
                rw (y, send_from, m, eq)
                  (send_from-inflight f (went_out (emitted t e k) n now) _ limit now _ c l g.1 out)
          ]
    ]

-- For a valid socket with a connection, the sending loop ends by one of its own tests within as
-- many rounds as there are bytes queued: the queue is sent, the window is full, or a segment did
-- not go out.
pub send_queued-stops :
    (t : Tcp) (s : Sys) (now : ℕ)
    → is_connected t.state ≡ true
    → IsValid t
    → has_stopped (send_from t.snd_len t s (send_limit t) now send_ok) (send_limit t) ≡ true
send_queued-stops t s now c v =
    send_from-stops t.snd_len t s (send_limit t) now send_ok c (omega arith) (ground arith) v

-- For a valid socket with a connection that has no more in flight than the smaller of the peer's
-- window and the congestion window, sending the queue leaves no more than that in flight.
pub send_queued-inflight :
    (t : Tcp) (s : Sys) (now : ℕ)
    → is_connected t.state ≡ true
    → t.inflight ≤ send_limit t
    → IsValid t
    → (send_queued t s now).0.inflight ≤ send_limit t
unfolding send_queued
send_queued-inflight t s now c h v =
    send_from-inflight t.snd_len t s (send_limit t) now send_ok c (ground arith) h v
