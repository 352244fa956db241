-- ===== src/Tcp/Inv/Calls.antt =====
-- The invariant across what an application asks of a socket of src/net/mn_tcp.c.
use mega_net.Base.{
  Mem, eq, Bool-cases, u16, u32, ℕ, ◌+◌, ◌*◌, ◌^◌, ◌<◌, bit_and, bit_or, inl, inr, Bool, true,
  false, arith,
}
use mega_net.Net.State.{Sys}
use mega_net.Tcp.Calls.{
  set_remote_ip, tcp_connect, tcp_listen, can_send, accepted, tcp_send, tcp_send_x, after_recv,
  tcp_recv, tcp_recv_x, tcp_close, dropped, tcp_abort,
}
use mega_net.Tcp.Emit.Laws.{emit-emitted}
use mega_net.Tcp.Inv.{IsValid, emitted-IsValid, initial_seq-word}
use mega_net.Tcp.State.{
  closed, syn_sent, is_state, fl_syn, fl_rst, fl_ack, Tcp, reset_counters, initial_seq,
}

pub tcp_listen-IsValid : (t : Tcp) (port : ℕ) → IsValid t → IsValid (tcp_listen t port).0
unfolding tcp_listen reset_counters
tcp_listen-IsValid t port v = ground arith

pub tcp_send-IsValid :
    (t : Tcp) (pool src : Mem) (len : ℕ) → IsValid t → IsValid (tcp_send t pool src len).0
unfolding tcp_send can_send accepted
tcp_send-IsValid t pool src len v = ground arith

pub tcp_recv-IsValid :
    (t : Tcp) (pool out : Mem) (cap : ℕ) → IsValid t → IsValid (tcp_recv t pool out cap).0
unfolding tcp_recv after_recv
tcp_recv-IsValid t pool out cap v = ground arith

pub tcp_close-IsValid : (t : Tcp) → IsValid t → IsValid (tcp_close t)
unfolding tcp_close
tcp_close-IsValid t v = ground arith

pub tcp_send_x-IsValid :
    (t : Tcp) (pool : Mem) (src len : ℕ) → IsValid t → IsValid (tcp_send_x t pool src len).0
unfolding tcp_send_x can_send accepted
tcp_send_x-IsValid t pool src len v = ground arith

pub tcp_recv_x-IsValid :
    (t : Tcp) (pool : Mem) (dst cap : ℕ) → IsValid t → IsValid (tcp_recv_x t pool dst cap).0
unfolding tcp_recv_x after_recv
tcp_recv_x-IsValid t pool dst cap v = ground arith

-- The socket that `tcp_connect` sends its SYN from.
abbrev pub dialled : Tcp → Mem → ℕ → ℕ → ℕ → ℕ → Tcp
dialled t ip port lport iss now =
    record (reset_counters (record t {
      remote_ip = set_remote_ip t ip;
      remote_port = port;
      local_port = lport;
      iss = iss;
      snd_una = iss;
      snd_nxt = u32 (iss + 1);
      rcv_nxt = 0;
    })) { state = syn_sent; sent_at = now }

dialled-IsValid :
    (t : Tcp) (ip : Mem) (port lport iss now : ℕ)
    → iss < 2 ^ 32
    → IsValid t
    → IsValid (dialled t ip port lport iss now)
unfolding reset_counters
dialled-IsValid t ip port lport iss now b v = ground arith

pending-IsValid : (t : Tcp) (p : Bool) → IsValid t → IsValid (record t { syn_pending = p })
pending-IsValid t p v = ground arith

pub tcp_connect-IsValid :
    (t : Tcp) (s : Sys) (ip : Mem) (port now : ℕ)
    → IsValid t
    → IsValid (tcp_connect t s ip port now).0
unfolding tcp_connect
tcp_connect-IsValid t s ip port now v = elim (Bool-cases (is_state t.state closed)) [
  | inl y ↦
      let iss = initial_seq s.nif.mac now t.index in
      let lport = u16 (49152 + bit_and (now * 3 + s.nif.mac 5 + t.index * 37) 0x0fff) in
      let t1 = dialled t ip port lport iss now in
      let (e, k, eq) = emit-emitted t1 s fl_syn iss 0 0 true in
      rw (y, eq)
        (pending-IsValid _ _ (
          emitted-IsValid t1 e k
            (dialled-IsValid t ip port lport iss now (initial_seq-word _ now t.index) v)))
  | inr n ↦ rw n v
]

dropped-IsValid : (t : Tcp) → IsValid t → IsValid (dropped t)
dropped-IsValid t v = ground arith

pub tcp_abort-IsValid : (t : Tcp) (s : Sys) → IsValid t → IsValid (tcp_abort t s).0
unfolding tcp_abort
tcp_abort-IsValid t s v =
    let (e, k, eq) = emit-emitted t s (bit_or fl_rst fl_ack) t.snd_nxt 0 0 false in
    rw eq (ground (arith, dropped-IsValid t v, dropped-IsValid _ (emitted-IsValid t e k v)))
