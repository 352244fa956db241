-- ===== src/Tcp/Reach.antt =====
-- The sockets of src/net/mn_tcp.c as a machine: every call that the program makes is a step.
use mega_net.Base.{Mem, IsBytes, ℕ, ◌<◌}
use mega_net.Net.State.{Sys}
use mega_net.Tcp.Calls.{
  tcp_init, tcp_connect, tcp_listen, tcp_send, tcp_send_x, tcp_recv, tcp_recv_x, tcp_close,
  tcp_abort,
}
use mega_net.Tcp.Dispatch.{tcp_input}
use mega_net.Tcp.Inv.{IsValid}
use mega_net.Tcp.Inv.Calls.{
  tcp_listen-IsValid, tcp_send-IsValid, tcp_recv-IsValid, tcp_close-IsValid, tcp_send_x-IsValid,
  tcp_recv_x-IsValid, tcp_connect-IsValid, tcp_abort-IsValid,
}
use mega_net.Tcp.Inv.Sets.{
  AllValid, set_tcp-AllValid, tcp_poll-AllValid, tcp_input-AllValid, HasWords, tcp_init-AllValid,
}
use mega_net.Tcp.Poll.{tcp_poll}
use mega_net.Tcp.State.{Tcp, TcpSet, set_tcp}

-- A call of the application, of the receive path or of the timers. The network and the memory
-- outside the sockets are what they are at the call.
pub data Step (set : TcpSet) : TcpSet → Type 0 where
  connects :
      (i : ℕ) (s : Sys) (ip : Mem) (port now : ℕ)
      → i < set.n
      → Step set (set_tcp set i (tcp_connect (set.sock i) s ip port now).0)
  listens : (i port : ℕ) → i < set.n → Step set (set_tcp set i (tcp_listen (set.sock i) port).0)
  sends :
      (i : ℕ) (pool src : Mem) (len : ℕ)
      → i < set.n
      → Step set (set_tcp set i (tcp_send (set.sock i) pool src len).0)
  sends_x :
      (i : ℕ) (pool : Mem) (src len : ℕ)
      → i < set.n
      → Step set (set_tcp set i (tcp_send_x (set.sock i) pool src len).0)
  receives :
      (i : ℕ) (pool out : Mem) (cap : ℕ)
      → i < set.n
      → Step set (set_tcp set i (tcp_recv (set.sock i) pool out cap).0)
  receives_x :
      (i : ℕ) (pool : Mem) (dst cap : ℕ)
      → i < set.n
      → Step set (set_tcp set i (tcp_recv_x (set.sock i) pool dst cap).0)
  closes : (i : ℕ) → i < set.n → Step set (set_tcp set i (tcp_close (set.sock i)))
  aborts : (i : ℕ) (s : Sys) → i < set.n → Step set (set_tcp set i (tcp_abort (set.sock i) s).0)
  arrives : (s : Sys) (ip : Mem) → IsBytes ip → Step set (tcp_input set s ip).0
  polls : (s : Sys) (now : ℕ) → Step set (tcp_poll set s now).0

-- The sets that `mn_tcp_init` and any number of steps lead to.
pub data Reachable : TcpSet → Type 0 where
  begins :
      (socks : ℕ → Tcp) (n base : ℕ)
      → ((k : ℕ) → HasWords (socks k))
      → Reachable (tcp_init socks n base).0
  goes : (set next : TcpSet) → Reachable set → Step set next → Reachable next

Step-AllValid : (set next : TcpSet) → AllValid set → Step set next → AllValid next
Step-AllValid set _ a (connects i s ip port now h) =
    set_tcp-AllValid set i _ a (tcp_connect-IsValid (set.sock i) s ip port now (a i h))
Step-AllValid set _ a (listens i port h) =
    set_tcp-AllValid set i _ a (tcp_listen-IsValid (set.sock i) port (a i h))
Step-AllValid set _ a (sends i pool src len h) =
    set_tcp-AllValid set i _ a (tcp_send-IsValid (set.sock i) pool src len (a i h))
Step-AllValid set _ a (sends_x i pool src len h) =
    set_tcp-AllValid set i _ a (tcp_send_x-IsValid (set.sock i) pool src len (a i h))
Step-AllValid set _ a (receives i pool out cap h) =
    set_tcp-AllValid set i _ a (tcp_recv-IsValid (set.sock i) pool out cap (a i h))
Step-AllValid set _ a (receives_x i pool dst cap h) =
    set_tcp-AllValid set i _ a (tcp_recv_x-IsValid (set.sock i) pool dst cap (a i h))
Step-AllValid set _ a (closes i h) =
    set_tcp-AllValid set i _ a (tcp_close-IsValid (set.sock i) (a i h))
Step-AllValid set _ a (aborts i s h) =
    set_tcp-AllValid set i _ a (tcp_abort-IsValid (set.sock i) s (a i h))
Step-AllValid set _ a (arrives s ip h) = tcp_input-AllValid set s ip h a
Step-AllValid set _ a (polls s now) = tcp_poll-AllValid set s now a

Reachable-AllValid : (set : TcpSet) → Reachable set → AllValid set
Reachable-AllValid _ (begins socks n base w) = tcp_init-AllValid socks n base w
Reachable-AllValid _ (goes set next r step) = Step-AllValid set next (Reachable-AllValid set r) step

-- In every set of sockets that initialisation and any sequence of connects, listens, sends,
-- receives, closes, aborts, arriving segments and polls lead to, each socket is valid: its rings
-- and windows are in bounds, its sequence numbers are words, nothing is queued or sent before a
-- connection is there, and what is unacknowledged is what is in flight and a FIN behind it. The
-- sockets given to initialisation hold words as sequence numbers, and packets hold bytes.
pub Reachable-IsValid : (set : TcpSet) (j : ℕ) → Reachable set → j < set.n → IsValid (set.sock j)
Reachable-IsValid set j r h = Reachable-AllValid set r j h
