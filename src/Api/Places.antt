-- ===== src/Api/Places.antt =====
-- Where `mn_api_init` of src/abi/api.c puts the buffers of the sockets.
use mega_net.Base.{
  ◌==◌, Bool-cases, u16, ℕ, zero, suc, ◌+◌, ◌*◌, ◌/◌, ◌^◌, ◌≤◌, ◌<◌, ◌≡◌, refl, sym, ◌∙◌, inl, inr,
  arith,
}
use mega_net.Api.Start.{zero_tcp, clear_bss, probe_pool, init_sockets, api_init}
use mega_net.Api.State.{abi_tcp_sockets, pool_bank5, Machine}
use mega_net.Net.Receive.{set_pool_from, net_set_pool}
use mega_net.Net.State.{udp_sockets, udp_sock_buf, Netif, UdpSock, Net}
use mega_net.Tcp.Calls.{initial, init_from, sockets_in, tcp_init}
use mega_net.Tcp.Direct.Calls.{rcv_ring}
use mega_net.Tcp.Inv.Sets.{init_from-before}
use mega_net.Tcp.Layout.{tcp_init-n}
use mega_net.Tcp.State.{tcp_rcvbuf, tcp_socket_xmem, Tcp, TcpSet, set_tcp, reset_counters}
use mathlib.Core.Path.{subst}

-- The mailbox of a UDP socket.
abbrev pub mailbox : UdpSock → ℕ
mailbox k = k.xseg * 2 ^ 16 + k.xoff

-- Where the rings of a socket begin, and that its send ring is behind the other.
abbrev IsAt : ℕ → Tcp → Type 0
IsAt a t = (rcv_ring t ≡ a) × (t.sndbuf ≡ t.rcvbuf + tcp_rcvbuf)

initial-IsAt :
    (t : Tcp) (i j : ℕ)
    → i < 8
    → j ≡ i
    → let rcv = u16 (pool_bank5 + i * tcp_socket_xmem) in
      IsAt
        (pool_bank5 + j * tcp_socket_xmem)
        (initial t i (u16 (pool_bank5 / 2 ^ 16)) rcv (u16 (rcv + tcp_rcvbuf)))
unfolding reset_counters
initial-IsAt t i j h e = ground arith

init_from-IsAt :
    (n i : ℕ) (set : TcpSet) (j : ℕ)
    → i ≤ j
    → j < i + n
    → i + n ≤ 8
    → IsAt (pool_bank5 + j * tcp_socket_xmem) ((init_from n i set pool_bank5).sock j)
unfolding init_from
init_from-IsAt zero i set j p q r = absurd (omega arith)
init_from-IsAt (suc n) i set j p q r =
    let rcv = u16 (pool_bank5 + i * tcp_socket_xmem) in
    let t = initial (set.sock i) i (u16 (pool_bank5 / 2 ^ 16)) rcv (u16 (rcv + tcp_rcvbuf)) in
    elim (Bool-cases (j == i)) [
      | inr e ↦
          init_from-IsAt n (i + 1) (set_tcp set i t) j (ground arith) (omega arith) (omega arith)
      | inl e ↦
          subst (IsAt (pool_bank5 + j * tcp_socket_xmem))
            (sym (init_from-before n (i + 1) (set_tcp set i t) pool_bank5 j (ground arith)))
            (rw e (initial-IsAt (set.sock i) i j (omega arith) (ground arith)))
    ]

mailbox-set_pool :
    (net : Net) (k : ℕ)
    → k < udp_sockets
    → mailbox ((net_set_pool net (pool_bank5 + 8 * tcp_socket_xmem)).sock k)
      ≡ pool_bank5 + 8 * tcp_socket_xmem + k * udp_sock_buf
unfolding net_set_pool set_pool_from
mailbox-set_pool net k h = ground arith

tcp_init-IsAt :
    (socks : ℕ → Tcp) (j : ℕ)
    → j < 8
    → IsAt (pool_bank5 + j * tcp_socket_xmem) ((tcp_init socks abi_tcp_sockets pool_bank5).0.sock j)
unfolding tcp_init sockets_in
tcp_init-IsAt socks j h =
    init_from-IsAt 8 0 (record { sock = socks; n = 8; rst_sent = 0; now = 0 }) j (omega arith)
      (omega arith) (omega arith)

tcp_init-count : (socks : ℕ → Tcp) → (tcp_init socks abi_tcp_sockets pool_bank5).0.n ≡ 8
unfolding tcp_init sockets_in
tcp_init-count socks = tcp_init-n socks abi_tcp_sockets pool_bank5 ∙ rooms
  where
    rooms : (tcp_init socks abi_tcp_sockets pool_bank5).1 ≡ 8
    rooms = refl

-- Every buffer of a machine that was just started is at its place.
pub record IsLaidOut (m : Machine) : Type 0 where
  pub count : m.tcpset.n ≡ 8
  pub ring : (i : ℕ) → i < 8 → rcv_ring (m.tcpset.sock i) ≡ pool_bank5 + i * tcp_socket_xmem
  pub behind : (i : ℕ) → i < 8 → (m.tcpset.sock i).sndbuf ≡ (m.tcpset.sock i).rcvbuf + tcp_rcvbuf
  pub box :
      (k : ℕ)
      → k < udp_sockets
      → mailbox (m.sys.net.sock k) ≡ pool_bank5 + 8 * tcp_socket_xmem + k * udp_sock_buf

pub api_init-IsLaidOut :
    (nif : Netif) (irqs f : ℕ) (m : Machine) → IsLaidOut (api_init nif irqs f m)
unfolding api_init init_sockets clear_bss probe_pool
api_init-IsLaidOut nif irqs f m = record {
  count = tcp_init-count (λ _. zero_tcp);
  ring = λ i h. (tcp_init-IsAt (λ _. zero_tcp) i h).0;
  behind = λ i h. (tcp_init-IsAt (λ _. zero_tcp) i h).1;
  box = λ k h. mailbox-set_pool _ k h;
}
