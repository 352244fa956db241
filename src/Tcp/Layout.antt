-- ===== src/Tcp/Layout.antt =====
-- Where `mn_tcp_init` of src/net/mn_tcp.c puts the rings.
pub mod Calls
pub mod Poll
pub mod Sets
use mega_net.Base.{
  bit_and-65535, ◌==◌, Bool-cases, u16, ℕ, zero, suc, ◌+◌, ◌*◌, ◌/◌, ◌%◌, ◌^◌, ◌≤◌, ◌<◌, ◌≡◌, sym,
  inl, inr, arith,
}
use mega_net.Tcp.Calls.{initial, init_from, sockets_in, tcp_init}
use mega_net.Tcp.Inv.Sets.{init_from-before, init_from-n}
use mega_net.Tcp.Queue.{HasRings}
use mega_net.Tcp.State.{tcp_rcvbuf, tcp_socket_xmem, Tcp, TcpSet, set_tcp, reset_counters}
use mathlib.Core.Path.{subst}

sockets_in-fit : (n base : ℕ) → base % 2 ^ 16 + sockets_in n base * tcp_socket_xmem ≤ 2 ^ 16
unfolding sockets_in
sockets_in-fit n base = ground (arith, bit_and-65535 base)

initial-HasRings :
    (t : Tcp) (i base : ℕ)
    → base % 2 ^ 16 + (i + 1) * tcp_socket_xmem ≤ 2 ^ 16
    → let rcv = u16 (base + i * tcp_socket_xmem) in
      HasRings (initial t i (u16 (base / 2 ^ 16)) rcv (u16 (rcv + tcp_rcvbuf)))
unfolding reset_counters
initial-HasRings t i base h = ground arith

init_from-HasRings :
    (n i : ℕ) (set : TcpSet) (base j : ℕ)
    → base % 2 ^ 16 + (i + n) * tcp_socket_xmem ≤ 2 ^ 16
    → i ≤ j
    → j < i + n
    → HasRings ((init_from n i set base).sock j)
unfolding init_from
init_from-HasRings zero i set base j b p q = absurd (omega arith)
init_from-HasRings (suc n) i set base j b p q =
    let rcv = u16 (base + i * tcp_socket_xmem) in
    let t = initial (set.sock i) i (u16 (base / 2 ^ 16)) rcv (u16 (rcv + tcp_rcvbuf)) in
    elim (Bool-cases (j == i)) [
      | inr e ↦
          init_from-HasRings n (i + 1) (set_tcp set i t) base j (omega arith) (ground arith)
            (ground arith)
      | inl e ↦
          subst HasRings (sym (init_from-before n (i + 1) (set_tcp set i t) base j (ground arith)))
            (rw e (initial-HasRings (set.sock i) i base (omega arith)))
    ]

-- Initialisation puts the two rings of each socket that it accepts one behind the other into one
-- 64 KB segment of bulk memory, for every base address and number of sockets.
pub tcp_init-HasRings :
    (socks : ℕ → Tcp) (n base j : ℕ)
    → j < (tcp_init socks n base).1
    → HasRings ((tcp_init socks n base).0.sock j)
unfolding tcp_init
tcp_init-HasRings socks n base j h =
    let set : TcpSet = record { sock = socks; n = sockets_in n base; rst_sent = 0; now = 0 } in
    init_from-HasRings (sockets_in n base) 0 set base j (omega (arith, sockets_in-fit n base))
      (omega arith) (omega arith)

pub tcp_init-n :
    (socks : ℕ → Tcp) (n base : ℕ) → (tcp_init socks n base).0.n ≡ (tcp_init socks n base).1
unfolding tcp_init
tcp_init-n socks n base = init_from-n (sockets_in n base) 0 _ base
