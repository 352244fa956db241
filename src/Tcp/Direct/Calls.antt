-- ===== src/Tcp/Direct/Calls.antt =====
-- `mn_tcp_send_x` and `mn_tcp_recv_x` of src/net/mn_tcp.c as the plain calls.
-- The send ring, and where the bytes that wait are.
use mega_net.Base.{
  Mem, offset, ltb, leb, if◌then◌else◌, ℕ, ◌+◌, ◌-◌, ◌*◌, ◌%◌, ◌^◌, ◌≤◌, ◌≡◌, refl, fun_ext, inl,
  inr, ◌&&◌, arith,
}
use mega_net.Tcp.Calls.{accepted, tcp_send, tcp_send_x, tcp_recv_x}
use mega_net.Tcp.Direct.{Apart, ring_write_x-ring_write, ring_read_x_lem}
use mega_net.Tcp.Inv.{IsValid}
use mega_net.Tcp.Queue.{HasRings, received}
use mega_net.Tcp.Ring.{ring_write, ring_write_x}
use mega_net.Tcp.State.{tcp_rcvbuf, tcp_sndbuf, Tcp}

abbrev pub snd_ring : Tcp → ℕ
snd_ring t = t.xseg * 2 ^ 16 + t.sndbuf

abbrev pub rcv_ring : Tcp → ℕ
rcv_ring t = t.xseg * 2 ^ 16 + t.rcvbuf

accepted-le :
    (t : Tcp) (len : ℕ) → IsValid t → (accepted t len ≤ len) × (accepted t len ≤ tcp_sndbuf)
unfolding accepted
accepted-le t len v = ground arith

-- A shorter region.
Apart-le : (a n m b : ℕ) → m ≤ n → Apart a n b tcp_sndbuf → Apart a m b tcp_sndbuf
Apart-le a n m b h (inl p) = inl (omega arith)
Apart-le a n m b h (inr p) = inr p

pub tcp_send_x-tcp_send :
    (t : Tcp) (pool : Mem) (src len : ℕ)
    → HasRings t
    → IsValid t
    → src + len ≤ 2 ^ 32
    → Apart src len (snd_ring t) tcp_sndbuf
    → tcp_send_x t pool src len ≡ tcp_send t pool (offset pool src) len
unfolding tcp_send_x tcp_send
tcp_send_x-tcp_send t pool src len r v w o =
    let n = accepted t len in
    let pos = (t.snd_head + t.snd_len) % tcp_sndbuf in
    let l : (n ≤ len) × (n ≤ tcp_sndbuf) = accepted-le t len v in
    let e : ring_write_x pool t.xseg t.sndbuf tcp_sndbuf pos src n
        ≡ ring_write pool t.xseg t.sndbuf tcp_sndbuf pos (offset pool src) n =
      fun_ext λ a.
        ring_write_x-ring_write t.xseg t.sndbuf tcp_sndbuf pos r.seg_word
          (omega (arith, r.behind, r.fits)) (omega arith) (omega arith) pool src n a l.1
          (omega (arith, l.0)) (Apart-le src len n (snd_ring t) l.0 o) in
    rw e refl

pub tcp_recv_x_lem :
    (t : Tcp) (pool : Mem) (dst cap a : ℕ)
    → HasRings t
    → IsValid t
    → dst + cap ≤ 2 ^ 32
    → Apart dst cap (rcv_ring t) tcp_rcvbuf
    → let r = tcp_recv_x t pool dst cap in
      r.1 a ≡ (if leb dst a && ltb a (dst + r.2) then received t pool (a - dst) else pool a)
unfolding tcp_recv_x received
tcp_recv_x_lem t pool dst cap a r v w o =
    let n = if ltb cap t.rcv_count then cap else t.rcv_count in
    ground (
      arith,
      ring_read_x_lem t.xseg t.rcvbuf tcp_rcvbuf t.rcv_head r.seg_word (omega (arith, r.fits))
          (omega arith) v.rcv_head_in pool dst n a (ground arith) (ground arith) (ground arith),
    )
