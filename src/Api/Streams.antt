-- ===== src/Api/Streams.antt =====
-- What src/abi/api.c moves between a TCP socket and its caller's memory.
use mega_net.Base.{
  Mem, offset, ltb, ◌==◌, if◌then◌else◌, lt→ltb, u8, ℕ, ◌+◌, ◌-◌, ◌*◌, ◌/◌, ◌^◌, ◌≤◌, ◌<◌, ◌≡◌,
  refl, ap, ◌∙◌, true, arith,
}
use mega_net.Api.Blocks.{dma_copy_out_lem}
use mega_net.Api.Sockets.{at_z, put_z, send_z, api_tcp_send, recv_z, api_tcp_recv}
use mega_net.Api.State.{
  Machine, arg_ptr, blk_ptr, get16_le, put16_le, fetch_blk, put_out, give_blk, buffer_at,
  buffer_len,
}
use mega_net.Tcp.Calls.{accepted, tcp_send_x, tcp_recv_x}
use mega_net.Tcp.Direct.{Apart}
use mega_net.Tcp.Direct.Calls.{snd_ring, rcv_ring, tcp_send_x-tcp_send, tcp_recv_x_lem}
use mega_net.Tcp.Inv.{IsValid}
use mega_net.Tcp.Queue.{HasRings, received, unsent, tcp_send-unsent}
use mega_net.Tcp.State.{tcp_rcvbuf, tcp_sndbuf, Tcp}
use mega_net.Xmem.{dma_copy_out}
use mathlib.Core.Path.{subst}

-- Socket Z after one is put there.
at_z-put_z : (m : Machine) (t : Tcp) → at_z (put_z m t) ≡ t
at_z-put_z m t = rw (same m.z) refl
  where
    same : (n : ℕ) → (n == n) ≡ true
    same n = ground arith

-- What a send with the block fetched leaves: the socket, the memory and the count.
send_z_lem :
    (m : Machine)
    → let r = tcp_send_x (at_z m) m.sys.pool (blk_ptr m) (get16_le m.blk 3) in
      (at_z (send_z m) ≡ r.0)
      × ((send_z m).sys.pool ≡ r.1)
      × ((send_z m).ra ≡ u8 r.2)
      × ((send_z m).rx ≡ u8 (r.2 / 2 ^ 8))
unfolding send_z
send_z_lem m = (at_z-put_z m _, refl, refl, refl)

-- What is claimed of a send of `len` bytes from `src`, where `s` is the machine after it.
abbrev pub Appends : Machine → ℕ → ℕ → Machine → Type 0
Appends m src i s = unsent (at_z s) s.sys.pool i ≡ (
    if ltb i (at_z m).snd_len
    then unsent (at_z m) m.sys.pool i
    else m.sys.pool (src + (i - (at_z m).snd_len)))

send_z-Appends :
    (m : Machine) (i : ℕ)
    → IsValid (at_z m) × HasRings (at_z m)
    → blk_ptr m + get16_le m.blk 3 ≤ 2 ^ 32
    → Apart (blk_ptr m) (get16_le m.blk 3) (snd_ring (at_z m)) tcp_sndbuf
    → i < (at_z (send_z m)).snd_len
    → Appends m (blk_ptr m) i (send_z m)
send_z-Appends m i v w o h =
    let l = send_z_lem m in
    let src : Mem = offset m.sys.pool (blk_ptr m) in
    let e = tcp_send_x-tcp_send (at_z m) m.sys.pool (blk_ptr m) (get16_le m.blk 3) v.1 v.0 w o in
    rw (l.0, l.1, e)
      (tcp_send-unsent (at_z m) m.sys.pool src (get16_le m.blk 3) i v.1 v.0
        (subst (λ (t : Tcp). i < t.snd_len) (l.0 ∙ ap (λ (r : Tcp × Mem × ℕ). r.0) e) h))

-- The registers tell how many bytes were taken.
tcp_send_x-count :
    (t : Tcp) (pool : Mem) (src len : ℕ)
    → IsValid t
    → let r = tcp_send_x t pool src len in (r.0.snd_len ≡ t.snd_len + r.2) × (r.2 ≤ tcp_sndbuf)
unfolding tcp_send_x accepted
tcp_send_x-count t pool src len v = ground arith

abbrev pub Counts : Machine → Machine → Type 0
Counts m s = (at_z s).snd_len ≡ (at_z m).snd_len + (s.ra + s.rx * 2 ^ 8)

send_z-Counts : (m : Machine) → IsValid (at_z m) → Counts m (send_z m)
send_z-Counts m v =
    let l = send_z_lem m in
    let c = tcp_send_x-count (at_z m) m.sys.pool (blk_ptr m) (get16_le m.blk 3) v in
    ap (λ (t : Tcp). t.snd_len) l.0 ∙ c.0 ∙ omega (arith, l.2, l.3, c.1)

-- TCP_SEND on a valid socket that Z names and whose rings lie in one segment, with the caller's
-- buffer in 32-bit memory and apart from the send ring: the length of the send queue grows by the
-- number in A and X, the bytes that were queued stay, and those behind them are the first of the
-- caller's buffer.
pub api_tcp_send-Appends :
    (m : Machine) (i : ℕ)
    → IsValid (at_z m)
    → HasRings (at_z m)
    → m.z < m.tcpset.n
    → buffer_at m + buffer_len m ≤ 2 ^ 32
    → Apart (buffer_at m) (buffer_len m) (snd_ring (at_z m)) tcp_sndbuf
    → i < (at_z (api_tcp_send m)).snd_len
    → Counts m (api_tcp_send m) × Appends m (buffer_at m) i (api_tcp_send m)
unfolding api_tcp_send fetch_blk
api_tcp_send-Appends m i iv hr z w o h =
    let e : api_tcp_send m ≡ send_z (fetch_blk m 5) = rw (lt→ltb m.z m.tcpset.n z) refl in
    let v : IsValid (at_z m) × HasRings (at_z m) = (iv, hr) in
    let h' = subst (λ (s : Machine). i < (at_z s).snd_len) e h in
    rw e (send_z-Counts (fetch_blk m 5) v.0, send_z-Appends (fetch_blk m 5) i v w o h')

-- What a receive with the block fetched leaves: the memory, with the length in the block.
recv_z_lem :
    (m : Machine) (a : ℕ)
    → let r = tcp_recv_x (at_z m) m.sys.pool (blk_ptr m) (get16_le m.blk 3) in
      (recv_z m).sys.pool a ≡ dma_copy_out r.1 (arg_ptr m + 5) (offset (put16_le m.blk 5 r.2) 5) 2 a
unfolding recv_z give_blk put_out arg_ptr
recv_z_lem m a = refl

tcp_recv_x-count :
    (t : Tcp) (pool : Mem) (dst cap : ℕ)
    → (tcp_recv_x t pool dst cap).2 ≡ (if ltb cap t.rcv_count then cap else t.rcv_count)
unfolding tcp_recv_x
tcp_recv_x-count t pool dst cap = refl

-- How many bytes a receive takes.
abbrev pub taken : ℕ → Tcp → ℕ
taken cap t = if ltb cap t.rcv_count then cap else t.rcv_count

recv_z-byte :
    (m : Machine) (j : ℕ)
    → IsValid (at_z m) × HasRings (at_z m)
    → blk_ptr m + get16_le m.blk 3 ≤ 2 ^ 32
    → Apart (blk_ptr m) (get16_le m.blk 3) (rcv_ring (at_z m)) tcp_rcvbuf
    → Apart (blk_ptr m) (get16_le m.blk 3) (arg_ptr m + 5) 2
    → j < taken (get16_le m.blk 3) (at_z m)
    → (recv_z m).sys.pool (blk_ptr m + j) ≡ received (at_z m) m.sys.pool j
recv_z-byte m j v w o p h =
    let cap = get16_le m.blk 3 in
    let dst = blk_ptr m in
    let r = tcp_recv_x (at_z m) m.sys.pool dst cap in
    let b = offset (put16_le m.blk 5 r.2) 5 in
    ground (
      arith,
      recv_z_lem m (dst + j),
      dma_copy_out_lem r.1 b (arg_ptr m + 5) 2 (dst + j),
      tcp_recv_x_lem (at_z m) m.sys.pool dst cap (dst + j) v.1 v.0 w o,
      tcp_recv_x-count (at_z m) m.sys.pool dst cap,
    )

recv_z-count :
    (m : Machine)
    → let n = taken (get16_le m.blk 3) (at_z m) in
      ((recv_z m).sys.pool (arg_ptr m + 5) ≡ u8 n)
      × ((recv_z m).sys.pool (arg_ptr m + 6) ≡ u8 (n / 2 ^ 8))
unfolding put16_le
recv_z-count m =
    let cap = get16_le m.blk 3 in
    let r = tcp_recv_x (at_z m) m.sys.pool (blk_ptr m) cap in
    let b = offset (put16_le m.blk 5 r.2) 5 in
    let n = tcp_recv_x-count (at_z m) m.sys.pool (blk_ptr m) cap in
    (
      ground (
        arith,
        recv_z_lem m (arg_ptr m + 5),
        dma_copy_out_lem r.1 b (arg_ptr m + 5) 2 (arg_ptr m + 5),
        n,
      ),
      ground (
        arith,
        recv_z_lem m (arg_ptr m + 6),
        dma_copy_out_lem r.1 b (arg_ptr m + 5) 2 (arg_ptr m + 6),
        n,
      ),
    )

-- What is claimed of a receive: the bytes that waited are in the caller's memory, and their number in
-- the block.
abbrev pub Fills : Machine → ℕ → Machine → Type 0
Fills m j s =
    let n = taken (buffer_len m) (at_z m) in
    (s.sys.pool (buffer_at m + j) ≡ received (at_z m) m.sys.pool j)
    × (s.sys.pool (arg_ptr m + 5) ≡ u8 n)
    × (s.sys.pool (arg_ptr m + 6) ≡ u8 (n / 2 ^ 8))

-- TCP_RECV on a valid socket that Z names and whose rings lie in one segment, with the caller's
-- buffer in 32-bit memory and apart from the receive ring and from the length field of the block:
-- the bytes that waited are in the buffer in order, as many as the capacity and the ring allow,
-- and the length field holds the two bytes of their number.
pub api_tcp_recv-Fills :
    (m : Machine) (j : ℕ)
    → IsValid (at_z m)
    → HasRings (at_z m)
    → m.z < m.tcpset.n
    → buffer_at m + buffer_len m ≤ 2 ^ 32
    → Apart (buffer_at m) (buffer_len m) (rcv_ring (at_z m)) tcp_rcvbuf
    → Apart (buffer_at m) (buffer_len m) (arg_ptr m + 5) 2
    → j < taken (buffer_len m) (at_z m)
    → Fills m j (api_tcp_recv m)
unfolding api_tcp_recv fetch_blk arg_ptr
api_tcp_recv-Fills m j iv hr z w o p h =
    let v : IsValid (at_z m) × HasRings (at_z m) = (iv, hr) in
    let e : api_tcp_recv m ≡ recv_z (fetch_blk m 5) = rw (lt→ltb m.z m.tcpset.n z) refl in
    let c = recv_z-count (fetch_blk m 5) in rw e (recv_z-byte (fetch_blk m 5) j v w o p h, c.0, c.1)

-- What a send leaves of the registers: Z, and bytes in A and X.
pub api_tcp_send-registers :
    (m : Machine)
    → ((api_tcp_send m).z ≡ m.z) × ((api_tcp_send m).ra < 256) × ((api_tcp_send m).rx < 256)
unfolding api_tcp_send send_z fetch_blk
api_tcp_send-registers m = ground arith

-- A send takes no more than it was given, and leaves the ring where it is.
tcp_send_x-le :
    (t : Tcp) (pool : Mem) (src len : ℕ)
    → IsValid t
    → let r = tcp_send_x t pool src len in
      (r.0.snd_len ≤ t.snd_len + len) × (snd_ring r.0 ≡ snd_ring t)
unfolding tcp_send_x accepted
tcp_send_x-le t pool src len v = ground arith

pub api_tcp_send-le :
    (m : Machine)
    → IsValid (at_z m)
    → m.z < m.tcpset.n
    → let u = at_z (api_tcp_send m) in
      (u.snd_len ≤ (at_z m).snd_len + buffer_len m) × (snd_ring u ≡ snd_ring (at_z m))
unfolding api_tcp_send fetch_blk
api_tcp_send-le m v z =
    let q : Machine = fetch_blk m 5 in
    let e : api_tcp_send m ≡ send_z q = rw (lt→ltb m.z m.tcpset.n z) refl in
    rw (e, (send_z_lem q).0) (tcp_send_x-le (at_z m) m.sys.pool (blk_ptr q) (get16_le q.blk 3) v)
