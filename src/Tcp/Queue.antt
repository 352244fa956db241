-- ===== src/Tcp/Queue.antt =====
-- The two rings of a socket of src/net/mn_tcp.c as queues of bytes.
use mega_net.Base.{
  Mem, offset, write_at, write_at-inside, ltb, if◌then◌else◌, ne→not-==, ℕ, ◌+◌, ◌-◌, ◌*◌, ◌%◌, ◌^◌,
  ◌≤◌, ◌<◌, ◌≡◌, ap, ◌∙◌, Bool, arith,
}
use mega_net.Tcp.Calls.{can_send, accepted, tcp_send, after_recv, tcp_recv}
use mega_net.Tcp.Emit.{header_size, whole_header, unsummed_segment, build_segment}
use mega_net.Tcp.Input.{ring_put}
use mega_net.Tcp.Inv.{IsValid}
use mega_net.Tcp.Ring.{ring_read}
use mega_net.Tcp.Ring.Laws.{wrap, cell, ring_read_lem, ring_write-cell}
use mega_net.Tcp.State.{tcp_rcvbuf, tcp_sndbuf, tcp_socket_xmem, Tcp, rcv_free}
use mega_net.Wire.Byteorder.{put16}

-- Where `mn_tcp_init` puts the rings: one behind the other, in one segment.
pub record HasRings (t : Tcp) : Type 0 where
  pub seg_word : t.xseg < 2 ^ 16
  pub behind : t.sndbuf ≡ t.rcvbuf + tcp_rcvbuf
  pub fits : t.rcvbuf + tcp_socket_xmem ≤ 2 ^ 16

-- The `i`-th byte that waits to be received.
unfoldable pub received : Tcp → Mem → ℕ → ℕ
received t pool i = pool (cell t.xseg t.rcvbuf tcp_rcvbuf t.rcv_head i)

-- The `i`-th byte that is not acknowledged or not sent yet.
unfoldable pub unsent : Tcp → Mem → ℕ → ℕ
unsent t pool i = pool (cell t.xseg t.sndbuf tcp_sndbuf t.snd_head i)

-- For a valid socket whose rings lie in one segment of memory, putting bytes into the receive
-- ring keeps the bytes that wait and appends the first of the given bytes behind them, up to the
-- new count.
pub ring_put-received :
    (t : Tcp) (pool src : Mem) (len i : ℕ)
    → HasRings t
    → IsValid t
    → i < (ring_put t pool src len).0.rcv_count
    → received (ring_put t pool src len).0 (ring_put t pool src len).1 i
      ≡ (if ltb i t.rcv_count then received t pool i else src (i - t.rcv_count))
unfolding ring_put received rcv_free
ring_put-received t pool src len i r v h =
    let n = if ltb (rcv_free t) len then rcv_free t else len in
    let k = if ltb i t.rcv_count then i + (tcp_rcvbuf - t.rcv_count) else i - t.rcv_count in
    ground (
      arith,
      ring_write-cell t.xseg t.rcvbuf tcp_rcvbuf ((t.rcv_head + t.rcv_count) % tcp_rcvbuf)
          r.seg_word (ground arith) (ground arith) (ground arith) pool src n k (ground arith)
          (ground arith),
    )

-- For a valid socket whose rings lie in one segment of memory, receiving copies the bytes that
-- wait, in order, as many as the result says, and leaves the rest of the buffer as it was.
pub tcp_recv-received :
    (t : Tcp) (pool out : Mem) (cap j : ℕ)
    → HasRings t
    → IsValid t
    → (tcp_recv t pool out cap).1 j
      ≡ (if ltb j (tcp_recv t pool out cap).2 then received t pool j else out j)
unfolding tcp_recv received
tcp_recv-received t pool out cap j r v =
    let n = if ltb cap t.rcv_count then cap else t.rcv_count in
    ground (
      arith,
      ring_read_lem t.xseg t.rcvbuf tcp_rcvbuf t.rcv_head r.seg_word (ground arith) (ground arith)
          v.rcv_head_in pool out n j (ground arith),
    )

-- For a valid socket, receiving takes the bytes that it returns off the front of the bytes that
-- wait: the counts add up, and each byte left is the one that many places behind.
pub tcp_recv-rest :
    (t : Tcp) (pool out : Mem) (cap i : ℕ)
    → IsValid t
    → i < (tcp_recv t pool out cap).0.rcv_count
    → (t.rcv_count ≡ (tcp_recv t pool out cap).2 + (tcp_recv t pool out cap).0.rcv_count)
      × (received (tcp_recv t pool out cap).0 pool i
          ≡ received t pool ((tcp_recv t pool out cap).2 + i))
unfolding tcp_recv received after_recv
tcp_recv-rest t pool out cap i v h = ground arith

-- For a valid socket whose rings lie in one segment of memory, sending keeps the bytes that are
-- queued and appends the first of the given bytes behind them, up to the new length of the queue.
pub tcp_send-unsent :
    (t : Tcp) (pool src : Mem) (len i : ℕ)
    → HasRings t
    → IsValid t
    → i < (tcp_send t pool src len).0.snd_len
    → unsent (tcp_send t pool src len).0 (tcp_send t pool src len).1 i
      ≡ (if ltb i t.snd_len then unsent t pool i else src (i - t.snd_len))
unfolding tcp_send unsent can_send accepted
tcp_send-unsent t pool src len i r v h =
    let n = accepted t len in
    let k = if ltb i t.snd_len then i + (tcp_sndbuf - t.snd_len) else i - t.snd_len in
    ground (
      arith,
      ring_write-cell t.xseg t.sndbuf tcp_sndbuf ((t.snd_head + t.snd_len) % tcp_sndbuf) r.seg_word
          (ground arith) (ground arith) (ground arith) pool src n k (ground arith) (ground arith),
    )

-- The checksum's place is in front of the data.
checksum-behind : (d : Mem) (v a : ℕ) → 18 ≤ a → write_at d 16 (λ m. put16 m v) a ≡ d a
unfolding put16
checksum-behind d v a h = ground (arith, ap d {x = 16 + (a - 16)} {y = a})

-- The data of a segment, read from the send ring behind a header.
ring-data :
    (t : Tcp) (pool h : Mem) (off len hlen j : ℕ)
    → HasRings t
    → IsValid t
    → off + len ≤ t.snd_len
    → j < len
    → write_at h hlen
        (λ m. ring_read pool m t.xseg t.sndbuf tcp_sndbuf ((t.snd_head + off) % tcp_sndbuf) len)
        (hlen + j)
      ≡ unsent t pool (off + j)
unfolding unsent
ring-data t pool h off len hlen j r v b k =
    let pos = (t.snd_head + off) % tcp_sndbuf in
    let read =
      ring_read_lem t.xseg t.sndbuf tcp_sndbuf pos r.seg_word (ground arith) (ground arith)
        (ground arith) pool (offset h hlen) len j (ground arith) in
    write_at-inside h hlen (λ x. ring_read pool x t.xseg t.sndbuf tcp_sndbuf pos len) j
    ∙ read
    ∙ ground (
      arith,
      ap (λ (c : ℕ). pool (t.xseg * 2 ^ 16 + t.sndbuf + c)) {x = wrap tcp_sndbuf (pos + j)}
          {y = wrap tcp_sndbuf (t.snd_head + (off + j))},
    )

-- For a valid socket whose rings lie in one segment of memory, the data of a built segment, with
-- an option or without, are the queued bytes from the given offset on.
pub build_segment-data :
    (t : Tcp) (pool our_ip seg : Mem) (flags seq off len : ℕ) (m : Bool) (j : ℕ)
    → HasRings t
    → IsValid t
    → off + len ≤ t.snd_len
    → j < len
    → build_segment t pool our_ip flags seq off len m seg (header_size m + j)
      ≡ unsent t pool (off + j)
unfolding build_segment unsummed_segment
build_segment-data t pool our_ip seg flags seq off len m j r v h k =
    let d = unsummed_segment t pool flags seq off len m seg in
    let payload : d (header_size m + j) ≡ unsent t pool (off + j) =
      rw (ne→not-== len 0 (omega arith))
        (ring-data t pool (whole_header t flags seq m seg) off len (header_size m) j r v h k) in
    checksum-behind d _ (header_size m + j) (past_header m) ∙ payload
  where
    past_header : (m : Bool) → 18 ≤ header_size m + j
    past_header m = ground arith
