-- ===== src/Tcp/Order.antt =====
-- Segments in and out of order, in src/net/mn_tcp.c.
use mega_net.Base.{
  Mem, offset, ltb, ◌==◌, if◌then◌else◌, Bool-cases, u32, ℕ, ◌+◌, ◌-◌, ◌<◌, ◌≡◌, inl, inr, true,
  arith,
}
use mega_net.Tcp.Input.{ring_put, Segment, takes_data, data_input}
use mega_net.Tcp.Inv.{IsValid}
use mega_net.Tcp.Queue.{HasRings, received, ring_put-received}
use mega_net.Tcp.State.{Tcp, rcv_free}

-- The bytes of a segment that fit into the receive ring.
abbrev pub taken : Tcp → Segment → ℕ
taken t g = if ltb (rcv_free t) g.dlen then rcv_free t else g.dlen

-- For a valid socket whose state takes data and whose rings lie in one segment of memory: a
-- segment appends to the bytes that wait to be received as many of its bytes as the ring has room
-- for, in order, and the next expected sequence number advances by as many.
pub data_input-delivers :
    (t : Tcp) (pool : Mem) (g : Segment) (i : ℕ)
    → HasRings t
    → IsValid t
    → takes_data t.state ≡ true
    → i < (data_input t pool g).0.rcv_count
    → let (t', pool', fin) = data_input t pool g in
      (t'.rcv_count ≡ t.rcv_count + taken t g)
      × (t'.rcv_nxt ≡ u32 (t.rcv_nxt + taken t g))
      × (received t' pool' i
          ≡ (if ltb i t.rcv_count then received t pool i else g.bytes (g.hlen + (i - t.rcv_count))))
unfolding data_input ring_put rcv_free received
data_input-delivers t pool g i r v k = elim (Bool-cases (g.dlen == 0)) [
  | inl e ↦ rw (e, data_input) (λ h. (ground arith, ground arith, ground arith))
  | inr n ↦
      rw (n, k, data_input)
        (λ h. (
          ground arith,
          ground arith,
          ring_put-received t pool (offset g.bytes g.hlen) g.dlen i r v h,
        ))
]
