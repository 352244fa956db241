-- ===== src/Tcp/Inv/Input.antt =====
-- The invariant across what arrives for a socket of src/net/mn_tcp.c.
use mega_net.Base.{
  Mem, offset, eq, ◌==◌, Bool-cases, u16, u32, ℕ, ◌+◌, ◌^◌, ◌<◌, bit_or, ◌≡◌, refl, ap, ◌∙◌, inl,
  inr, Bool, true, not, ◌||◌, arith,
}
use mega_net.Net.State.{Sys}
use mega_net.Tcp.Calls.{set_remote_ip}
use mega_net.Tcp.Emit.Laws.{emit-emitted}
use mega_net.Tcp.Input.{
  ring_put, acked_bytes, handle_ack, take_mss, passive_open, Segment, rst_input, establish,
  syn_sent_input, data_input, fin_input, our_fin, connected_input, syn_rcvd_input, segment_input,
}
use mega_net.Tcp.Inv.{is_connected, IsValid, emitted-IsValid, initial_seq-word}
use mega_net.Tcp.State.{
  TcpState, closed, syn_sent, listen, syn_rcvd, is_state, fl_syn, fl_rst, fl_ack, has, Tcp, TcpSet,
  rcv_free, reset_counters, initial_seq,
}
use mega_net.Wire.Byteorder.{get16}
use mega_net.Wire.Ipv4.{ipv4_src}

pub handle_ack-IsValid :
    (t : Tcp) (ack now : ℕ) → ack < 2 ^ 32 → IsValid t → IsValid (handle_ack t ack now)
unfolding handle_ack acked_bytes
handle_ack-IsValid t ack now b v = ground arith

handle_ack-state : (t : Tcp) (ack now : ℕ) → (handle_ack t ack now).state ≡ t.state
unfolding handle_ack
handle_ack-state t ack now = ground arith

take_mss-IsValid :
    (t : Tcp) (seg : Mem) (hlen : ℕ) → t.cwnd ≡ 0 → IsValid t → IsValid (take_mss t seg hlen)
unfolding take_mss
take_mss-IsValid t seg hlen z v = ground arith

rst_input-IsValid : (t : Tcp) (g : Segment) → IsValid t → IsValid (rst_input t g)
unfolding rst_input
rst_input-IsValid t g v = ground arith

syn_sent_input-IsValid :
    (t : Tcp) (g : Segment)
    → g.ack < 2 ^ 32
    → t.state ≡ syn_sent
    → IsValid t
    → IsValid (syn_sent_input t g)
unfolding syn_sent_input take_mss
syn_sent_input-IsValid t g b e v = ground arith

data_input-IsValid :
    (t : Tcp) (pool : Mem) (g : Segment) → IsValid t → IsValid (data_input t pool g).0
unfolding data_input ring_put rcv_free
data_input-IsValid t pool g v = ground arith

fin_input-IsValid :
    (t : Tcp) (fin : Bool) → is_connected t.state ≡ true → IsValid t → IsValid (fin_input t fin)
unfolding fin_input
fin_input-IsValid t fin c v = ground arith

our_fin-IsValid : (t : Tcp) → is_connected t.state ≡ true → IsValid t → IsValid (our_fin t)
unfolding our_fin
our_fin-IsValid t c v = ground arith

data_input-state : (t : Tcp) (pool : Mem) (g : Segment) → (data_input t pool g).0.state ≡ t.state
unfolding data_input ring_put
data_input-state t pool g = ground arith

fin_input-is_connected :
    (t : Tcp) (fin : Bool)
    → is_connected t.state ≡ true
    → is_connected (fin_input t fin).state ≡ true
unfolding fin_input
fin_input-is_connected t fin c = ground arith

window-IsValid : (t : Tcp) (w : ℕ) → IsValid t → IsValid (record t { snd_wnd = w })
window-IsValid t w v = ground arith

out_of_order-IsValid :
    (t : Tcp) (n : ℕ) → IsValid t → IsValid (record t { stat_ooo = n; ack_pending = true })
out_of_order-IsValid t n v = ground arith

in_order-IsValid :
    (t : Tcp) (pool : Mem) (g : Segment)
    → is_connected t.state ≡ true
    → IsValid t
    → IsValid (our_fin (fin_input (data_input t pool g).0 (data_input t pool g).2))
in_order-IsValid t pool g c v =
    let t2 = (data_input t pool g).0 in
    let fin = (data_input t pool g).2 in
    let c2 : is_connected t2.state ≡ true = ap is_connected (data_input-state t pool g) ∙ c in
    our_fin-IsValid (fin_input t2 fin) (fin_input-is_connected t2 fin c2)
      (fin_input-IsValid t2 fin c2 (data_input-IsValid t pool g v))

pub connected_input-IsValid :
    (t : Tcp) (pool : Mem) (g : Segment) (now : ℕ)
    → g.ack < 2 ^ 32
    → is_connected t.state ≡ true
    → IsValid t
    → IsValid (connected_input t pool g now).0
unfolding connected_input
connected_input-IsValid t pool g now b c v = elim (Bool-cases (has g.flags fl_ack)) [
  | inr n ↦ rw n v
  | inl y ↦ elim (Bool-cases (g.seq == t.rcv_nxt)) [
    | inl q ↦
        let t1 = handle_ack t g.ack now in
        let w = get16 (offset g.bytes 14) in
        let c1 : is_connected t1.state ≡ true =
          ap is_connected (handle_ack-state t g.ack now) ∙ c in
        rw (y, q)
          (in_order-IsValid (record t1 { snd_wnd = w }) pool g c1
            (window-IsValid t1 w (handle_ack-IsValid t g.ack now b v)))
    | inr q ↦
        let kept = handle_ack-IsValid t g.ack now b v in
        let counted =
          handle_ack-IsValid _ g.ack now b (out_of_order-IsValid t (u16 (t.stat_ooo + 1)) v) in
        rw (y, q) (ground (arith, kept, counted))
  ]
]

counted-IsValid : (t : Tcp) (n : ℕ) → IsValid t → IsValid (record t { stat_rx_seg = n })
counted-IsValid t n v = ground arith

establish-IsValid :
    (t : Tcp) (ack : ℕ)
    → ack ≡ t.snd_nxt
    → t.state ≡ syn_rcvd
    → IsValid t
    → IsValid (establish (record t { snd_una = ack }))
establish-IsValid t ack a e v = ground arith

-- Whether the dispatcher may hand a socket in this state a segment.
abbrev pub is_open : TcpState → Bool
is_open st = not (is_state st closed || is_state st listen)

-- A handshake that the segment completes, or leaves.
syn_rcvd_input-IsValid :
    (t : Tcp) (pool : Mem) (g : Segment) (now : ℕ)
    → g.ack < 2 ^ 32
    → t.state ≡ syn_rcvd
    → IsValid t
    → IsValid (syn_rcvd_input t pool g now).0
unfolding syn_rcvd_input
syn_rcvd_input-IsValid t pool g now b e v = elim (Bool-cases (has g.flags fl_syn)) [
  | inl y ↦ rw y (ground arith)
  | inr n ↦
      elim (Bool-cases
        (not (has g.flags fl_ack) || not (g.ack == t.snd_nxt) || not (g.seq == t.rcv_nxt))) [
          | inl y ↦ rw (n, y) v
          | inr y ↦
              let q : g.ack ≡ t.snd_nxt = ground arith in
              rw (n, y)
                (connected_input-IsValid _ pool g now b refl (establish-IsValid t g.ack q e v))
        ]
]

-- A segment with a 32-bit acknowledgement keeps a socket valid, in every state but CLOSED and
-- LISTEN, whatever its flags, numbers and data are.
pub segment_input-IsValid :
    (t : Tcp) (pool : Mem) (g : Segment) (now : ℕ)
    → g.ack < 2 ^ 32
    → is_open t.state ≡ true
    → IsValid t
    → IsValid (segment_input t pool g now).0
unfolding segment_input
segment_input-IsValid t0 pool g now b o v0 =
    let t = record t0 { stat_rx_seg = u16 (t0.stat_rx_seg + 1) } in
    let v = counted-IsValid t0 (u16 (t0.stat_rx_seg + 1)) v0 in
    elim (Bool-cases (has g.flags fl_rst)) [
      | inl r ↦ rw r (rst_input-IsValid t g v)
      | inr r ↦ elim (Bool-cases (is_state t.state syn_sent)) [
        | inl a ↦ rw (r, a) (syn_sent_input-IsValid t g b (ground arith) v)
        | inr a ↦ elim (Bool-cases (is_state t.state syn_rcvd)) [
          | inl c ↦ rw (r, a, c) (syn_rcvd_input-IsValid t pool g now b (ground arith) v)
          | inr c ↦ rw (r, a, c) (connected_input-IsValid t pool g now b (ground arith) v)
        ]
      ]
    ]

-- The socket that `passive_open` answers from.
abbrev pub answering : Tcp → Mem → ℕ → ℕ → ℕ → ℕ → ℕ → Mem → ℕ → Tcp
answering t ip port seq iss wnd now seg hlen =
    record (take_mss
      (record (reset_counters (record t { remote_ip = ip; remote_port = port })) {
        irs = seq;
        rcv_nxt = u32 (seq + 1);
        iss = iss;
        snd_una = iss;
        snd_nxt = u32 (iss + 1);
        snd_wnd = wnd;
      })
      seg hlen) { state = syn_rcvd; sent_at = now }

answering-IsValid :
    (t : Tcp) (ip : Mem) (port seq iss wnd now : ℕ) (seg : Mem) (hlen : ℕ)
    → iss < 2 ^ 32
    → IsValid t
    → IsValid (answering t ip port seq iss wnd now seg hlen)
unfolding reset_counters take_mss
answering-IsValid t ip port seq iss wnd now seg hlen b v = ground arith

pending-IsValid : (t : Tcp) (p : Bool) → IsValid t → IsValid (record t { syn_pending = p })
pending-IsValid t p v = ground arith

-- Answering a SYN keeps the listening socket valid, with any options in it and whether or not the
-- answer goes out.
pub passive_open-IsValid :
    (set : TcpSet) (t : Tcp) (s : Sys) (ip seg : Mem) (hlen seq : ℕ)
    → IsValid t
    → IsValid (passive_open set t s ip seg hlen seq).0
unfolding passive_open
passive_open-IsValid set t s ip seg hlen seq v =
    let iss = initial_seq s.nif.mac set.now t.index in
    let t2 =
      answering t (set_remote_ip t (ipv4_src ip)) (get16 seg) seq iss (get16 (offset seg 14))
        set.now seg hlen in
    let (e, k, eq) = emit-emitted t2 s (bit_or fl_syn fl_ack) iss 0 0 true in
    rw eq (
      pending-IsValid _ _ (
        emitted-IsValid t2 e k
          (answering-IsValid t _ _ seq iss _ _ seg hlen (initial_seq-word _ set.now t.index) v)))
