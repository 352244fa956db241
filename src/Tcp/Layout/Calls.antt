-- ===== src/Tcp/Layout/Calls.antt =====
-- The rings across the calls and the arriving segments of src/net/mn_tcp.c.
use mega_net.Base.{Mem, offset, eq, u16, ℕ, ◌+◌, ◌*◌, bit_and, bit_or, Bool, true, false, arith}
use mega_net.Net.State.{Sys}
use mega_net.Tcp.Calls.{
  set_remote_ip, tcp_connect, tcp_listen, tcp_send, tcp_send_x, after_recv, tcp_recv, tcp_recv_x,
  tcp_close, tcp_abort,
}
use mega_net.Tcp.Emit.{emit}
use mega_net.Tcp.Emit.Laws.{emitted, emit-emitted}
use mega_net.Tcp.Input.{
  ring_put, handle_ack, take_mss, passive_open, Segment, rst_input, establish, syn_sent_input,
  data_input, fin_input, our_fin, connected_input, syn_rcvd_input, segment_input,
}
use mega_net.Tcp.Inv.Calls.{dialled}
use mega_net.Tcp.Inv.Input.{answering}
use mega_net.Tcp.Queue.{HasRings}
use mega_net.Tcp.State.{fl_syn, fl_rst, fl_ack, Tcp, TcpSet, reset_counters, initial_seq}
use mega_net.Wire.Byteorder.{get16}
use mega_net.Wire.Ipv4.{ipv4_src}

emitted-HasRings : (t : Tcp) (e k : ℕ) → HasRings t → HasRings (emitted t e k)
emitted-HasRings t e k r = ground arith

pub emit-HasRings :
    (t : Tcp) (s : Sys) (flags seq off len : ℕ) (m : Bool)
    → HasRings t
    → HasRings (emit t s flags seq off len m).0
emit-HasRings t s flags seq off len m r =
    let (e, k, eq) = emit-emitted t s flags seq off len m in rw eq (emitted-HasRings t e k r)

dialled-HasRings :
    (t : Tcp) (ip : Mem) (port lport iss now : ℕ)
    → HasRings t
    → HasRings (dialled t ip port lport iss now)
unfolding reset_counters
dialled-HasRings t ip port lport iss now r = ground arith

pub tcp_connect-HasRings :
    (t : Tcp) (s : Sys) (ip : Mem) (port now : ℕ)
    → HasRings t
    → HasRings (tcp_connect t s ip port now).0
unfolding tcp_connect
tcp_connect-HasRings t s ip port now r =
    let iss = initial_seq s.nif.mac now t.index in
    let lport = u16 (49152 + bit_and (now * 3 + s.nif.mac 5 + t.index * 37) 0x0fff) in
    let w =
      emit-HasRings (dialled t ip port lport iss now) s fl_syn iss 0 0 true
        (dialled-HasRings t ip port lport iss now r) in
    ground (arith, r, w)

pub tcp_listen-HasRings : (t : Tcp) (port : ℕ) → HasRings t → HasRings (tcp_listen t port).0
unfolding tcp_listen reset_counters
tcp_listen-HasRings t port r = ground arith

pub tcp_send-HasRings :
    (t : Tcp) (pool src : Mem) (len : ℕ) → HasRings t → HasRings (tcp_send t pool src len).0
unfolding tcp_send
tcp_send-HasRings t pool src len r = ground arith

pub tcp_send_x-HasRings :
    (t : Tcp) (pool : Mem) (src len : ℕ) → HasRings t → HasRings (tcp_send_x t pool src len).0
unfolding tcp_send_x
tcp_send_x-HasRings t pool src len r = ground arith

pub tcp_recv-HasRings :
    (t : Tcp) (pool out : Mem) (cap : ℕ) → HasRings t → HasRings (tcp_recv t pool out cap).0
unfolding tcp_recv after_recv
tcp_recv-HasRings t pool out cap r = ground arith

pub tcp_recv_x-HasRings :
    (t : Tcp) (pool : Mem) (dst cap : ℕ) → HasRings t → HasRings (tcp_recv_x t pool dst cap).0
unfolding tcp_recv_x after_recv
tcp_recv_x-HasRings t pool dst cap r = ground arith

pub tcp_close-HasRings : (t : Tcp) → HasRings t → HasRings (tcp_close t)
unfolding tcp_close
tcp_close-HasRings t r = ground arith

pub tcp_abort-HasRings : (t : Tcp) (s : Sys) → HasRings t → HasRings (tcp_abort t s).0
unfolding tcp_abort
tcp_abort-HasRings t s r =
    ground (arith, r, emit-HasRings t s (bit_or fl_rst fl_ack) t.snd_nxt 0 0 false r)

handle_ack-HasRings : (t : Tcp) (ack now : ℕ) → HasRings t → HasRings (handle_ack t ack now)
unfolding handle_ack
handle_ack-HasRings t ack now r = ground arith

data_input-HasRings :
    (t : Tcp) (pool : Mem) (g : Segment) → HasRings t → HasRings (data_input t pool g).0
unfolding data_input ring_put
data_input-HasRings t pool g r = ground arith

fins-HasRings : (t : Tcp) (fin : Bool) → HasRings t → HasRings (our_fin (fin_input t fin))
unfolding fin_input our_fin
fins-HasRings t fin r = ground arith

seen-HasRings :
    (t : Tcp) (a b w : ℕ) (p : Bool)
    → HasRings t
    → HasRings (record t { stat_rx_seg = a; stat_ooo = b; snd_wnd = w; ack_pending = p })
seen-HasRings t a b w p r = ground arith

connected_input-HasRings :
    (t : Tcp) (pool : Mem) (g : Segment) (now : ℕ)
    → HasRings t
    → HasRings (connected_input t pool g now).0
unfolding connected_input
connected_input-HasRings t pool g now r =
    let t1 = record (handle_ack t g.ack now) { snd_wnd = get16 (offset g.bytes 14) } in
    let w = handle_ack-HasRings t g.ack now r in
    let w1 : HasRings t1 = seen-HasRings _ _ _ (get16 (offset g.bytes 14)) _ w in
    let d =
      fins-HasRings (data_input t1 pool g).0 (data_input t1 pool g).2
        (data_input-HasRings t1 pool g w1) in
    let o =
      handle_ack-HasRings (record t { stat_ooo = u16 (t.stat_ooo + 1); ack_pending = true }) g.ack
        now (seen-HasRings t _ _ _ _ r) in
    ground (arith, r, w, d, o)

established-HasRings :
    (t : Tcp) (ack : ℕ) → HasRings t → HasRings (establish (record t { snd_una = ack }))
established-HasRings t ack r = ground arith

pub segment_input-HasRings :
    (t : Tcp) (pool : Mem) (g : Segment) (now : ℕ)
    → HasRings t
    → HasRings (segment_input t pool g now).0
unfolding segment_input rst_input syn_sent_input take_mss syn_rcvd_input
segment_input-HasRings t0 pool g now r0 =
    let t = record t0 { stat_rx_seg = u16 (t0.stat_rx_seg + 1) } in
    let r : HasRings t = seen-HasRings t0 _ _ _ _ r0 in
    ground (
      arith,
      r,
      connected_input-HasRings t pool g now r,
      connected_input-HasRings (establish (record t { snd_una = g.ack })) pool g now
          (established-HasRings t g.ack r),
    )

answering-HasRings :
    (t : Tcp) (ip : Mem) (port seq iss wnd now : ℕ) (seg : Mem) (hlen : ℕ)
    → HasRings t
    → HasRings (answering t ip port seq iss wnd now seg hlen)
unfolding reset_counters take_mss
answering-HasRings t ip port seq iss wnd now seg hlen r = ground arith

pending-HasRings : (t : Tcp) (p : Bool) → HasRings t → HasRings (record t { syn_pending = p })
pending-HasRings t p r = ground arith

pub passive_open-HasRings :
    (set : TcpSet) (t : Tcp) (s : Sys) (ip seg : Mem) (hlen seq : ℕ)
    → HasRings t
    → HasRings (passive_open set t s ip seg hlen seq).0
unfolding passive_open
passive_open-HasRings set t s ip seg hlen seq r =
    let iss = initial_seq s.nif.mac set.now t.index in
    let t2 =
      answering t (set_remote_ip t (ipv4_src ip)) (get16 seg) seq iss (get16 (offset seg 14))
        set.now seg hlen in
    let w =
      answering-HasRings t (set_remote_ip t (ipv4_src ip)) (get16 seg) seq iss
        (get16 (offset seg 14)) set.now seg hlen r in
    pending-HasRings _ _ (emit-HasRings t2 s (bit_or fl_syn fl_ack) iss 0 0 true w)
