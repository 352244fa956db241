-- ===== src/Tcp/Layout/Sets.antt =====
-- The rings of all sockets across every step of src/net/mn_tcp.c.
use mega_net.Base.{
  Mem, offset, ltb, ◌==◌, if◌then◌else◌, Bool-cases, Option-cases, u16, ℕ, zero, suc, ◌+◌, ◌≤◌, ◌<◌,
  bit_and, bit_or, ◌≡◌, refl, inl, inr, Bool, true, false, not, ◌||◌, Option, none, some, arith,
}
use mega_net.Net.State.{Sys}
use mega_net.Tcp.Calls.{tcp_init}
use mega_net.Tcp.Dispatch.{
  owns, find_owner, find_listener, unowned, hand_over, dispatch, read_segment, tcp_input,
}
use mega_net.Tcp.Input.{Segment}
use mega_net.Tcp.Inv.Sets.{find_owner-owns, find_listener-in}
use mega_net.Tcp.Layout.{tcp_init-HasRings, tcp_init-n}
use mega_net.Tcp.Layout.Calls.{
  tcp_connect-HasRings, tcp_listen-HasRings, tcp_send-HasRings, tcp_send_x-HasRings,
  tcp_recv-HasRings, tcp_recv_x-HasRings, tcp_close-HasRings, tcp_abort-HasRings,
  segment_input-HasRings, passive_open-HasRings,
}
use mega_net.Tcp.Layout.Poll.{poll_one-HasRings}
use mega_net.Tcp.Poll.{poll_one, poll_from, tcp_poll}
use mega_net.Tcp.Queue.{HasRings}
use mega_net.Tcp.Reach.{
  Step, connects, listens, sends, sends_x, receives, receives_x, closes, aborts, arrives, polls,
  Reachable, begins, goes,
}
use mega_net.Tcp.State.{fl_syn, fl_rst, fl_ack, has, tcp_hdr_len, Tcp, TcpSet, set_tcp}
use mega_net.Wire.Byteorder.{get16}
use mega_net.Wire.Checksum.{checksum_pseudo}
use mega_net.Wire.Ipv4.{ipproto_tcp, ipv4_src, ipv4_dst, ipv4_payload, ipv4_payload_len}

-- The rings of every socket of the set lie where they fit.
abbrev pub AllRings : TcpSet → Type 0
AllRings set = (j : ℕ) → j < set.n → HasRings (set.sock j)

set_tcp-AllRings :
    (set : TcpSet) (i : ℕ) (t : Tcp) → AllRings set → HasRings t → AllRings (set_tcp set i t)
set_tcp-AllRings set i t a v j h = chosen (j == i)
  where
    chosen : (b : Bool) → HasRings (if b then t else set.sock j)
    chosen true = v
    chosen false = a j h

poll_from-AllRings :
    (n i : ℕ) (set : TcpSet) (s : Sys)
    → i + n ≤ set.n
    → AllRings set
    → AllRings (poll_from n i set s).0
unfolding poll_from
poll_from-AllRings zero i set s h a = a
poll_from-AllRings (suc n) i set s h a =
    let (t, s1) = poll_one (set.sock i) s set.now in
    let v = poll_one-HasRings (set.sock i) s set.now (a i (omega arith)) in
    poll_from-AllRings n (i + 1) (set_tcp set i t) s1 (omega arith) (set_tcp-AllRings set i t a v)

tcp_poll-AllRings :
    (set : TcpSet) (s : Sys) (now : ℕ) → AllRings set → AllRings (tcp_poll set s now).0
unfolding tcp_poll
tcp_poll-AllRings set s now a =
    poll_from-AllRings set.n 0 (record set { now = now }) s (omega arith) a

-- A choice between two outcomes.
either-AllRings :
    (b : Bool) (x y : TcpSet × Sys)
    → AllRings x.0
    → AllRings y.0
    → AllRings (if◌then◌else◌ {A = TcpSet × Sys} b x y).0
either-AllRings true x y v w = v
either-AllRings false x y v w = w

unowned-AllRings :
    (set : TcpSet) (s : Sys) (ip : Mem) (g : Segment) (dport : ℕ)
    → AllRings set
    → AllRings (unowned set s ip g dport).0
unfolding unowned
unowned-AllRings set s ip g dport a =
    elim (Bool-cases (bit_and g.flags (bit_or fl_syn (bit_or fl_ack fl_rst)) == fl_syn)) [
      | inr n ↦ rw n (
          either-AllRings (has g.flags fl_rst) (set, s)
            (record set { rst_sent = u16 (set.rst_sent + 1) }, _) a a)
      | inl y ↦ elim (Option-cases (find_listener set.n 0 set dport)) [
        | inl e ↦
            rw (y, e)
              (either-AllRings (has g.flags fl_rst) (set, s)
                (record set { rst_sent = u16 (set.rst_sent + 1) }, _) a a)
        | inr (i, e) ↦
            rw (y, e)
              (set_tcp-AllRings set i _ a (
                passive_open-HasRings set (set.sock i) s ip g.bytes g.hlen g.seq
                  (a i (omega (arith, find_listener-in set.n 0 set dport i e)))))
      ]
    ]

dispatch-AllRings :
    (set : TcpSet) (s : Sys) (ip : Mem) (g : Segment)
    → AllRings set
    → AllRings (dispatch set s ip g).0
unfolding dispatch
dispatch-AllRings set s ip g a =
    by_owner (find_owner set.n 0 set sport dport (ipv4_src ip))
      (λ i. find_owner-owns set.n 0 set sport dport (ipv4_src ip) i)
  where
    sport : ℕ
    sport = get16 g.bytes

    dport : ℕ
    dport = get16 (offset g.bytes 2)

    by_owner :
        (o : Option ℕ)
        → ((i : ℕ)
            → o ≡ some i
            → (i < 0 + set.n) × (owns (set.sock i) sport dport (ipv4_src ip) ≡ true))
        → AllRings (hand_over o set s ip g dport).0
    by_owner none k = unowned-AllRings set s ip g dport a
    by_owner (some i) k =
        let (h, o) = k i refl in
        set_tcp-AllRings set i _ a
          (segment_input-HasRings (set.sock i) s.pool g set.now (a i (omega (arith, h))))

tcp_input-AllRings :
    (set : TcpSet) (s : Sys) (ip : Mem) → AllRings set → AllRings (tcp_input set s ip).0
unfolding tcp_input
tcp_input-AllRings set s ip a =
    let seg = ipv4_payload ip in
    let slen = ipv4_payload_len ip in
    let g = read_segment seg slen in
    either-AllRings (ltb slen tcp_hdr_len) (set, s) _ a
      (either-AllRings (not (checksum_pseudo (ipv4_src ip) (ipv4_dst ip) ipproto_tcp seg slen == 0))
        (set, s) _ a
        (either-AllRings (ltb g.hlen tcp_hdr_len || ltb slen g.hlen) (set, s) (dispatch set s ip g)
          a (dispatch-AllRings set s ip g a)))

Step-AllRings : (set next : TcpSet) → AllRings set → Step set next → AllRings next
Step-AllRings set _ a (connects i s ip port now h) =
    set_tcp-AllRings set i _ a (tcp_connect-HasRings (set.sock i) s ip port now (a i h))
Step-AllRings set _ a (listens i port h) =
    set_tcp-AllRings set i _ a (tcp_listen-HasRings (set.sock i) port (a i h))
Step-AllRings set _ a (sends i pool src len h) =
    set_tcp-AllRings set i _ a (tcp_send-HasRings (set.sock i) pool src len (a i h))
Step-AllRings set _ a (sends_x i pool src len h) =
    set_tcp-AllRings set i _ a (tcp_send_x-HasRings (set.sock i) pool src len (a i h))
Step-AllRings set _ a (receives i pool out cap h) =
    set_tcp-AllRings set i _ a (tcp_recv-HasRings (set.sock i) pool out cap (a i h))
Step-AllRings set _ a (receives_x i pool dst cap h) =
    set_tcp-AllRings set i _ a (tcp_recv_x-HasRings (set.sock i) pool dst cap (a i h))
Step-AllRings set _ a (closes i h) =
    set_tcp-AllRings set i _ a (tcp_close-HasRings (set.sock i) (a i h))
Step-AllRings set _ a (aborts i s h) =
    set_tcp-AllRings set i _ a (tcp_abort-HasRings (set.sock i) s (a i h))
Step-AllRings set _ a (arrives s ip h) = tcp_input-AllRings set s ip a
Step-AllRings set _ a (polls s now) = tcp_poll-AllRings set s now a

Reachable-AllRings : (set : TcpSet) → Reachable set → AllRings set
unfolding tcp_init
Reachable-AllRings _ (begins socks n base w) =
    λ j h. tcp_init-HasRings socks n base j (omega (arith, h, tcp_init-n socks n base))
Reachable-AllRings _ (goes set next r step) = Step-AllRings set next (Reachable-AllRings set r) step

-- In every set of sockets that initialisation, for every base address and number of sockets, and
-- any sequence of calls, arriving segments and polls lead to, the two rings of each socket lie
-- one behind the other in one 64 KB segment of bulk memory.
pub Reachable-HasRings : (set : TcpSet) (j : ℕ) → Reachable set → j < set.n → HasRings (set.sock j)
Reachable-HasRings set j r h = Reachable-AllRings set r j h
