-- ===== src/Tcp/State.antt =====
-- The state of src/net/mn_tcp.c: a socket, and the set of sockets.
use mega_net.Base.{
  Mem, ltb, leb, ◌==◌, if◌then◌else◌, u8, u32, sub16, sub32, ℕ, ◌+◌, ◌*◌, ◌^◌, bit_and, bit_or,
  Bool, false, not, ◌||◌,
}

pub data TcpState : Type 0 where
  closed syn_sent established fin_wait_1 fin_wait_2 close_wait closing last_ack : TcpState
  time_wait listen syn_rcvd : TcpState

-- `t->state == s`
abbrev pub code : TcpState → ℕ
code closed = 0
code syn_sent = 1
code established = 2
code fin_wait_1 = 3
code fin_wait_2 = 4
code close_wait = 5
code closing = 6
code last_ack = 7
code time_wait = 8
code listen = 9
code syn_rcvd = 10

abbrev pub is_state : TcpState → TcpState → Bool
is_state a b = code a == code b

-- `MN_TCP_F_*`
abbrev pub f_eof : ℕ
f_eof = 0x01

abbrev pub f_reset : ℕ
f_reset = 0x02

abbrev pub f_timeout : ℕ
f_timeout = 0x04

abbrev pub f_refused : ℕ
f_refused = 0x08

-- The flags of a segment, `FL_*`.
abbrev pub fl_fin : ℕ
fl_fin = 0x01

abbrev pub fl_syn : ℕ
fl_syn = 0x02

abbrev pub fl_rst : ℕ
fl_rst = 0x04

abbrev pub fl_psh : ℕ
fl_psh = 0x08

abbrev pub fl_ack : ℕ
fl_ack = 0x10

-- `flags & f`, as a test.
abbrev pub has : ℕ → ℕ → Bool
has flags f = not (bit_and flags f == 0)

abbrev pub tcp_hdr_len : ℕ
tcp_hdr_len = 20

abbrev pub tcp_rcvbuf : ℕ
tcp_rcvbuf = 4096

abbrev pub tcp_sndbuf : ℕ
tcp_sndbuf = 3072

abbrev pub tcp_socket_xmem : ℕ
tcp_socket_xmem = tcp_rcvbuf + tcp_sndbuf

abbrev pub tcp_mss : ℕ
tcp_mss = 1460

abbrev pub tcp_window_cap : ℕ
tcp_window_cap = 2048

abbrev pub rto_initial : ℕ
rto_initial = 50

abbrev pub rto_max : ℕ
rto_max = 400

abbrev pub max_retries : ℕ
max_retries = 5

abbrev pub time_wait_ticks : ℕ
time_wait_ticks = 100

abbrev pub winupdate_grow : ℕ
winupdate_grow = 256

abbrev pub cwnd_max : ℕ
cwnd_max = 4

-- `mn_tcp`. A byte that is only set to 0 or 1 is a Boolean.
pub record Tcp : Type 0 where
  pub state : TcpState
  pub flags : ℕ
  pub index : ℕ
  pub remote_ip : Mem
  pub remote_port : ℕ
  pub local_port : ℕ
  pub iss : ℕ
  pub snd_una : ℕ
  pub snd_nxt : ℕ
  pub irs : ℕ
  pub rcv_nxt : ℕ
  pub adv_edge : ℕ
  pub snd_wnd : ℕ
  pub peer_mss : ℕ
  pub xseg : ℕ
  pub rcvbuf : ℕ
  pub sndbuf : ℕ
  pub snd_head : ℕ
  pub snd_len : ℕ
  pub inflight : ℕ
  pub cwnd : ℕ
  pub fin_queued : Bool
  pub fin_sent : Bool
  pub rcv_head : ℕ
  pub rcv_count : ℕ
  pub ack_pending : Bool
  pub syn_pending : Bool
  pub tx_pending : Bool
  pub sent_at : ℕ
  pub rto : ℕ
  pub timewait_at : ℕ
  pub retries : ℕ
  pub stat_rx_seg : ℕ
  pub stat_tx_seg : ℕ
  pub stat_retrans : ℕ
  pub stat_ooo : ℕ

-- `mn_tcp_set`: the sockets as an array, and the fields beside it.
pub record TcpSet : Type 0 where
  pub sock : ℕ → Tcp
  pub n : ℕ
  pub rst_sent : ℕ
  pub now : ℕ

abbrev pub set_tcp : TcpSet → ℕ → Tcp → TcpSet
set_tcp set i t = record set { sock = λ j. if j == i then t else set.sock j }

-- Sequence arithmetic modulo 2^32: the difference, read as an `int32_t`, is negative.
abbrev pub seq_lt : ℕ → ℕ → Bool
seq_lt a b = leb (2 ^ 31) (sub32 a b)

-- ... or zero.
abbrev pub seq_leq : ℕ → ℕ → Bool
seq_leq a b = leb (2 ^ 31) (sub32 a b) || sub32 a b == 0

unfoldable pub rcv_free : Tcp → ℕ
rcv_free t = sub16 tcp_rcvbuf t.rcv_count

unfoldable pub adv_window : Tcp → ℕ
adv_window t = let w = rcv_free t in if ltb tcp_window_cap w then tcp_window_cap else w

unfoldable pub reset_counters : Tcp → Tcp
reset_counters t = record t {
  flags = 0;
  snd_head = 0;
  snd_len = 0;
  inflight = 0;
  cwnd = 0;
  rcv_head = 0;
  rcv_count = 0;
  fin_queued = false;
  fin_sent = false;
  ack_pending = false;
  syn_pending = false;
  tx_pending = false;
  adv_edge = 0;
  snd_wnd = 0;
  peer_mss = 536;
  rto = rto_initial;
  retries = 0;
}

unfoldable pub initial_seq : Mem → ℕ → ℕ → ℕ
initial_seq mac now index =
    bit_or (bit_or (u32 (now * 2 ^ 16)) (u32 (mac 4 * 2 ^ 8))) (u8 (mac 5 + index * 61))
