-- ===== src/Tcp/Inv.antt =====
-- The invariant of a socket of src/net/mn_tcp.c: the bounds of its rings and windows, and its
-- sequence numbers against what is in flight.
pub mod Calls
pub mod Input
pub mod Poll
pub mod Sets
use mega_net.Base.{
  bit_or_lt, Mem, sub32, ℕ, ◌+◌, ◌*◌, ◌^◌, ◌≤◌, ◌<◌, ◌≡◌, ◌⊎◌, Bool, true, false, arith,
}
use mega_net.Tcp.Emit.Laws.{emitted}
use mega_net.Tcp.State.{
  TcpState, closed, syn_sent, listen, syn_rcvd, tcp_rcvbuf, tcp_sndbuf, tcp_mss, Tcp, initial_seq,
}

-- A connection is there.
abbrev pub is_connected : TcpState → Bool
is_connected closed = false
is_connected syn_sent = false
is_connected listen = false
is_connected syn_rcvd = false
is_connected _ = true

-- A connection is being set up.
abbrev pub is_opening : TcpState → Bool
is_opening syn_sent = true
is_opening listen = true
is_opening syn_rcvd = true
is_opening _ = false

-- Nothing is queued, in flight or closing.
pub record IsFresh (t : Tcp) : Type 0 where
  pub no_data : t.snd_len ≡ 0
  pub no_fin : t.fin_sent ≡ false

-- What is unacknowledged is what is in flight, and our FIN after it.
pub record IsAccounted (t : Tcp) : Type 0 where
  pub outstanding :
      (sub32 t.snd_nxt t.snd_una ≡ t.inflight)
      ⊎ ((t.fin_sent ≡ true) × (sub32 t.snd_nxt t.snd_una ≡ t.inflight + 1))
  pub fin_last : t.fin_sent ≡ true → t.snd_len ≡ 0
  pub fin_asked : t.fin_sent ≡ true → t.fin_queued ≡ true

pub record IsValid (t : Tcp) : Type 0 where
  pub snd_head_in : t.snd_head < tcp_sndbuf
  pub snd_len_le : t.snd_len ≤ tcp_sndbuf
  pub inflight_le : t.inflight ≤ t.snd_len
  pub rcv_head_in : t.rcv_head < tcp_rcvbuf
  pub rcv_count_le : t.rcv_count ≤ tcp_rcvbuf
  pub peer_mss_le : t.peer_mss ≤ tcp_mss
  pub cwnd_le : t.cwnd ≤ 5 * t.peer_mss
  pub una_word : t.snd_una < 2 ^ 32
  pub nxt_word : t.snd_nxt < 2 ^ 32
  pub rcv_word : t.rcv_nxt < 2 ^ 32
  pub fresh : is_opening t.state ≡ true → IsFresh t
  pub accounted : is_connected t.state ≡ true → IsAccounted t

pub emitted-IsValid : (t : Tcp) (e k : ℕ) → IsValid t → IsValid (emitted t e k)
emitted-IsValid t e k v = ground arith

pub initial_seq-word : (mac : Mem) (now index : ℕ) → initial_seq mac now index < 2 ^ 32
unfolding initial_seq
initial_seq-word mac now index =
    bit_or_lt 32 _ _ (bit_or_lt 32 _ _ (omega arith) (omega arith)) (omega arith)
