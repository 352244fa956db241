-- ===== src/Tcp/Machine.antt =====
-- The state machine of src/net/mn_tcp.c on arriving segments, and the diagram that it is compared
-- with.
use mega_net.Base.{Bool, false, ◌||◌}
use mega_net.Tcp.State.{
  TcpState, closed, syn_sent, established, fin_wait_1, fin_wait_2, close_wait, closing, last_ack,
  time_wait, listen, syn_rcvd, is_state, Tcp,
}

-- The moves of a connection on a segment without RST.
unfoldable pub exchange : TcpState → TcpState → Bool
exchange established st = is_state st established || is_state st close_wait
exchange close_wait st = is_state st close_wait
exchange fin_wait_1 st =
    is_state st fin_wait_1 || is_state st fin_wait_2 || is_state st closing || is_state st time_wait
exchange fin_wait_2 st = is_state st fin_wait_2 || is_state st time_wait
exchange closing st = is_state st closing || is_state st time_wait
exchange last_ack st = is_state st last_ack || is_state st closed
exchange time_wait st = is_state st time_wait
exchange _ st = false

-- The moves that a segment may cause.
unfoldable pub arrival : TcpState → TcpState → Bool
unfolding exchange
arrival closed st = false
arrival listen st = false
arrival syn_sent st = is_state st syn_sent || is_state st established || is_state st closed
arrival syn_rcvd st = is_state st syn_rcvd || is_state st listen || exchange established st
arrival from st = exchange from st || is_state st closed
