-- ===== src/Tests/Tcp.antt =====
-- The theorems on the sockets at a concrete connection, from an initialised set on.
use mega_net.Base.{
  ltb, if◌then◌else◌, u16, u32, ◌+◌, ◌-◌, ◌≤◌, ◌≡◌, refl, true, false, [], ◌∷◌, arith,
}
use mega_net.Net.State.{send_ok}
use mega_net.Tcp.Calls.{
  init_from, sockets_in, tcp_init, tcp_listen, can_send, accepted, tcp_send, window_moved,
  after_recv, tcp_recv,
}
use mega_net.Tcp.Emit.{header_size, build_segment}
use mega_net.Tcp.Emit.Checksum.{checksum_pseudo-build_segment}
use mega_net.Tcp.Input.{ring_put, data_input}
use mega_net.Tcp.Inv.{IsValid}
use mega_net.Tcp.Order.{taken, data_input-delivers}
use mega_net.Tcp.Poll.{send_limit, send_from, send_queued, poll_one, poll_from, tcp_poll}
use mega_net.Tcp.Queue.{
  received, unsent, tcp_recv-received, tcp_recv-rest, tcp_send-unsent, build_segment-data,
}
use mega_net.Tcp.Reach.{listens, polls, begins, goes, Reachable-IsValid}
use mega_net.Tcp.Sending.{has_stopped, send_queued-stops, send_queued-inflight}
use mega_net.Tcp.State.{TcpSet, set_tcp, rcv_free, adv_window, reset_counters}
use mega_net.Tests.Data.{
  bytes, zeros, zeros-IsBytes, our_ip, our_ip-IsBytes, peer_ip-IsBytes, machine, talking,
  talking-IsValid, talking-HasRings, segment,
}
use mega_net.Wire.Checksum.{checksum_pseudo}
use mega_net.Wire.Ipv4.{ipproto_tcp}

abbrev begun : TcpSet
begun = (tcp_init (λ _. talking) 2 0x8000000).0

abbrev listening : TcpSet
listening = set_tcp begun 0 (tcp_listen (begun.sock 0) 80).0

abbrev reached : TcpSet
reached = (tcp_poll listening machine 7).0

Reachable-IsValid_example : IsValid (reached.sock 1)
unfolding tcp_init init_from sockets_in tcp_listen reset_counters tcp_poll poll_from poll_one
Reachable-IsValid_example =
    Reachable-IsValid reached 1
      (goes listening reached
        (goes begun listening
          (begins (λ _. talking) 2 0x8000000 (λ k. (omega arith, omega arith, omega arith)))
          (listens 0 80 (omega arith)))
        (polls machine 7))
      (omega arith)

data_input-delivers_example :
    let (t', pool', fin) = data_input talking zeros segment in
    (t'.rcv_count ≡ talking.rcv_count + taken talking segment)
    × (t'.rcv_nxt ≡ u32 (talking.rcv_nxt + taken talking segment))
    × (received t' pool' 7 ≡ (
        if ltb 7 talking.rcv_count
        then received talking zeros 7
        else segment.bytes (segment.hlen + (7 - talking.rcv_count))))
unfolding data_input ring_put rcv_free
data_input-delivers_example =
    data_input-delivers talking zeros segment 7 talking-HasRings talking-IsValid refl (omega arith)

tcp_recv-received_example :
    (tcp_recv talking zeros our_ip 3).1 1
    ≡ (if ltb 1 (tcp_recv talking zeros our_ip 3).2 then received talking zeros 1 else our_ip 1)
tcp_recv-received_example =
    tcp_recv-received talking zeros our_ip 3 1 talking-HasRings talking-IsValid

tcp_recv-rest_example :
    (talking.rcv_count
      ≡ (tcp_recv talking zeros our_ip 3).2 + (tcp_recv talking zeros our_ip 3).0.rcv_count)
    × (received (tcp_recv talking zeros our_ip 3).0 zeros 1
        ≡ received talking zeros ((tcp_recv talking zeros our_ip 3).2 + 1))
unfolding tcp_recv after_recv window_moved adv_window rcv_free
tcp_recv-rest_example = tcp_recv-rest talking zeros our_ip 3 1 talking-IsValid (omega arith)

tcp_send-unsent_example :
    unsent
      (tcp_send talking zeros (bytes (0 ∷ 80 ∷ 192 ∷ 0 ∷ 104 ∷ 105 ∷ [])) 6).0
      (tcp_send talking zeros (bytes (0 ∷ 80 ∷ 192 ∷ 0 ∷ 104 ∷ 105 ∷ [])) 6).1
      31
    ≡ (if ltb 31 talking.snd_len
        then unsent talking zeros 31
        else (bytes (0 ∷ 80 ∷ 192 ∷ 0 ∷ 104 ∷ 105 ∷ [])) (31 - talking.snd_len))
unfolding tcp_send can_send accepted
tcp_send-unsent_example =
    tcp_send-unsent talking zeros (bytes (0 ∷ 80 ∷ 192 ∷ 0 ∷ 104 ∷ 105 ∷ [])) 6 31 talking-HasRings
      talking-IsValid (omega arith)

build_segment-data_example :
    build_segment talking zeros our_ip 0x18 111 10 20 false zeros (header_size false + 3)
    ≡ unsent talking zeros (10 + 3)
build_segment-data_example =
    build_segment-data talking zeros our_ip zeros 0x18 111 10 20 false 3 talking-HasRings
      talking-IsValid (omega arith) (omega arith)

checksum_pseudo-build_segment_example :
    checksum_pseudo our_ip talking.remote_ip ipproto_tcp
      (build_segment talking zeros our_ip 0x18 111 10 20 false zeros)
      (u16 (header_size false + 20))
    ≡ 0
checksum_pseudo-build_segment_example =
    checksum_pseudo-build_segment talking zeros our_ip zeros 0x18 111 10 20 false zeros-IsBytes
      our_ip-IsBytes peer_ip-IsBytes zeros-IsBytes (omega arith) (omega arith)

send_queued-stops_example :
    has_stopped
      (send_from talking.snd_len talking machine (send_limit talking) 9 send_ok)
      (send_limit talking)
    ≡ true
send_queued-stops_example = send_queued-stops talking machine 9 refl talking-IsValid

send_queued-inflight_example : (send_queued talking machine 9).0.inflight ≤ send_limit talking
send_queued-inflight_example =
    send_queued-inflight talking machine 9 refl (omega arith) talking-IsValid
