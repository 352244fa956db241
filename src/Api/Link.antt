-- ===== src/Api/Link.antt =====
-- Raw frames and the poll of src/abi/api.c.
use mega_net.Base.{
  length, copy, ltb, if◌then◌else◌, ℕ, ◌+◌, Bool, ◌||◌, Option, none, some, [], ◌∷◌, ◌++◌,
}
use mega_net.Api.Codes.{is_idle, is_failed, is_looking_up, is_asking}
use mega_net.Api.State.{
  abi_major, abi_minor, Machine, tick, arg_ptr, ret, blk_ptr, get16_le, put16_le, flag, set_sys,
  fetch_blk, put_out, give_blk, fetch_frame,
}
use mega_net.Dhcp.Client.{dhcp_poll}
use mega_net.Dns.Client.{dns_poll}
use mega_net.Net.Receive.{net_poll}
use mega_net.Net.State.{Frame, Sys}
use mega_net.Ntp.Client.{ntp_poll}
use mega_net.Tcp.Dispatch.{tcp_input}
use mega_net.Tcp.Poll.{tcp_poll}
use mega_net.Wire.Ether.{eth_addr_len, max_frame}

unfoldable pub api_version : Machine → Machine
api_version m = ret m abi_major abi_minor b'M' b'N'

unfoldable pub api_get_mac : Machine → Machine
api_get_mac m = ret (put_out m (arg_ptr m) m.sys.nif.mac eth_addr_len) 0 0 0 0

-- `nif.tx(&nif, frame, len)`: the answer, and the frame among those that the driver was handed.
unfoldable pub nif_tx : Sys → ℕ → Sys × Bool
nif_tx s len =
    let frame : Frame = record { bytes = s.rxf; len = len } in
    (
      record s { nif = record s.nif { sent = s.nif.sent ++ (frame ∷ []) } },
      s.nif.tx (length s.nif.sent) frame,
    )

unfoldable pub api_link_tx : Machine → Machine
api_link_tx m =
    let m1 = fetch_blk m 5 in
    let len = get16_le m1.blk 3 in
    if ltb max_frame len
    then ret m1 0 0 0 0
    else (let m2 = fetch_frame m1 (blk_ptr m1) len in
        let (s, ok) = nif_tx m2.sys len in ret (set_sys m2 s) (flag ok) 0 0 0)

-- What came, in the frame buffer.
abbrev pub buffered : Option Frame → Sys → Sys × Option ℕ
buffered none s = (s, none)
buffered (some frame) s = (record s { rxf = copy s.rxf frame.bytes frame.len }, some frame.len)

-- `nif.rx(&nif, frame, cap, &n)`
unfoldable pub nif_rx : Sys → ℕ → Sys × Option ℕ
nif_rx s cap =
    buffered (s.nif.rx s.nif.polls cap)
      (record s { nif = record s.nif { polls = s.nif.polls + 1 } })

-- The end of `mn_api_link_rx`: the frame and its length go to the caller.
unfoldable pub hand_frame : Option ℕ → Machine → Machine
hand_frame none m = ret (give_blk (record m { blk = put16_le m.blk 5 0 }) 5 2) 0 0 0 0
hand_frame (some n) m =
    let m1 = put_out m (blk_ptr m) m.sys.rxf n in
    ret (give_blk (record m1 { blk = put16_le m1.blk 5 n }) 5 2) 1 0 0 0

unfoldable pub api_link_rx : Machine → Machine
api_link_rx m =
    let m1 = fetch_blk m 5 in
    let cap = get16_le m1.blk 3 in
    let (s, got) = nif_rx m1.sys (if ltb max_frame cap then max_frame else cap) in
    hand_frame got (set_sys m1 s)

-- `mn_net_poll(&net)`, with TCP above it.
unfoldable pub poll_net : Machine → Machine × Bool
poll_net m =
    let ((set, s), got) = net_poll (some tcp_input) m.tcpset m.sys in
    (record m { tcpset = set; sys = s }, got)

unfoldable pub poll_dhcp : Machine → Machine
poll_dhcp m =
    if is_idle m.dhcp.state || is_failed m.dhcp.state
    then m
    else (let (d, s) = dhcp_poll m.dhcp m.sys m.ticks in record m { dhcp = d; sys = s })

unfoldable pub poll_dns : Machine → Machine
poll_dns m =
    if is_looking_up m.dns.state
    then (let (d, s) = dns_poll m.dns m.sys m.ticks in record m { dns = d; sys = s })
    else m

unfoldable pub poll_ntp : Machine → Machine
poll_ntp m =
    if is_asking m.ntp.state
    then (let (n, s) = ntp_poll m.ntp m.sys m.ticks in record m { ntp = n; sys = s })
    else m

unfoldable pub poll_tcp : Machine → Machine
poll_tcp m = let (set, s) = tcp_poll m.tcpset m.sys m.ticks in record m { tcpset = set; sys = s }

unfoldable pub api_poll : ℕ → Machine → Machine
api_poll f m =
    let (m1, got) = poll_net m in
    ret (poll_tcp (poll_ntp (poll_dns (poll_dhcp (tick f m1))))) (flag got) 0 0 0
