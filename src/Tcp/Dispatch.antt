-- ===== src/Tcp/Dispatch.antt =====
-- The dispatcher of src/net/mn_tcp.c: the socket that owns the segment's four-tuple, else a listener
-- for a SYN, else RST.
use mega_net.Base.{
  Mem, offset, ltb, ◌==◌, if◌then◌else◌, u16, sub16, ℕ, zero, suc, ◌+◌, ◌*◌, ◌/◌, ◌^◌, bit_and,
  bit_or, Bool, not, ◌&&◌, ◌||◌, Option, none, some,
}
use mega_net.Net.State.{Sys}
use mega_net.Tcp.Emit.{send_rst}
use mega_net.Tcp.Input.{passive_open, Segment, segment_input}
use mega_net.Tcp.State.{
  closed, listen, is_state, fl_syn, fl_rst, fl_ack, has, tcp_hdr_len, Tcp, TcpSet, set_tcp,
}
use mega_net.Wire.Byteorder.{get16, get32}
use mega_net.Wire.Checksum.{checksum_pseudo}
use mega_net.Wire.Ipv4.{
  ipproto_tcp, ipv4_src, ipv4_dst, ipv4_payload, ipv4_payload_len, ipv4_addr_eq,
}

abbrev pub owns : Tcp → ℕ → ℕ → Mem → Bool
owns t sport dport src =
    not (is_state t.state closed || is_state t.state listen)
    && t.local_port == dport
    && t.remote_port == sport
    && ipv4_addr_eq src t.remote_ip

-- The first loop: the first socket that owns the segment.
unfoldable pub find_owner : ℕ → ℕ → TcpSet → ℕ → ℕ → Mem → Option ℕ
find_owner zero i set sport dport src = none
find_owner (suc n) i set sport dport src =
    if owns (set.sock i) sport dport src then some i else find_owner n (i + 1) set sport dport src

-- The second: the first listener on the port.
unfoldable pub find_listener : ℕ → ℕ → TcpSet → ℕ → Option ℕ
find_listener zero i set dport = none
find_listener (suc n) i set dport =
    if is_state (set.sock i).state listen && (set.sock i).local_port == dport
    then some i
    else find_listener n (i + 1) set dport

-- What the dispatcher does with a segment that no socket owns.
unfoldable pub unowned : TcpSet → Sys → Mem → Segment → ℕ → TcpSet × Sys
unowned set s ip g dport =
    let answer = if has g.flags fl_rst then (set, s) else (
      record set { rst_sent = u16 (set.rst_sent + 1) },
      send_rst s ip g.bytes g.flags g.seq g.ack g.dlen,
    ) in
    if bit_and g.flags (bit_or fl_syn (bit_or fl_ack fl_rst)) == fl_syn
    then elim (find_listener set.n 0 set dport) [
      | some i ↦
          let (t, s1) = passive_open set (set.sock i) s ip g.bytes g.hlen g.seq in
          (set_tcp set i t, s1)
      | none ↦ answer
    ]
    else answer

-- What the search for the owner leads to.
abbrev pub hand_over : Option ℕ → TcpSet → Sys → Mem → Segment → ℕ → TcpSet × Sys
hand_over (some i) set s ip g dport =
    let (t, pool') = segment_input (set.sock i) s.pool g set.now in
    (set_tcp set i t, record s { pool = pool' })
hand_over none set s ip g dport = unowned set s ip g dport

unfoldable pub dispatch : TcpSet → Sys → Mem → Segment → TcpSet × Sys
dispatch set s ip g =
    let sport = get16 g.bytes in
    let dport = get16 (offset g.bytes 2) in
    hand_over (find_owner set.n 0 set sport dport (ipv4_src ip)) set s ip g dport

-- The segment at the payload of `ip`.
unfoldable pub read_segment : Mem → ℕ → Segment
read_segment seg slen =
    let hlen = u16 (seg 12 / 2 ^ 4 * 4) in
    record {
      bytes = seg;
      hlen = hlen;
      flags = seg 13;
      seq = get32 (offset seg 4);
      ack = get32 (offset seg 8);
      dlen = sub16 slen hlen;
    }

unfoldable pub tcp_input : TcpSet → Sys → Mem → TcpSet × Sys
tcp_input set s ip =
    let seg = ipv4_payload ip in
    let slen = ipv4_payload_len ip in
    let g = read_segment seg slen in
    if ltb slen tcp_hdr_len
    then (set, s)
    else if not (checksum_pseudo (ipv4_src ip) (ipv4_dst ip) ipproto_tcp seg slen == 0)
    then (set, s)
    else if ltb g.hlen tcp_hdr_len || ltb slen g.hlen
    then (set, s)
    else dispatch set s ip g
