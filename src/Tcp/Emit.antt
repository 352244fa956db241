-- ===== src/Tcp/Emit.antt =====
-- Building and sending segments in src/net/mn_tcp.c.
pub mod Laws
pub mod Checksum
use mega_net.Base.{
  Mem, poke, offset, write_at, ◌==◌, if◌then◌else◌, u8, u16, u32, ℕ, ◌+◌, ◌*◌, ◌/◌, ◌%◌, ◌^◌,
  bit_or, Bool, not,
}
use mega_net.Net.State.{Sys}
use mega_net.Net.Transmit.{net_tx_begin, net_tx_send}
use mega_net.Tcp.Ring.{ring_read}
use mega_net.Tcp.State.{
  fl_fin, fl_syn, fl_rst, fl_ack, has, tcp_hdr_len, tcp_sndbuf, tcp_mss, Tcp, adv_window,
}
use mega_net.Wire.Byteorder.{get16, put16, put32}
use mega_net.Wire.Checksum.{checksum_pseudo}
use mega_net.Wire.Ipv4.{ipproto_tcp, ipv4_src}

-- The header of a segment, with a zero checksum, at `seg`.
unfoldable pub segment_header : Mem → ℕ → ℕ → ℕ → ℕ → ℕ → ℕ → ℕ → Mem
segment_header seg sport dport seq ack hlen flags window =
    let s1 = write_at seg 0 (λ m. put16 m sport) in
    let s2 = write_at s1 2 (λ m. put16 m dport) in
    let s3 = write_at s2 4 (λ m. put32 m seq) in
    let s4 = write_at s3 8 (λ m. put32 m ack) in
    let s5 = poke (poke s4 12 (u8 (hlen / 4 * 2 ^ 4))) 13 flags in
    let s6 = write_at s5 14 (λ m. put16 m window) in
    let s7 = write_at s6 16 (λ m. put16 m 0) in write_at s7 18 (λ m. put16 m 0)

-- The MSS option that follows it.
unfoldable pub mss_option : Mem → Mem
mss_option seg = write_at (poke (poke seg 20 2) 21 4) 22 (λ m. put16 m tcp_mss)

abbrev pub header_size : Bool → ℕ
header_size with_mss = if with_mss then tcp_hdr_len + 4 else tcp_hdr_len

-- The header that `emit` writes, with the option if it is asked for.
unfoldable pub whole_header : Tcp → ℕ → ℕ → Bool → Mem → Mem
whole_header t flags seq with_mss seg =
    let hlen = header_size with_mss in
    let ack = if has flags fl_ack then t.rcv_nxt else 0 in
    let h = segment_header seg t.local_port t.remote_port seq ack hlen flags (adv_window t) in
    if with_mss then mss_option h else h

-- The segment with its data, and a zero checksum.
unfoldable pub unsummed_segment : Tcp → Mem → ℕ → ℕ → ℕ → ℕ → Bool → Mem → Mem
unsummed_segment t pool flags seq off len with_mss seg =
    let h = whole_header t flags seq with_mss seg in
    if len == 0
    then h
    else write_at h (header_size with_mss)
        (λ m. ring_read pool m t.xseg t.sndbuf tcp_sndbuf ((t.snd_head + off) % tcp_sndbuf) len)

unfoldable pub build_segment : Tcp → Mem → Mem → ℕ → ℕ → ℕ → ℕ → Bool → Mem → Mem
build_segment t pool our_ip flags seq off len with_mss seg =
    let d = unsummed_segment t pool flags seq off len with_mss seg in
    let slen = u16 (header_size with_mss + len) in
    write_at d 16 (λ m. put16 m (checksum_pseudo our_ip t.remote_ip ipproto_tcp d slen))

unfoldable pub emit : Tcp → Sys → ℕ → ℕ → ℕ → ℕ → Bool → Tcp × Sys × ℕ
emit t s flags seq off len with_mss =
    let (s1, ready, why) = net_tx_begin s t.remote_ip in
    if not ready
    then (t, s1, why)
    else (let f =
          write_at s1.txf 34 (build_segment t s1.pool s1.net.ip flags seq off len with_mss) in
        let edge = if has flags fl_ack then u32 (t.rcv_nxt + adv_window t) else t.adv_edge in
        let t' = record t { adv_edge = edge; stat_tx_seg = u16 (t.stat_tx_seg + 1) } in
        let (s2, r) =
          net_tx_send (record s1 { txf = f }) t.remote_ip ipproto_tcp
            (u16 (header_size with_mss + len)) in
        (t', s2, r))

-- The sequence number, acknowledgement and flags that `send_rst` answers with.
unfoldable pub rst_fields : ℕ → ℕ → ℕ → ℕ → ℕ × ℕ × ℕ
rst_fields flags seq ack dlen = if has flags fl_ack then (ack, 0, fl_rst) else (
  0,
  u32 (seq + dlen + (if has flags fl_syn then 1 else 0) + (if has flags fl_fin then 1 else 0)),
  bit_or fl_rst fl_ack,
)

unfoldable pub build_rst : Mem → Mem → Mem → ℕ × ℕ × ℕ → Mem → Mem
build_rst our_ip src_ip seg fields out =
    let h =
      segment_header out (get16 (offset seg 2)) (get16 seg) fields.0 fields.1 tcp_hdr_len fields.2
        0 in
    write_at h 16 (λ m. put16 m (checksum_pseudo our_ip src_ip ipproto_tcp h tcp_hdr_len))

unfoldable pub send_rst : Sys → Mem → Mem → ℕ → ℕ → ℕ → ℕ → Sys
send_rst s ip seg flags seq ack dlen =
    let fields = rst_fields flags seq ack dlen in
    let (s1, ready, why) = net_tx_begin s (ipv4_src ip) in
    if not ready
    then s1
    else (let f = write_at s1.txf 34 (build_rst s1.net.ip (ipv4_src ip) seg fields) in
        (net_tx_send (record s1 { txf = f }) (ipv4_src ip) ipproto_tcp tcp_hdr_len).0)
