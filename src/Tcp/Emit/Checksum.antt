-- ===== src/Tcp/Emit/Checksum.antt =====
-- The checksum of the segments that `emit` of src/net/mn_tcp.c builds.
use mega_net.Base.{
  Mem, IsBytes, offset, write_at, copy-IsBytes, write_at-IsBytes, ◌==◌, if◌then◌else◌, u8, u16, ℕ,
  ◌+◌, ◌-◌, ◌*◌, ◌/◌, ◌%◌, ◌^◌, ◌<◌, ◌≡◌, refl, inl, Bool, true, false, arith,
}
use mega_net.Tcp.Emit.{
  segment_header, mss_option, header_size, whole_header, unsummed_segment, build_segment,
}
use mega_net.Tcp.Ring.{first_part, ring_read}
use mega_net.Tcp.State.{tcp_sndbuf, tcp_mss, Tcp, adv_window}
use mega_net.Wire.Byteorder.{put16, put32}
use mega_net.Wire.Checksum.{checksum_pseudo}
use mega_net.Wire.Checksum.Field.{patch-IsBytes, patch-zero, poke-IsBytes}
use mega_net.Wire.Checksum.Pseudo.{checksum_pseudo-patch}
use mega_net.Wire.Ipv4.{ipproto_tcp}
use mega_net.Xmem.{xmem_addr, dma_copy_in, xmem_read}

-- Nothing but the place of the header's last two words is written by the data.
unsummed-urgent :
    (t : Tcp) (pool seg : Mem) (flags seq off len : ℕ) (m : Bool)
    → (unsummed_segment t pool flags seq off len m seg 16 ≡ 0)
      × (unsummed_segment t pool flags seq off len m seg 17 ≡ 0)
unfolding unsummed_segment whole_header segment_header mss_option put16 put32
unsummed-urgent t pool seg flags seq off len m = ground arith

xmem_read-IsBytes :
    (pool dst : Mem) (seg off len : ℕ)
    → IsBytes pool
    → IsBytes dst
    → IsBytes (xmem_read pool dst seg off len)
unfolding xmem_read dma_copy_in
xmem_read-IsBytes pool dst seg off len hp hd j = ground (
  arith,
  hd j,
  copy-IsBytes dst (offset pool (xmem_addr seg off)) len hd (λ i. hp (xmem_addr seg off + i)) j,
)

ring_read-IsBytes :
    (pool dst : Mem) (seg base size pos len : ℕ)
    → IsBytes pool
    → IsBytes dst
    → IsBytes (ring_read pool dst seg base size pos len)
unfolding ring_read
ring_read-IsBytes pool dst seg base size pos len hp hd j =
    let first = first_part size pos len in
    let d1 = xmem_read pool dst seg (u16 (base + pos)) first in
    let b1 = xmem_read-IsBytes pool dst seg (u16 (base + pos)) first hp hd in
    let b2 =
      xmem_read-IsBytes pool (offset d1 first) seg base (u16 (len - first)) hp
        (λ i. b1 (first + i)) in
    ground (arith, b1 j, b2 (j - first))

put32-IsBytes : (p : Mem) (o v : ℕ) → IsBytes p → IsBytes (write_at p o (λ m. put32 m v))
unfolding put32
put32-IsBytes p o v h = write_at-IsBytes p o (λ m. put32 m v) h (λ j. ground (arith, h (o + j)))

header-IsBytes :
    (seg : Mem) (sport dport seq ack hlen flags window : ℕ)
    → IsBytes seg
    → flags < 256
    → IsBytes (segment_header seg sport dport seq ack hlen flags window)
unfolding segment_header
header-IsBytes seg sport dport seq ack hlen flags window h f =
    let b2 = patch-IsBytes _ 2 dport (patch-IsBytes seg 0 sport h) in
    let b4 = put32-IsBytes _ 8 ack (put32-IsBytes _ 4 seq b2) in
    let b6 =
      poke-IsBytes _ 13 flags f (poke-IsBytes _ 12 (u8 (hlen / 4 * 2 ^ 4)) (omega arith) b4) in
    patch-IsBytes _ 18 0 (patch-IsBytes _ 16 0 (patch-IsBytes _ 14 window b6))

option-IsBytes : (seg : Mem) → IsBytes seg → IsBytes (mss_option seg)
unfolding mss_option
option-IsBytes seg h =
    patch-IsBytes _ 22 tcp_mss
      (poke-IsBytes _ 21 4 (omega arith) (poke-IsBytes _ 20 2 (omega arith) h))

whole_header-IsBytes :
    (t : Tcp) (flags seq : ℕ) (m : Bool) (seg : Mem)
    → IsBytes seg
    → flags < 256
    → IsBytes (whole_header t flags seq m seg)
unfolding whole_header
whole_header-IsBytes t flags seq m seg h f = by_option m
  where
    by_option : (m : Bool) → IsBytes (whole_header t flags seq m seg)
    by_option false = header-IsBytes seg t.local_port t.remote_port seq _ _ flags (adv_window t) h f
    by_option true =
        option-IsBytes _
          (header-IsBytes seg t.local_port t.remote_port seq _ _ flags (adv_window t) h f)

unsummed-IsBytes :
    (t : Tcp) (pool seg : Mem) (flags seq off len : ℕ) (m : Bool)
    → IsBytes pool
    → IsBytes seg
    → flags < 256
    → IsBytes (unsummed_segment t pool flags seq off len m seg)
unfolding unsummed_segment
unsummed-IsBytes t pool seg flags seq off len m hp hs f = by_data (len == 0)
  where
    b : IsBytes (whole_header t flags seq m seg)
    b = whole_header-IsBytes t flags seq m seg hs f

    by_data :
        (e : Bool)
        → IsBytes (
            if e
            then whole_header t flags seq m seg
            else write_at (whole_header t flags seq m seg) (header_size m) (λ x.
              ring_read pool x t.xseg t.sndbuf tcp_sndbuf ((t.snd_head + off) % tcp_sndbuf) len))
    by_data true = b
    by_data false =
        write_at-IsBytes (whole_header t flags seq m seg) (header_size m)
          (λ x. ring_read pool x t.xseg t.sndbuf tcp_sndbuf ((t.snd_head + off) % tcp_sndbuf) len) b
          (ring_read-IsBytes pool (offset (whole_header t flags seq m seg) (header_size m)) t.xseg
            t.sndbuf tcp_sndbuf ((t.snd_head + off) % tcp_sndbuf) len hp
            (λ i. b (header_size m + i)))

-- A built segment of less than 32768 bytes of data, from bytes and with a byte of flags, sums to
-- zero under the pseudo-header of its two addresses, which is the test that its receiver makes.
pub checksum_pseudo-build_segment :
    (t : Tcp) (pool our_ip seg : Mem) (flags seq off len : ℕ) (m : Bool)
    → IsBytes pool
    → IsBytes our_ip
    → IsBytes t.remote_ip
    → IsBytes seg
    → flags < 256
    → len < 2 ^ 15
    → checksum_pseudo our_ip t.remote_ip ipproto_tcp
        (build_segment t pool our_ip flags seq off len m seg)
        (u16 (header_size m + len))
      ≡ 0
unfolding build_segment
checksum_pseudo-build_segment t pool our_ip seg flags seq off len m hp ho hr hs f l =
    let d = unsummed_segment t pool flags seq off len m seg in
    let zero_place = unsummed-urgent t pool seg flags seq off len m in
    let slen = u16 (header_size m + len) in
    checksum_pseudo-patch our_ip t.remote_ip ipproto_tcp d slen 8
      (checksum_pseudo our_ip t.remote_ip ipproto_tcp d slen) ho hr (omega arith)
      (unsummed-IsBytes t pool seg flags seq off len m hp hs f) (omega arith) (ground arith)
      (inl (rw (patch-zero d 16 zero_place.0 zero_place.1) refl))
