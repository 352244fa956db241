-- ===== src/Dhcp/Message.antt =====
-- The messages of src/net/mn_dhcp.c: `build`, `walk` and `parse`.
use mega_net.Base.{
  Mem, poke, offset, write_at, copy, eq, ltb, leb, ◌==◌, if◌then◌else◌, u16, ℕ, zero, suc, ◌+◌, ◌-◌,
  bit_and, Bool, false, not, ◌&&◌, ◌||◌,
}
use mega_net.Dhcp.State.{Dhcp, is_bound, msg_request, dhcp_hdr_len, cookie_len, min_len, cookie}
use mega_net.Net.State.{Net, copy4}
use mega_net.Tcp.State.{code}
use mega_net.Wire.Byteorder.{get32}

-- The fixed part of a message, up to the cookie.
unfoldable pub bootp_header : Mem → Dhcp → Net → Mem → Mem
bootp_header msg d net mac =
    let m1 = poke (poke (poke (copy msg (λ _. 0) min_len) 0 1) 1 1) 2 6 in
    let m2 = write_at m1 4 (λ m. copy m d.xid 4) in
    let m3 = poke m2 10 (if is_bound d.state then 0x00 else 0x80) in
    let m4 = if is_bound d.state then write_at m3 12 (λ m. copy4 m net.ip) else m3 in
    let m5 = write_at m4 28 (λ m. copy m mac 6) in write_at m5 dhcp_hdr_len (λ m. copy m cookie 4)

-- The requested address and the server's identifier, at `o`.
abbrev pub selection_options : Mem → Dhcp → ℕ → Mem
selection_options m d o =
    let m1 = poke (poke m o 50) (o + 1) 4 in
    let m2 = write_at m1 (o + 2) (λ p. copy4 p d.offered_ip) in
    let m3 = poke (poke m2 (o + 6) 54) (o + 7) 4 in write_at m3 (o + 8) (λ p. copy4 p d.server_id)

-- The parameter request and the end mark, at `o`.
abbrev pub last_options : Mem → ℕ → Mem
last_options m o =
    let m1 = poke (poke m o 55) (o + 1) 4 in
    let m2 = poke (poke (poke (poke m1 (o + 2) 1) (o + 3) 3) (o + 4) 6) (o + 5) 51 in
    poke m2 (o + 6) 255

-- `build`: the message in `msg`, and its length.
unfoldable pub dhcp_build : Mem → Dhcp → Net → Mem → ℕ → Mem × ℕ
dhcp_build msg d net mac type =
    let o = dhcp_hdr_len + cookie_len in
    let m1 = bootp_header msg d net mac in
    let m2 = poke (poke (poke m1 o 53) (o + 1) 1) (o + 2) type in
    let selects = type == msg_request && not (is_bound d.state) in
    let m3 = if selects then selection_options m2 d (o + 3) else m2 in
    let o3 = if selects then o + 15 else o + 3 in
    (last_options m3 o3, if ltb (o3 + 7) min_len then min_len else o3 + 7)

-- What `walk` fills in: the machine's record, `*type` and `*overload`.
pub record Walk : Type 0 where
  pub d : Dhcp
  pub type : ℕ
  pub overload : ℕ

-- The `switch` over an option of length `olen` at `p`.
unfoldable pub take_option : Walk → ℕ → ℕ → Mem → Walk
take_option w code olen p =
    if code == 53
    then (if leb 1 olen then record w { type = p 0 } else w)
    else if code == 52
    then (if leb 1 olen then record w { overload = p 0 } else w)
    else if not (leb 4 olen)
    then w
    else if code == 1
    then record w { d = record w.d { mask = copy4 w.d.mask p } }
    else if code == 3
    then record w { d = record w.d { gw = copy4 w.d.gw p } }
    else if code == 6
    then record w { d = record w.d { dns = copy4 w.d.dns p } }
    else if code == 54
    then record w { d = record w.d { server_id = copy4 w.d.server_id p } }
    else if code == 51
    then record w { d = record w.d { lease_s = get32 p } }
    else w

-- `walk` over `m[o..end)`, on fuel: each round moves on by a byte at least.
unfoldable pub walk : ℕ → Walk → Mem → ℕ → ℕ → Walk
walk zero w m o end = w
walk (suc f) w m o end =
    let code = m o in
    let olen = m (o + 1) in
    let after_pad = walk f w m (o + 1) end in
    let after_option =
      walk f (take_option w code olen (offset m (o + 2))) m (u16 (o + 2 + olen)) end in
    if not (ltb o end)
    then w
    else if code == 255
    then w
    else if code == 0
    then after_pad
    else if leb end (o + 1)
    then w
    else if ltb end (u16 (o + 2 + olen))
    then w
    else after_option

-- Whether a message of `len` bytes answers our transaction.
unfoldable pub is_for_us : Dhcp → Mem → Mem → ℕ → Bool
is_for_us d mac m len =
    if ltb len (dhcp_hdr_len + cookie_len) || not (m 0 == 2)
    then false
    else if not (eq (offset m 4) d.xid 4)
    then false
    else if not (eq (offset m 28) mac 6)
    then false
    else eq (offset m dhcp_hdr_len) cookie 4

abbrev pub off_sname : ℕ
off_sname = 44

abbrev pub off_file : ℕ
off_file = 108

-- The three option areas. The fuel of each walk is the length of its area.
unfoldable pub walk_all : Dhcp → Mem → ℕ → Walk
walk_all d m len =
    let o = dhcp_hdr_len + cookie_len in
    let w1 = walk (len - o) (record { d = d; type = 0; overload = 0 }) m o len in
    let w2 =
      if bit_and w1.overload 1 == 0
      then w1
      else walk (dhcp_hdr_len - off_file) w1 m off_file dhcp_hdr_len in
    if bit_and w2.overload 2 == 0 then w2 else walk (off_file - off_sname) w2 m off_sname off_file

-- `parse`: the machine, `yiaddr` and the message type, 0 if the message is not for us.
unfoldable pub dhcp_parse : Dhcp → Mem → Mem → ℕ → Mem → Dhcp × Mem × ℕ
dhcp_parse d mac m len yiaddr =
    if not (is_for_us d mac m len)
    then (d, yiaddr, 0)
    else (let w = walk_all d m len in (w.d, copy4 yiaddr (offset m 16), w.type))
