-- ===== src/Hal/Eth.antt =====
-- The driver of src/hal/mn_eth45e100.c.
use mega_net.Base.{
  length, Mem, poke, offset, copy_from, copy, ltb, leb, ◌==◌, if◌then◌else◌, u8, u16, sub16, ℕ,
  zero, suc, ◌+◌, ◌-◌, ◌*◌, ◌/◌, ◌^◌, bit_and, bit_or, Bool, true, false, not, ◌&&◌, ◌||◌, Option,
  none, some,
}
use mega_net.Hal.Bus.{
  transfer, Bus, peek_reg, does, poke_reg, frame_count, io_enable, wait_rounds, next_spins,
  next_wraps, stalled, wait_frames,
}
use mega_net.Net.State.{Frame, zero_ip}
use mega_net.Wire.Ether.{eth_addr_len, max_frame}

abbrev pub eth_ctrl1 : ℕ
eth_ctrl1 = 0xD6E0

abbrev pub eth_ctrl2 : ℕ
eth_ctrl2 = 0xD6E1

abbrev pub eth_txsizel : ℕ
eth_txsizel = 0xD6E2

abbrev pub eth_txsizeh : ℕ
eth_txsizeh = 0xD6E3

abbrev pub eth_command : ℕ
eth_command = 0xD6E4

abbrev pub eth_ctrl3 : ℕ
eth_ctrl3 = 0xD6E5

abbrev pub eth_mac : ℕ
eth_mac = 0xD6E9

abbrev pub ctrl1_txidle : ℕ
ctrl1_txidle = 0x80

abbrev pub ctrl2_rxwaiting : ℕ
ctrl2_rxwaiting = 0x20

abbrev pub meta1_crcerr : ℕ
meta1_crcerr = 0x80

abbrev pub min_frame : ℕ
min_frame = 60

abbrev pub fcs_len : ℕ
fcs_len = 4

-- The driver's statics, and the hardware behind them; `dbg` is `mn_eth_dbg`.
pub record Eth : Type 0 where
  pub bus : Bus
  pub pad : Mem
  pub meta : Mem
  pub dbg : Mem

abbrev pub set_dbg : Eth → ℕ → ℕ → Eth
set_dbg e i v = record e { dbg = poke e.dbg i v }

-- Whether a bit of a register is set.
abbrev pub bit_set : ℕ → ℕ → Bool
bit_set v mask = not (bit_and v mask == 0)

-- `if (++mn_eth_dbg[3] == 0) mn_eth_dbg[4]++`
unfoldable pub count_poll : Eth → Eth
count_poll e =
    let e1 = set_dbg e 3 (u8 (e.dbg 3 + 1)) in
    if e1.dbg 3 == 0 then set_dbg e1 4 (u8 (e1.dbg 4 + 1)) else e1

-- The rotation of the receive ring, and the metadata that it shows: the length and the flags.
unfoldable pub rotate : Eth → Eth
rotate e =
    let b = poke_reg (poke_reg e.bus eth_ctrl2 0x01) eth_ctrl2 0x03 in
    let meta = copy e.meta (b.shown (length b.trace)) 2 in
    let e1 = record e { bus = b; meta = meta } in set_dbg (set_dbg e1 6 (meta 0)) 7 (meta 1)

-- `(uint16_t)(meta[0] | ((uint16_t)(meta[1] & 0x0f) << 8))`
unfoldable pub meta_len : Mem → ℕ
meta_len meta = u16 (bit_or (meta 0) (u16 (bit_and (meta 1) 0x0f * 2 ^ 8)))

-- What `eth_rx` delivers of a rotated ring.
unfoldable pub take_frame : Eth → ℕ → Option Frame
take_frame e cap =
    let n = meta_len e.meta in
    let len = sub16 n fcs_len in
    if leb n fcs_len || bit_set (e.meta 1) meta1_crcerr
    then none
    else some (record {
      bytes = offset (e.bus.shown (length e.bus.trace)) 2;
      len = if ltb cap len then cap else len;
    })

unfoldable pub eth_rx : Eth → ℕ → Eth × Option Frame
eth_rx e cap =
    let (b, v) = peek_reg e.bus eth_ctrl2 in
    let e1 = count_poll (set_dbg (record e { bus = b }) 1 v) in
    let e2 = rotate e1 in
    if not (bit_set v ctrl2_rxwaiting) then (e1, none) else (e2, take_frame e2 cap)

-- The wait of `eth_tx` for the transmitter: the driver, and the locals of the loop.
pub record Wait : Type 0 where
  pub eth : Eth
  pub last : ℕ
  pub seen : ℕ
  pub spins : ℕ
  pub wraps : ℕ

pub data Round : Type 0 where
  again : Wait → Round
  over : Eth → Bool → Round

-- The locals after a round in which the frame counter was at `cur`.
abbrev pub waited : Wait → Eth → ℕ → Wait
waited w e cur = record {
  eth = e;
  last = cur;
  seen = if cur == w.last then w.seen else u8 (w.seen + 1);
  spins = next_spins w.spins;
  wraps = next_wraps w.spins w.wraps;
}

-- The half of a round in which the transmitter was busy.
unfoldable pub busy : Wait → Eth → Round
busy w e =
    let (b, cur) = peek_reg e.bus frame_count in
    let e1 = record e { bus = b } in
    let w1 = waited w e1 cur in
    if not (cur == w.last) && leb 50 w1.seen
    then over (set_dbg e1 2 2) false
    else if stalled w.spins w.wraps
    then over (set_dbg e1 2 3) false
    else again w1

unfoldable pub tx_round : Wait → Round
tx_round w =
    let (b, v) = peek_reg w.eth.bus eth_ctrl1 in
    let e = set_dbg (record w.eth { bus = b }) 0 v in
    if bit_set v ctrl1_txidle then over e true else busy w e

-- What a round leads to, where `rest` is the rest of the loop.
abbrev pub go_on : (Wait → Option (Eth × Bool)) → Round → Option (Eth × Bool)
go_on rest (again w) = rest w
go_on rest (over e ok) = some (e, ok)

-- The loop, on fuel: the driver, and whether the transmitter is idle; `none` is no end within the fuel.
unfoldable pub tx_wait : ℕ → Wait → Option (Eth × Bool)
tx_wait zero w = none
tx_wait (suc f) w = go_on (tx_wait f) (tx_round w)

-- `pad` with a short frame and the link-layer padding after it.
unfoldable pub padding : Mem → Mem → ℕ → Mem
padding pad buf len = copy_from (min_frame - len) len (copy pad buf len) zero_ip

-- The frame that is transmitted, and its length: a short one is padded in `pad`.
unfoldable pub padded : Mem → Mem → ℕ → Mem × ℕ
padded pad buf len = if ltb len min_frame then (padding pad buf len, min_frame) else (buf, len)

unfoldable pub keep_pad : Eth → Mem → ℕ → Eth
keep_pad e buf len = if ltb len min_frame then record e { pad = padding e.pad buf len } else e

-- The stores and the copy that come before the wait.
unfoldable pub stage : Eth → Mem → ℕ → Eth
stage e buf len =
    let b1 = poke_reg (poke_reg e.bus eth_txsizel (bit_and len 0xff)) eth_txsizeh (len / 2 ^ 8) in
    record e { bus = poke_reg (does b1 (transfer buf len)) eth_ctrl1 0x03 }

-- After the wait; the fuel is enough, so that `none` does not occur.
unfoldable pub finish : Option (Eth × Bool) → Eth → Eth × Bool
finish none e = (e, false)
finish (some (e', true)) e =
    (set_dbg (record e' { bus = poke_reg e'.bus eth_command 0x01 }) 2 0, true)
finish (some (e', false)) e = (e', false)

abbrev pub waiting_for : Eth → Wait
waiting_for e =
    let (b, last) = peek_reg e.bus frame_count in
    record { eth = record e { bus = b }; last = last; seen = 0; spins = 0; wraps = 0 }

unfoldable pub eth_tx : Eth → Mem → ℕ → Eth × Bool
eth_tx e buf len =
    let e1 = set_dbg e 5 (u8 (e.dbg 5 + 1)) in
    let (out, n) = padded e1.pad buf len in
    let e2 = stage (keep_pad e1 buf len) out n in
    if ltb max_frame len
    then (set_dbg e1 2 1, false)
    else finish (tx_wait wait_rounds (waiting_for e2)) e2

-- The loop of `mn_eth45e100_init` over the station's address, with `n` rounds left at `i`.
unfoldable pub read_mac : ℕ → ℕ → Bus → Mem → Bus × Mem
read_mac zero i b mac = (b, mac)
read_mac (suc n) i b mac =
    let (b1, v) = peek_reg b (eth_mac + i) in read_mac n (i + 1) b1 (poke mac i v)

-- Reset, release, and the pulse of the transmitter's state machine.
unfoldable pub reset_eth : Bus → Bus
reset_eth b =
    let b1 = wait_frames (poke_reg b eth_ctrl1 0x00) 5 in
    let b2 = wait_frames (poke_reg b1 eth_ctrl1 0x03) 5 in
    let b3 = poke_reg (poke_reg b2 eth_ctrl2 0x03) eth_ctrl2 0x00 in
    poke_reg (wait_frames b3 200) eth_ctrl2 0x00

-- `mn_eth45e100_init`: the hardware, and the address read from it.
unfoldable pub eth_init : Bus → Mem → Bus × Mem
eth_init b mac =
    let (b1, v) = peek_reg (io_enable b) eth_ctrl3 in
    let b2 = poke_reg b1 eth_ctrl3 (bit_or (bit_and v 0xdf) 0x11) in
    let (b3, mac') = read_mac eth_addr_len 0 b2 mac in (reset_eth b3, mac')
