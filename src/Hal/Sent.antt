-- ===== src/Hal/Sent.antt =====
-- What the driver of src/hal/mn_eth45e100.c transmits.
use mega_net.Base.{
  Mem, copy, copy_from_lem, copy_lem, ltb, if◌then◌else◌, u8, ℕ, ◌+◌, ◌-◌, ◌/◌, ◌^◌, ◌≤◌, ◌<◌,
  bit_and, ◌≡◌, Bool, true, false, List, [], ◌∷◌, ◌++◌, arith,
}
use mega_net.Hal.Bus.{Op, store, transfer, Bus}
use mega_net.Hal.Eth.{
  eth_ctrl1, eth_txsizel, eth_txsizeh, eth_command, ctrl1_txidle, min_frame, Eth, set_dbg, bit_set,
  padding, padded, keep_pad, stage,
}
use mega_net.Net.State.{zero_ip}

padding_lem :
    (pad buf : Mem) (len j : ℕ)
    → len ≤ min_frame
    → j < min_frame
    → padding pad buf len j ≡ (if ltb j len then buf j else 0)
unfolding padding
padding_lem pad buf len j p q = ground (
  arith,
  copy_from_lem (min_frame - len) len (copy pad buf len) zero_ip j,
  copy_lem pad buf len j,
)

-- The frame of a transmission: its length, and its bytes.
pub padded_lem :
    (pad buf : Mem) (len j : ℕ)
    → j < (padded pad buf len).1
    → ((padded pad buf len).1 ≡ (if ltb len min_frame then min_frame else len))
      × ((padded pad buf len).0 j ≡ (if ltb j len then buf j else 0))
unfolding padded
padded_lem pad buf len j h = ground (arith, padding_lem pad buf len j)

-- The operations that put a frame of `n` bytes before the transmitter.
abbrev pub staging : Mem → ℕ → List Op
staging out n =
    store eth_txsizel (u8 (bit_and n 0xff))
    ∷ store eth_txsizeh (u8 (n / 2 ^ 8))
    ∷ transfer out n
    ∷ store eth_ctrl1 0x03
    ∷ []

abbrev pub command : Op
command = store eth_command 0x01

-- The trace of a transmission, by what it answers.
abbrev pub transmission : Bool → Mem → ℕ → List Op
transmission true out n = staging out n ++ (command ∷ [])
transmission false out n = staging out n

-- What a transmission does, where `r` is what the wait came to.
abbrev IsSent : Eth → Eth × Bool → Type 0
IsSent e r =
    (r.0.bus.trace ≡ (if r.1 then e.bus.trace ++ (command ∷ []) else e.bus.trace))
    × (r.1 ≡ true → bit_set (r.0.dbg 0) ctrl1_txidle ≡ true)

-- What is claimed of a transmission.
abbrev pub Sends : List Op → Mem → ℕ → Eth × Bool → Type 0
Sends l out n r =
    (r.0.bus.trace ≡ l ++ transmission r.1 out n)
    × (r.1 ≡ true → bit_set (r.0.dbg 0) ctrl1_txidle ≡ true)

-- The driver with an attempt counted and the frame before the transmitter.
abbrev readied : Eth → Mem → ℕ → Eth
readied e buf len =
    let p = padded e.pad buf len in
    stage (keep_pad (set_dbg e 5 (u8 (e.dbg 5 + 1))) buf len) p.0 p.1
