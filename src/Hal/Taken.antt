-- ===== src/Hal/Taken.antt =====
-- What the driver of src/hal/mn_eth45e100.c delivers.
use mega_net.Base.{length, offset, u8, ℕ, ◌+◌, ◌≤◌, ◌≡◌, ◌⊎◌, false, none, [], ◌∷◌, ◌++◌, arith}
use mega_net.Hal.Bus.{store, Bus, peek_reg}
use mega_net.Hal.Eth.{
  eth_ctrl2, ctrl2_rxwaiting, meta1_crcerr, fcs_len, Eth, set_dbg, bit_set, count_poll, meta_len,
  eth_rx,
}
use mega_net.Net.State.{Frame}

-- What is delivered of a rotated ring.
abbrev IsTaken : Eth → ℕ → Frame → Type 0
IsTaken e cap frame =
    (frame.len ≤ cap)
    × (frame.len + fcs_len ≤ meta_len e.meta)
    × (frame.len ≡ cap ⊎ frame.len + fcs_len ≡ meta_len e.meta)
    × (bit_set (e.meta 1) meta1_crcerr ≡ false)
    × (frame.bytes ≡ offset (e.bus.shown (length e.bus.trace)) 2)

-- The driver with a poll counted.
abbrev polled : Eth → Eth
polled e = let p = peek_reg e.bus eth_ctrl2 in count_poll (set_dbg (record e { bus = p.0 }) 1 p.1)

-- What the rotation does: the two stores, and the metadata of what is shown after them.
abbrev IsRotated : Eth → Eth → Type 0
IsRotated e r =
    (r.bus.trace ≡ e.bus.trace ++ (store eth_ctrl2 0x01 ∷ store eth_ctrl2 0x03 ∷ []))
    × (r.bus.shown ≡ e.bus.shown)
    × (r.meta 0 ≡ r.bus.shown (length r.bus.trace) 0)
    × (r.meta 1 ≡ r.bus.shown (length r.bus.trace) 1)

-- What is claimed of a delivery.
abbrev pub Delivers : Eth → ℕ → Frame → Eth → Type 0
Delivers e cap frame r = IsRotated e r × IsTaken r cap frame

-- A poll that finds nothing waiting stores nothing.
pub eth_rx-idle :
    (e : Eth) (cap : ℕ)
    → bit_set (u8 (e.bus.read e.bus.reads eth_ctrl2)) ctrl2_rxwaiting ≡ false
    → ((eth_rx e cap).1 ≡ none) × ((eth_rx e cap).0.bus.trace ≡ e.bus.trace)
unfolding eth_rx count_poll peek_reg
eth_rx-idle e cap h = ground arith
