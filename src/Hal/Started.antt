-- ===== src/Hal/Started.antt =====
-- What bringing up the controller, in src/hal/mn_eth45e100.c, leaves in its registers.
use mega_net.Base.{Mem, u8, ℕ, zero, suc, ◌+◌, bit_and, bit_or, ◌≡◌, refl, List, [], ◌∷◌, ◌++◌}
use mega_net.Hal.Bus.{Op, store, Bus, peek_reg, poke_reg, io_enable}
use mega_net.Hal.Eth.{eth_ctrl1, eth_ctrl2, eth_ctrl3, read_mac, reset_eth, eth_init}
use mega_net.Hal.Waiting.{trace-wait_frames}
use mathlib.Core.List.{append_assoc}

-- The registers that bringing the controller up stores, where `v` was read from CTRL3.
abbrev pub bringing_up : ℕ → List Op
bringing_up v =
    store 0xD02F 0x47
    ∷ store 0xD02F 0x53
    ∷ store eth_ctrl3 (u8 (bit_or (bit_and v 0xdf) 0x11))
    ∷ store eth_ctrl1 0x00
    ∷ store eth_ctrl1 0x03
    ∷ store eth_ctrl2 0x03
    ∷ store eth_ctrl2 0x00
    ∷ store eth_ctrl2 0x00
    ∷ []

trace-read_mac : (n i : ℕ) (b : Bus) (mac : Mem) → (read_mac n i b mac).0.trace ≡ b.trace
unfolding read_mac peek_reg
trace-read_mac zero i b mac = refl
trace-read_mac (suc n) i b mac = trace-read_mac n (i + 1) _ _

trace-reset_eth :
    (b : Bus)
    → (reset_eth b).trace
      ≡ b.trace
        ++ (store eth_ctrl1 0x00
            ∷ store eth_ctrl1 0x03
            ∷ store eth_ctrl2 0x03
            ∷ store eth_ctrl2 0x00
            ∷ store eth_ctrl2 0x00
            ∷ [])
unfolding reset_eth poke_reg
trace-reset_eth b = simp (trace-wait_frames, append_assoc) refl

pub eth_init-trace :
    (b : Bus) (mac : Mem)
    → (eth_init b mac).0.trace ≡ b.trace ++ bringing_up (u8 (b.read b.reads eth_ctrl3))
unfolding eth_init io_enable poke_reg peek_reg
eth_init-trace b mac = simp (trace-reset_eth, trace-read_mac, append_assoc) refl
