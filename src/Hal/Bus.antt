-- ===== src/Hal/Bus.antt =====
-- The registers of src/hal/mn_m65.h. The hardware is a parameter: `read` says what the n-th load of a
-- register gives, and `shown` what the receive window holds after a number of operations.
use mega_net.Base.{
  Mem, ltb, leb, ◌==◌, if◌then◌else◌, u8, u16, ℕ, zero, suc, ◌+◌, ◌*◌, ◌^◌, Bool, true, false, ◌&&◌,
  Option, none, some, List, [], ◌∷◌, ◌++◌,
}

-- What the program does to the hardware: a store to a register, or a DMA copy into the frame buffer.
pub data Op : Type 0 where
  store : ℕ → ℕ → Op
  transfer : Mem → ℕ → Op

pub record Bus : Type 0 where
  pub read : ℕ → ℕ → ℕ
  pub shown : ℕ → Mem
  pub reads : ℕ
  pub trace : List Op

-- `MN_PEEK`
unfoldable pub peek_reg : Bus → ℕ → Bus × ℕ
peek_reg b addr = (record b { reads = b.reads + 1 }, u8 (b.read b.reads addr))

abbrev pub does : Bus → Op → Bus
does b op = record b { trace = b.trace ++ (op ∷ []) }

-- `MN_POKE`
unfoldable pub poke_reg : Bus → ℕ → ℕ → Bus
poke_reg b addr v = does b (store addr (u8 v))

abbrev pub frame_count : ℕ
frame_count = 0xD7FA

-- `mn_m65_io_enable`
unfoldable pub io_enable : Bus → Bus
io_enable b = poke_reg (poke_reg b 0xD02F 0x47) 0xD02F 0x53

-- The bound on the rounds of a wait: 200 rounds of a 16-bit counter.
abbrev pub max_wraps : ℕ
max_wraps = 200

unfoldable pub wait_rounds : ℕ
wait_rounds = 200 * 2 ^ 16

-- `++spins`, and `wraps` after `++spins == 0 && ++wraps`.
abbrev pub next_spins : ℕ → ℕ
next_spins spins = u16 (spins + 1)

abbrev pub next_wraps : ℕ → ℕ → ℕ
next_wraps spins wraps = if next_spins spins == 0 then u8 (wraps + 1) else wraps

abbrev pub stalled : ℕ → ℕ → Bool
stalled spins wraps = next_spins spins == 0 && leb max_wraps (next_wraps spins wraps)

-- The loop of `mn_m65_wait_frames`, on fuel; `none` is no end within the fuel.
unfoldable pub wait_from : ℕ → Bus → ℕ → ℕ → ℕ → ℕ → ℕ → Option Bus
wait_from zero b frames last seen spins wraps = none
wait_from (suc f) b frames last seen spins wraps = elim (ltb seen frames) [
  | false ↦ some b
  | true ↦
      let (b1, cur) = peek_reg b frame_count in
      let seen' = if cur == last then seen else u8 (seen + 1) in
      elim (stalled spins wraps) [
        | true ↦ some b1
        | false ↦ wait_from f b1 frames cur seen' (next_spins spins) (next_wraps spins wraps)
      ]
]

abbrev pub or_else : Option Bus → Bus → Bus
or_else none b = b
or_else (some b') b = b'

-- `mn_m65_wait_frames`; the fuel is enough, so that the second bus is never taken.
unfoldable pub wait_frames : Bus → ℕ → Bus
wait_frames b frames =
    let (b1, last) = peek_reg b frame_count in
    or_else (wait_from (wait_rounds + 1) b1 frames last 0 0 0) b1
