-- ===== src/Caller/Calls.antt =====
-- What the staging of src/abi/meganet.h comes to: a call of the entry with the given registers.
use mega_net.Base.{bit_and-255, Mem, u8, ℕ, ◌+◌, ◌/◌, ◌^◌, ◌<◌, bit_and, ◌≡◌, refl, arith}
use mega_net.Api.Blocks.{ptr28_lem, get16_le_lem}
use mega_net.Api.State.{Machine, ptr28, get16_le}
use mega_net.Api.Table.{Entry, entry_init, World, call}
use mega_net.Caller.Entries.{entry_at-meganet_addr}
use mega_net.Caller.Staging.{
  meganet_addr, meganet_tr, load16, keep_results, tr_call, stage_call, meganet_call,
}

-- A number of two bytes as the wrappers split it.
pub word_bytes :
    (b : Mem) (k v : ℕ)
    → v < 2 ^ 16
    → b k ≡ u8 (bit_and v 0xff)
    → b (k + 1) ≡ u8 (v / 2 ^ 8)
    → get16_le b k ≡ v
word_bytes b k v h p q = ground (arith, get16_le_lem b k, bit_and-255 v)

pub ptr28-word : (v : ℕ) → v < 2 ^ 16 → ptr28 (u8 v) (u8 (v / 2 ^ 8)) 0 ≡ v
ptr28-word v h =
    omega (arith, ptr28_lem (u8 v) (u8 (v / 2 ^ 8)) 0 (omega arith) (omega arith) (omega arith))

pub u8-low : (v : ℕ) → u8 (bit_and v 0xff) ≡ u8 v
u8-low v = omega (arith, bit_and-255 v)

pub ptr28-low : (v : ℕ) → v < 2 ^ 16 → ptr28 (u8 (bit_and v 0xff)) (u8 (v / 2 ^ 8)) 0 ≡ v
ptr28-low v h = rw (u8-low v) (ptr28-word v h)

meganet_addr-word : (e : Entry) → meganet_addr e < 2 ^ 16
meganet_addr-word entry_init = omega arith
meganet_addr-word e = omega arith

staged-addr :
    (addr a x y z : ℕ) (m : Machine)
    → addr < 2 ^ 16
    → load16 (stage_call addr a x y z m) meganet_tr ≡ addr
unfolding stage_call
staged-addr addr a x y z m h =
    word_bytes (stage_call addr a x y z m).sys.pool meganet_tr addr h refl refl

pub meganet_call_lem :
    (w : World) (e : Entry) (a x y z : ℕ) (m : Machine)
    → meganet_call w e a x y z m
      ≡ keep_results (call e w a x y z (stage_call (meganet_addr e) a x y z m))
unfolding meganet_call tr_call stage_call
meganet_call_lem w e a x y z m =
    rw (staged-addr (meganet_addr e) a x y z m (meganet_addr-word e), entry_at-meganet_addr e) refl
