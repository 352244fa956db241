-- ===== src/Api/Clock.antt =====
-- The clock's registers as src/abi/api.c writes them.
use mega_net.Base.{
  bit_or-shifted, bit_or_comm, Mem, offset, u8, ℕ, ◌+◌, ◌*◌, ◌/◌, ◌%◌, ◌^◌, ◌<◌, bit_or, ◌≡◌, sym,
  ◌∙◌, arith,
}
use mega_net.Api.Blocks.{dma_copy_out-inside, get16_le_lem, fetch_blk-inside}
use mega_net.Api.Clients.{bcd, rtc_base, rtc_regs, api_set_rtc}
use mega_net.Api.State.{Machine, arg_ptr, get16_le, fetch_blk, put_out}

-- A number of two decimal digits in a register.
abbrev pub unbcd : ℕ → ℕ
unbcd r = r / 2 ^ 4 * 10 + r % 2 ^ 4

bcd_lem : (v : ℕ) → v < 100 → bcd v ≡ v / 10 * 2 ^ 4 + v % 10
unfolding bcd
bcd_lem v h = ground (arith, bit_or-shifted 4 (v / 10) (v % 10))

pub unbcd-bcd : (v : ℕ) → v < 100 → unbcd (bcd v) ≡ v
unbcd-bcd v h = omega (arith, bcd_lem v h)

-- The hour has bit 7 set beside its digits.
hour_reg : (v : ℕ) → v < 80 → u8 (bit_or (bcd v) 0x80) ≡ 0x80 + bcd v
hour_reg v h = omega (arith, bit_or_comm (bcd v) 0x80, bit_or-shifted 7 1 (bcd v), bcd_lem v)

-- A block that SET_RTC takes: year, month, day, hour, minute, second and weekday.
pub record IsTime (b : Mem) : Type 0 where
  pub year : (b 0 < 256) × (b 1 < 256)
  pub month : b 2 < 100
  pub day : b 3 < 100
  pub hour : b 4 < 80
  pub minute : b 5 < 100
  pub second : b 6 < 100
  pub weekday : b 7 < 100

-- What the seven registers of a clock say of a block.
abbrev pub Shows : Mem → Mem → Type 0
Shows r b =
    (unbcd (r 0) ≡ b 6)
    × (unbcd (r 1) ≡ b 5)
    × (r 2 ≡ 0x80 + bcd (b 4))
    × (unbcd (r 3) ≡ b 3)
    × (unbcd (r 4) ≡ b 2)
    × (unbcd (r 5) ≡ (b 0 + b 1 * 2 ^ 8) % 100)
    × (unbcd (r 6) ≡ b 7)

rtc_regs-Shows : (b : Mem) → IsTime b → Shows (rtc_regs b) b
unfolding rtc_regs
rtc_regs-Shows b t = (
  unbcd-bcd (b 6) t.second,
  unbcd-bcd (b 5) t.minute,
  hour_reg (b 4) t.hour,
  unbcd-bcd (b 3) t.day,
  unbcd-bcd (b 2) t.month,
  unbcd-bcd (u8 (get16_le b 0 % 100)) (omega arith) ∙ year,
  unbcd-bcd (b 7) t.weekday,
)
  where
    year : u8 (get16_le b 0 % 100) ≡ (b 0 + b 1 * 2 ^ 8) % 100
    year = omega (arith, get16_le_lem b 0 t.year.0 t.year.1)

-- Only the bytes of the block matter.
IsTime-congr : (b c : Mem) → ((i : ℕ) → i < 8 → c i ≡ b i) → IsTime b → IsTime c
IsTime-congr b c p t = record {
  year = (rw (p 0 (omega arith)) t.year.0, rw (p 1 (omega arith)) t.year.1);
  month = rw (p 2 (omega arith)) t.month;
  day = rw (p 3 (omega arith)) t.day;
  hour = rw (p 4 (omega arith)) t.hour;
  minute = rw (p 5 (omega arith)) t.minute;
  second = rw (p 6 (omega arith)) t.second;
  weekday = rw (p 7 (omega arith)) t.weekday;
}

Shows-congr :
    (r s b c : Mem)
    → ((i : ℕ) → i < 7 → s i ≡ r i)
    → ((i : ℕ) → i < 8 → c i ≡ b i)
    → Shows r b
    → Shows s c
Shows-congr r s b c p q h = (
  rw (p 0 (omega arith), q 6 (omega arith)) h.0,
  rw (p 1 (omega arith), q 5 (omega arith)) h.1,
  rw (p 2 (omega arith), q 4 (omega arith)) h.2,
  rw (p 3 (omega arith), q 3 (omega arith)) h.3,
  rw (p 4 (omega arith), q 2 (omega arith)) h.4,
  rw (p 5 (omega arith), q 0 (omega arith), q 1 (omega arith)) h.5,
  rw (p 6 (omega arith), q 7 (omega arith)) h.6,
)

-- SET_RTC of a block whose fields have two decimal digits, the hour below 80, leaves in the seven
-- registers of the clock the seconds, minutes, day, month, last two digits of the year and
-- weekday of the block as BCD that reads back as given, and the hour as BCD with bit 7 set.
pub set_rtc-Shows :
    (m : Machine)
    → IsTime (offset m.sys.pool (arg_ptr m))
    → Shows (offset (api_set_rtc m).sys.pool rtc_base) (offset m.sys.pool (arg_ptr m))
unfolding api_set_rtc put_out
set_rtc-Shows m t =
    let b : Mem = (fetch_blk m 8).blk in
    let arg : Mem = offset m.sys.pool (arg_ptr m) in
    Shows-congr (rtc_regs b) (offset (api_set_rtc m).sys.pool rtc_base) b arg
      (λ i h. dma_copy_out-inside (fetch_blk m 8).sys.pool (rtc_regs b) rtc_base 7 i h)
      (λ i h. sym (fetch_blk-inside m 8 i h))
      (rtc_regs-Shows b (IsTime-congr arg b (λ i h. fetch_blk-inside m 8 i h) t))
