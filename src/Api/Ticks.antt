-- ===== src/Api/Ticks.antt =====
-- The 16-bit clock of src/abi/api.c over the 8-bit frame counter.
use mega_net.Base.{u16, ℕ, ◌+◌, ◌%◌, ◌^◌, ◌<◌, ◌≡◌, refl, List, [], ◌∷◌, arith}
use mega_net.Api.State.{Machine, tick}

-- The sum of the gaps.
abbrev pub total : List ℕ → ℕ
total [] = 0
total (g ∷ gaps) = g + total gaps

-- Each gap is shorter than a turn of the counter.
abbrev pub AllShort : List ℕ → Type 0
AllShort [] = Unit
AllShort (g ∷ gaps) = (g < 2 ^ 8) × AllShort gaps

-- Reading the clock after each of the gaps, from frame `n` of the video on.
unfoldable pub ticks_over : ℕ → List ℕ → Machine → Machine
ticks_over n [] m = m
ticks_over n (g ∷ gaps) m = ticks_over (n + g) gaps (tick ((n + g) % 2 ^ 8) m)

tick_lem :
    (n g : ℕ) (m : Machine)
    → m.last_frame ≡ n % 2 ^ 8
    → g < 2 ^ 8
    → (tick ((n + g) % 2 ^ 8) m).ticks ≡ u16 (m.ticks + g)
unfolding tick
tick_lem n g m h s = omega arith

last_frame-tick : (f : ℕ) (m : Machine) → (tick f m).last_frame ≡ f
unfolding tick
last_frame-tick f m = refl

-- When the frame counter is read after gaps of fewer than 256 frames each, beginning in step with
-- it, the 16-bit clock advances by the sum of the gaps.
pub ticks-ticks_over :
    (n : ℕ) (gaps : List ℕ) (m : Machine)
    → m.last_frame ≡ n % 2 ^ 8
    → m.ticks < 2 ^ 16
    → AllShort gaps
    → (ticks_over n gaps m).ticks ≡ u16 (m.ticks + total gaps)
unfolding ticks_over
ticks-ticks_over n [] m h w s = omega arith
ticks-ticks_over n (g ∷ gaps) m h w s =
    let m1 = tick ((n + g) % 2 ^ 8) m in
    let e = tick_lem n g m h s.0 in
    omega (
      arith,
      e,
      ticks-ticks_over (n + g) gaps m1 (last_frame-tick ((n + g) % 2 ^ 8) m) (omega (arith, e)) s.1,
    )
