-- ===== src/Hal/Waiting.antt =====
-- The waits of src/hal: they end within their bounds, and only read the hardware.
use mega_net.Base.{
  ltb, leb, ◌==◌, if◌then◌else◌, u8, ℕ, zero, suc, ◌+◌, ◌*◌, ◌^◌, ◌≤◌, ◌<◌, ◌≡◌, refl, ◌∙◌, Bool,
  true, false, not, ◌&&◌, Option, none, some, arith,
}
use mega_net.Hal.Bus.{
  Bus, peek_reg, frame_count, max_wraps, wait_rounds, next_spins, next_wraps, stalled, wait_from,
  or_else, wait_frames,
}
use mega_net.Hal.Eth.{
  again, eth_ctrl1, ctrl1_txidle, Eth, set_dbg, bit_set, Wait, Round, over, waited, busy, tx_round,
  go_on, tx_wait,
}

-- The rounds left are covered by the fuel.
abbrev pub Covers : ℕ → ℕ → ℕ → Type 0
Covers fuel spins wraps =
    (spins < 2 ^ 16) × (wraps < max_wraps) × (200 * 2 ^ 16 ≤ wraps * 2 ^ 16 + spins + fuel)

Covers-next :
    (f spins wraps : ℕ)
    → Covers (suc f) spins wraps
    → stalled spins wraps ≡ false
    → Covers f (next_spins spins) (next_wraps spins wraps)
Covers-next f spins wraps c h = ground arith

not-Covers-zero : (spins wraps : ℕ) → ¬ Covers 0 spins wraps
not-Covers-zero spins wraps c = omega arith

-- What a round leaves alone, and what it ends with.
abbrev IsRound : Wait → Round → Type 0
IsRound w (again v) =
    (v.eth.bus.trace ≡ w.eth.bus.trace)
    × (v.spins ≡ next_spins w.spins)
    × (v.wraps ≡ next_wraps w.spins w.wraps)
    × (stalled w.spins w.wraps ≡ false)
IsRound w (over e ok) =
    (e.bus.trace ≡ w.eth.bus.trace) × (ok ≡ true → bit_set (e.dbg 0) ctrl1_txidle ≡ true)

either_round :
    (w : Wait) (b : Bool) (x y : Round)
    → (b ≡ true → IsRound w x)
    → (b ≡ false → IsRound w y)
    → IsRound w (if b then x else y)
either_round w true x y p q = p refl
either_round w false x y p q = q refl

busy-IsRound : (w : Wait) (e : Eth) → e.bus.trace ≡ w.eth.bus.trace → IsRound w (busy w e)
unfolding busy peek_reg
busy-IsRound w e h =
    let cur : ℕ = (peek_reg e.bus frame_count).1 in
    let e1 : Eth = record e { bus = (peek_reg e.bus frame_count).0 } in
    let w1 : Wait = waited w e1 cur in
    let late : Round = over (set_dbg e1 2 3) false in
    either_round w (not (cur == w.last) && leb 50 w1.seen) (over (set_dbg e1 2 2) false)
      (if stalled w.spins w.wraps then late else again w1) (λ t. (h, λ f. cc))
      λ t.
        either_round w (stalled w.spins w.wraps) late (again w1) (λ u. (h, λ f. cc))
          (λ u. (h, refl, refl, u))

tx_round-IsRound : (w : Wait) → IsRound w (tx_round w)
unfolding tx_round peek_reg
tx_round-IsRound w =
    let v : ℕ = (peek_reg w.eth.bus eth_ctrl1).1 in
    let e : Eth = set_dbg (record w.eth { bus = (peek_reg w.eth.bus eth_ctrl1).0 }) 0 v in
    either_round w (bit_set v ctrl1_txidle) (over e true) (busy w e) (λ t. (refl, λ f. t))
      (λ t. busy-IsRound w e refl)

-- What the wait for the transmitter comes to.
abbrev pub Ends : Wait → Option (Eth × Bool) → Type 0
Ends w none = ⊥
Ends w (some r) =
    (r.0.bus.trace ≡ w.eth.bus.trace) × (r.1 ≡ true → bit_set (r.0.dbg 0) ctrl1_txidle ≡ true)

Ends-earlier :
    (w v : Wait) (r : Option (Eth × Bool)) → v.eth.bus.trace ≡ w.eth.bus.trace → Ends v r → Ends w r
Ends-earlier w v none h e = e
Ends-earlier w v (some r) h e = (e.0 ∙ h, e.1)

go_on-Ends :
    (f : ℕ) (w : Wait) (r : Round)
    → Covers (suc f) w.spins w.wraps
    → ((v : Wait) → Covers f v.spins v.wraps → Ends v (tx_wait f v))
    → IsRound w r
    → Ends w (go_on (tx_wait f) r)
go_on-Ends f w (again v) c ih h =
    let covered : Covers f v.spins v.wraps = rw (h.1, h.2) (Covers-next f w.spins w.wraps c h.3) in
    Ends-earlier w v (tx_wait f v) h.0 (ih v covered)
go_on-Ends f w (over e ok) c ih h = h

-- The wait for the transmitter, begun anywhere with fuel for the rounds that are left, ends by one of
-- its tests, stores nothing, and says that the transmitter is idle only where its bit was read set.
pub tx_wait-Ends : (f : ℕ) (w : Wait) → Covers f w.spins w.wraps → Ends w (tx_wait f w)
unfolding tx_wait
tx_wait-Ends zero w c = absurd (not-Covers-zero w.spins w.wraps c)
tx_wait-Ends (suc f) w c = go_on-Ends f w (tx_round w) c (tx_wait-Ends f) (tx_round-IsRound w)

-- What the wait for frames comes to.
abbrev pub Waited : Bus → Option Bus → Type 0
Waited b none = ⊥
Waited b (some b') = b'.trace ≡ b.trace

Waited-earlier : (b c : Bus) (r : Option Bus) → c.trace ≡ b.trace → Waited c r → Waited b r
Waited-earlier b c none h e = e
Waited-earlier b c (some r) h e = e ∙ h

either_wait :
    (b : Bus) (t : Bool) (x y : Option Bus)
    → (t ≡ true → Waited b x)
    → (t ≡ false → Waited b y)
    → Waited b (elim t [ true ↦ x | false ↦ y ])
either_wait b true x y p q = p refl
either_wait b false x y p q = q refl

-- The wait for frames ends by one of its tests as well, and stores nothing.
pub wait_from-Waited :
    (f : ℕ) (b : Bus) (frames last seen spins wraps : ℕ)
    → Covers f spins wraps
    → Waited b (wait_from f b frames last seen spins wraps)
unfolding wait_from peek_reg
wait_from-Waited zero b frames last seen spins wraps c = absurd (not-Covers-zero spins wraps c)
wait_from-Waited (suc f) b frames last seen spins wraps c =
    let b1 : Bus = (peek_reg b frame_count).0 in
    let cur : ℕ = (peek_reg b frame_count).1 in
    let seen' : ℕ = if cur == last then seen else u8 (seen + 1) in
    let rest : Option Bus =
      wait_from f b1 frames cur seen' (next_spins spins) (next_wraps spins wraps) in
    either_wait b (ltb seen frames) (elim (stalled spins wraps) [ true ↦ some b1 | false ↦ rest ])
      (some b)
      (λ t.
        either_wait b (stalled spins wraps) (some b1) rest (λ u. refl)
          (λ u. Waited-earlier b b1 rest refl (
            wait_from-Waited f b1 frames cur seen' (next_spins spins) (next_wraps spins wraps)
              (Covers-next f spins wraps c u))))
      (λ t. refl)

trace-or_else : (b c : Bus) (r : Option Bus) → Waited b r → (or_else r c).trace ≡ b.trace
trace-or_else b c none h = absurd h
trace-or_else b c (some r) h = h

-- The fuel of the waits covers all their rounds.
pub wait_rounds-Covers : Covers wait_rounds 0 0 × Covers (wait_rounds + 1) 0 0
unfolding wait_rounds
wait_rounds-Covers = omega arith

-- `wait_frames` stores nothing.
pub trace-wait_frames : (b : Bus) (frames : ℕ) → (wait_frames b frames).trace ≡ b.trace
unfolding wait_frames peek_reg
trace-wait_frames b frames =
    let b1 : Bus = (peek_reg b frame_count).0 in
    let last : ℕ = (peek_reg b frame_count).1 in
    trace-or_else b1 b1 (wait_from (wait_rounds + 1) b1 frames last 0 0 0)
      (wait_from-Waited (wait_rounds + 1) b1 frames last 0 0 0 wait_rounds-Covers.1)
