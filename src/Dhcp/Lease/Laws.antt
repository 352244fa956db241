-- ===== src/Dhcp/Lease/Laws.antt =====
-- The times of a lease and the clock that counts it, in src/net/mn_dhcp.c.
use mega_net.Base.{
  leb, Bool-cases, u8, sub16, ℕ, zero, suc, ◌+◌, ◌-◌, ◌*◌, ◌/◌, ◌^◌, ◌≤◌, ◌<◌, ◌≡◌, inl, inr, arith,
}
use mega_net.Dhcp.Lease.{granted, second_tick, seconds_from, clock_tick}
use mega_net.Dhcp.State.{Dhcp, ticks_per_s, lease_forever_s}

-- A lease of at least two minutes and below the limit for endless ones is counted in minutes from
-- zero, is renewed at a time after its start, rebound no earlier than that and no later than its
-- end.
pub granted-order :
    (d : Dhcp) (now : ℕ)
    → 120 ≤ d.lease_s
    → d.lease_s < lease_forever_s
    → let g = granted d now in
      (g.lease_m ≡ d.lease_s / 60)
      × (0 < g.t1_m)
      × (g.t1_m ≤ g.t2_m)
      × (g.t2_m ≤ g.lease_m)
      × (g.next_m ≡ g.t1_m)
      × (g.age_m ≡ 0)
unfolding granted
granted-order d now h k = ground arith

-- The clock's parts stay below the units above them.
pub record IsClock (d : Dhcp) : Type 0 where
  pub seconds_in : d.sec_acc < 60
  pub ticks_in : d.tick_acc < ticks_per_s

-- The ticks that the clock has counted.
abbrev pub counted : Dhcp → ℕ
counted d = (d.age_m * 60 + d.sec_acc) * ticks_per_s + d.tick_acc

-- What a 16-bit age can count.
abbrev pub clock_end : ℕ
clock_end = 2 ^ 16 * 60 * ticks_per_s

second_tick-counted :
    (d : Dhcp)
    → IsClock d
    → counted d + ticks_per_s < clock_end
    → (counted (second_tick d) ≡ counted d + ticks_per_s) × IsClock (second_tick d)
unfolding second_tick
second_tick-counted d c b = ground arith

seconds_from-counted :
    (f : ℕ) (d : Dhcp) (delta : ℕ)
    → IsClock d
    → delta ≤ f
    → counted d + delta < clock_end
    → let (d', left) = seconds_from f d delta in
      (counted d' + left ≡ counted d + delta) × IsClock d' × (left < ticks_per_s)
unfolding seconds_from
seconds_from-counted zero d delta c h b = ground arith
seconds_from-counted (suc f) d delta c h b = elim (Bool-cases (leb ticks_per_s delta)) [
  | inr n ↦ rw (n, seconds_from) (ground arith)
  | inl y ↦
      let (e, c1) = second_tick-counted d c (ground arith) in
      let (e2, c2, l) =
        seconds_from-counted f (second_tick d) (delta - ticks_per_s) c1 (ground arith)
          (ground (arith, e)) in
      rw (y, seconds_from) (ground (arith, e, e2), c2, l)
]

-- The clock counts exactly the ticks that have passed since it was last read, modulo the wrap of
-- the tick counter, in minutes, seconds and ticks that stay below the next unit, while the
-- minutes fit into their 16 bits.
pub clock_tick-counted :
    (d : Dhcp) (now : ℕ)
    → IsClock d
    → counted d + sub16 now d.tick_last + ticks_per_s < clock_end
    → (counted (clock_tick d now) ≡ counted d + sub16 now d.tick_last) × IsClock (clock_tick d now)
unfolding clock_tick
clock_tick-counted d now c b =
    let delta = sub16 now d.tick_last in
    let d0 = record d { tick_last = now } in
    let (d1, left) = seconds_from delta d0 delta in
    let (e, c1, l) =
      seconds_from-counted delta d0 delta (carried d now c) (omega arith) (omega (arith, b)) in
    let acc = u8 (d1.tick_acc + left) in
    elim (Bool-cases (leb ticks_per_s acc)) [
      | inr n ↦ rw n (ground (arith, e, c1, l))
      | inl y ↦
          let (e2, c2) =
            second_tick-counted (record d1 { tick_acc = acc - ticks_per_s })
              (less d1 (acc - ticks_per_s) c1 (ground (arith, e, c1, l)))
              (ground (arith, e, c1, l)) in
          rw y (ground (arith, e, e2, c1, l), c2)
    ]
  where
    carried : (d : Dhcp) (now : ℕ) → IsClock d → IsClock (record d { tick_last = now })
    carried d now c = ground arith

    less : (d : Dhcp) (k : ℕ) → IsClock d → k < ticks_per_s → IsClock (record d { tick_acc = k })
    less d k c h = ground arith
