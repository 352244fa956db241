-- ===== src/Dhcp/Lease.antt =====
-- The lease clock of src/net/mn_dhcp.c: `granted`, `clock_tick` and `mn_dhcp_lease_left`.
pub mod Laws
use mega_net.Base.{
  ltb, leb, ◌==◌, if◌then◌else◌, u8, u16, sub16, ℕ, zero, suc, ◌+◌, ◌-◌, ◌/◌, not, ◌||◌,
}
use mega_net.Dhcp.State.{steady, Dhcp, is_bound, ticks_per_s, lease_forever_s}

unfoldable pub granted : Dhcp → ℕ → Dhcp
granted d now =
    let d1 = record d { phase = steady; age_m = 0; tick_last = now; tick_acc = 0; sec_acc = 0 } in
    if ltb d.lease_s 120 || leb lease_forever_s d.lease_s
    then record d1 { lease_m = 0; t1_m = 0; t2_m = 0; next_m = 0 }
    else (let lease = u16 (d.lease_s / 60) in
        record d1 {
          lease_m = lease;
          t1_m = u16 (lease / 2);
          t2_m = u16 (lease - lease / 8);
          next_m = u16 (lease / 2);
        })

-- `if (++d->sec_acc >= 60) { d->sec_acc = 0; d->age_m++; }`
unfoldable pub second_tick : Dhcp → Dhcp
second_tick d =
    if leb 60 (u8 (d.sec_acc + 1))
    then record d { sec_acc = 0; age_m = u16 (d.age_m + 1) }
    else record d { sec_acc = u8 (d.sec_acc + 1) }

-- The loop over the whole seconds in `delta`, on fuel: what is left of `delta` at its end.
unfoldable pub seconds_from : ℕ → Dhcp → ℕ → Dhcp × ℕ
seconds_from zero d delta = (d, delta)
seconds_from (suc f) d delta =
    let rest = seconds_from f (second_tick d) (delta - ticks_per_s) in
    if leb ticks_per_s delta then rest else (d, delta)

unfoldable pub clock_tick : Dhcp → ℕ → Dhcp
clock_tick d now =
    let delta = sub16 now d.tick_last in
    let (d1, left) = seconds_from delta (record d { tick_last = now }) delta in
    let acc = u8 (d1.tick_acc + left) in
    if leb ticks_per_s acc
    then second_tick (record d1 { tick_acc = acc - ticks_per_s })
    else record d1 { tick_acc = acc }

unfoldable pub dhcp_lease_left : Dhcp → ℕ
dhcp_lease_left d =
    if not (is_bound d.state)
    then 0
    else if d.t1_m == 0
    then 0xffff
    else if ltb d.age_m d.lease_m
    then u16 (d.lease_m - d.age_m)
    else 0
