-- ===== src/Timer/Tests.antt =====
-- Runs of the clock, and its theorems at a concrete clock.
use opennan.Prelude.{◌+◌, ◌-◌, ◌*◌, ◌%◌, ◌≡◌, ◌==◌, ltb, if◌then◌else◌, refl, true, false, arith}
use opennan.Prelude.Int.{u64}
use opennan.Timer.{
  TimerState, init, get_synced_time_usec, get_fixed_time_tu, sync_time, in_dw, dw_end_usec,
  can_send_discovery_beacon, next_discovery_beacon_usec, set_last_discovery_beacon_usec,
}
use opennan.Timer.Synced.{synced-sync_time}
use opennan.Timer.Windows.{dw_end_lands}
use opennan.Timer.Beacons.{next_discovery_beacon_overshoots}

clock : TimerState
unfolding init
clock = init 5000

-- Sixteen time units after the base time the clock is still in the window.
in_dw_at_16 : (in_dw clock (5000 + 16 * 1024) ≡ true) × (in_dw clock (5000 + 17 * 1024) ≡ false)
unfolding clock in_dw
in_dw_at_16 = (refl, refl)

dw_end_at_16 : dw_end_usec clock (5000 + 16 * 1024) ≡ 512 * 1024
unfolding clock dw_end_usec
dw_end_at_16 = refl

synced-sync_time_example :
    (get_synced_time_usec (sync_time clock 7000 900) (7000 + 50) ≡ u64 (900 + 50))
    × (sync_time clock 7000 900
        ≡ record clock { base_time_usec = (sync_time clock 7000 900).base_time_usec })
synced-sync_time_example = synced-sync_time clock 7000 900 50

dw_end_lands_example :
    let m = get_fixed_time_tu clock 9000 % 512 in
    (dw_end_usec clock 9000
      ≡ (if ltb m 16 then (16 - m) * 1024 else if m == 16 then 512 * 1024 else (528 - m) * 1024))
    × (get_fixed_time_tu clock (9000 + dw_end_usec clock 9000) % 512 ≡ 16)
dw_end_lands_example = dw_end_lands clock 9000

next_discovery_beacon_overshoots_example :
    let s = set_last_discovery_beacon_usec clock 9000 in
    let wait = next_discovery_beacon_usec s (9000 + 400) in
    (wait ≡ 100 * 1024 + 400) × (can_send_discovery_beacon s (9000 + 400 + (wait - 2 * 400)) ≡ true)
next_discovery_beacon_overshoots_example =
    next_discovery_beacon_overshoots clock 9000 400 (omega arith)
