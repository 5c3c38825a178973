-- ===== src/Timer/Beacons.antt =====
-- The pacing of discovery beacons.
use opennan.Prelude.{ℕ, ◌+◌, ◌-◌, ◌*◌, ◌^◌, ◌<◌, ◌≡◌, true, leb, arith}
use opennan.Timer.{
  TimerState, can_send_discovery_beacon, next_discovery_beacon_usec, set_last_discovery_beacon_usec,
}

-- `d` microseconds after a beacon `nan_timer_can_send_discovery_beacon` says yes exactly if 100 TU
-- have passed, until the clock has gone round.
pub can_send_again :
    (s : TimerState) (now d : ℕ)
    → d < 2 ^ 64
    → can_send_discovery_beacon (set_last_discovery_beacon_usec s now) (now + d)
      ≡ leb (100 * 1024) d
unfolding can_send_discovery_beacon set_last_discovery_beacon_usec
can_send_again s now d h = ground arith

-- `d` microseconds after a beacon, `d` under 100 TU, `nan_timer_next_discovery_beacon_usec` returns
-- 100 TU plus `d`, though a beacon may be sent once what is left of the 100 TU has passed: the wait
-- is `2 * d` too long.
pub next_discovery_beacon_overshoots :
    (s : TimerState) (now d : ℕ)
    → d < 100 * 1024
    → let s' = set_last_discovery_beacon_usec s now in
      let wait = next_discovery_beacon_usec s' (now + d) in
      (wait ≡ 100 * 1024 + d) × (can_send_discovery_beacon s' (now + d + (wait - 2 * d)) ≡ true)
unfolding next_discovery_beacon_usec can_send_discovery_beacon set_last_discovery_beacon_usec
next_discovery_beacon_overshoots s now d h = ground arith
