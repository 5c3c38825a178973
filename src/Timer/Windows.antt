-- ===== src/Timer/Windows.antt =====
-- Where the timers of the discovery windows land. A window starts where the fixed time in TU is a
-- multiple of 512.
use opennan.Prelude.{
  ℕ, ◌+◌, ◌-◌, ◌*◌, ◌/◌, ◌%◌, ◌^◌, ◌≤◌, ◌<◌, ◌≡◌, ◌≢◌, ◌&&◌, arith, ◌==◌, ltb, if◌then◌else◌,
}
use opennan.Prelude.Int.{pos, u64, sub64, ◌≤ℤ◌, negsuc, pos_part, neg_part}
use opennan.Timer.{
  TimerState, get_fixed_time_usec, get_fixed_time_tu, next_dw_usec, dw_end_usec, in_dw, in_dw0,
  dw_start_offset_tu,
}

-- The fixed time runs with the clock.
fixed_later :
    (s : TimerState) (now d : ℕ)
    → get_fixed_time_usec s (now + d) ≡ u64 (get_fixed_time_usec s now + d)
unfolding get_fixed_time_usec
fixed_later s now d = omega arith

fixed_earlier :
    (s : TimerState) (now d : ℕ)
    → get_fixed_time_usec s (sub64 now d) ≡ sub64 (get_fixed_time_usec s now) d
unfolding get_fixed_time_usec
fixed_earlier s now d = omega arith

fixed_bound : (s : TimerState) (now : ℕ) → get_fixed_time_usec s now < 2 ^ 64
unfolding get_fixed_time_usec
fixed_bound s now = omega arith

-- The wait that `nan_timer_next_dw_usec` returns is positive, at most one interval, and ends in the
-- first TU of a window.
pub next_dw_lands :
    (s : TimerState) (now : ℕ)
    → (0 < next_dw_usec s now)
      × (next_dw_usec s now ≤ 512 * 1024)
      × (get_fixed_time_tu s (now + next_dw_usec s now) % 512 ≡ 0)
unfolding next_dw_usec get_fixed_time_tu
next_dw_lands s now =
    let f = get_fixed_time_usec s now in
    omega (arith, fixed_bound s now, fixed_later s now ((512 - f / 1024 % 512) * 1024))

-- No window is missed: a shorter wait that ends in the first TU of another window than the present
-- one is shorter by less than one TU.
pub next_dw_first :
    (s : TimerState) (now d : ℕ)
    → d ≤ next_dw_usec s now
    → get_fixed_time_tu s (now + d) % 512 ≡ 0
    → get_fixed_time_tu s (now + d) ≢ get_fixed_time_tu s now
    → next_dw_usec s now < d + 1024
unfolding next_dw_usec get_fixed_time_tu
next_dw_first s now d h k l = omega (arith, fixed_bound s now, fixed_later s now d)

-- `nan_timer_dw_end_usec` in every TU of the interval. Up to TU 15 it is what is left of the
-- window, in TU 16 it is a whole interval, and after that the wait for the end of the next window.
-- In each case the wait ends in TU 16 of an interval.
pub dw_end_lands :
    (s : TimerState) (now : ℕ)
    → let m = get_fixed_time_tu s now % 512 in
      (dw_end_usec s now
        ≡ (if ltb m 16 then (16 - m) * 1024 else if m == 16 then 512 * 1024 else (528 - m) * 1024))
      × (get_fixed_time_tu s (now + dw_end_usec s now) % 512 ≡ 16)
unfolding dw_end_usec in_dw next_dw_usec get_fixed_time_tu
dw_end_lands s now = ground (
  arith,
  fixed_bound s now,
  fixed_earlier s now (16 * 1024),
  fixed_later s now (dw_end_usec s now),
)

-- `nan_timer_in_dw0`: the 32-bit count and product lose nothing of the test, which holds in the
-- windows whose number is a multiple of 2^14.
pub in_dw0-eq :
    (s : TimerState) (now : ℕ)
    → in_dw0 s now ≡ (in_dw s now && get_fixed_time_tu s now / 512 % 2 ^ 14 == 0)
unfolding in_dw0
in_dw0-eq s now = ground arith

-- `nan_timer_dw_start_offset_tu` is the signed distance to the nearest window start: from -255 to
-- 256 TU, and subtracting it from the fixed time gives a window start.
dw_start_offset_bounds :
    (s : TimerState) (now : ℕ)
    → (negsuc 254 ≤ℤ dw_start_offset_tu s now)
      × (dw_start_offset_tu s now ≤ℤ pos 256)
      × ((get_fixed_time_tu s now + neg_part (dw_start_offset_tu s now)) % 512
          ≡ pos_part (dw_start_offset_tu s now) % 512)
unfolding dw_start_offset_tu
dw_start_offset_bounds s now = ground arith
