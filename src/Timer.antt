-- ===== src/Timer.antt =====
-- The clock of src/timer.c: time since the cluster's base, discovery windows and beacon intervals.
-- A time is a `uint64_t` in microseconds; one time unit (TU) is 1024 of them.
pub mod Synced
pub mod Windows
pub mod Beacons
mod Tests
use opennan.Prelude.{
  ℕ, ◌+◌, ◌-◌, ◌*◌, ◌/◌, ◌%◌, ◌^◌, ◌≡◌, Bool, true, false, not, ◌&&◌, ◌||◌, ltb, leb, ◌==◌,
  if◌then◌else◌,
}
use opennan.Prelude.Int.{
  ℤ, pos, ◌-ℤ◌, residue, sub64, sub_ℕ, to_int, u32, u64, abs, pos_part, neg_part,
}
use opennan.MovingAverage
use opennan.MovingAverage.{MovingAverage}

-- `USEC_TO_TU` and `TU_TO_USEC`.
abbrev pub usec_to_tu : ℕ → ℕ
usec_to_tu usec = usec / 1024

abbrev pub tu_to_usec : ℕ → ℕ
tu_to_usec tu = tu * 1024

abbrev pub dw_length_tu : ℕ
dw_length_tu = 16

abbrev pub dw_interval_tu : ℕ
dw_interval_tu = 512

abbrev pub discovery_beacon_interval_tu : ℕ
discovery_beacon_interval_tu = 100

abbrev pub initial_scan_timer_usec : ℕ
initial_scan_timer_usec = 1000000

-- `SEC_TO_USEC(NAN_WARMUP_TIMER_SEC)`.
abbrev pub warmup_timer_usec : ℕ
warmup_timer_usec = 120 * 1000000

abbrev pub average_error_size : ℕ
average_error_size = 32

-- `struct nan_timer_state`.
pub record TimerState : Type 0 where
  pub now_usec : ℕ
  pub base_time_usec : ℕ
  pub last_discovery_beacon_usec : ℕ
  pub warmup_done : Bool
  pub initial_scan_done : Bool
  pub average_error : ℤ
  pub average_error_state : MovingAverage

unfoldable pub init : ℕ → TimerState
unfolding MovingAverage.init
init now =
    let (average, ring) = MovingAverage.init average_error_size in
    record {
      now_usec = now;
      base_time_usec = now;
      last_discovery_beacon_usec = 0;
      warmup_done = false;
      initial_scan_done = true;
      average_error = average;
      average_error_state = ring;
    }

pub set_now_usec : TimerState → ℕ → TimerState
set_now_usec s now = record s { now_usec = now }

unfoldable pub get_synced_time_usec : TimerState → ℕ → ℕ
get_synced_time_usec s now = sub64 now s.base_time_usec

unfoldable pub get_synced_time_tu : TimerState → ℕ → ℕ
unfolding get_synced_time_usec
get_synced_time_tu s now = usec_to_tu (get_synced_time_usec s now)

-- The `int` error is converted to `uint64_t` before it is subtracted.
unfoldable pub get_fixed_time_usec : TimerState → ℕ → ℕ
get_fixed_time_usec s now = sub64 (sub64 now s.base_time_usec) (residue (2 ^ 64) s.average_error)

unfoldable pub get_fixed_time_tu : TimerState → ℕ → ℕ
unfolding get_fixed_time_usec
get_fixed_time_tu s now = usec_to_tu (get_fixed_time_usec s now)

-- The difference is a `long`, and is converted back when it is added to the base time.
unfoldable pub sync_time : TimerState → ℕ → ℕ → TimerState
unfolding get_synced_time_usec
sync_time s now timestamp =
    let diff = sub64 (get_synced_time_usec s now) timestamp in
    record s { base_time_usec = u64 (s.base_time_usec + diff) }

-- The difference is cut down to an `int`.
pub error_usec : TimerState → ℕ → ℕ → ℤ
unfolding get_synced_time_usec
error_usec s now timestamp = to_int (sub64 (get_synced_time_usec s now) timestamp)

-- C leaves `abs` of the smallest `int` undefined; in two's complement it is that negative number,
-- which is not above the limit.
unfoldable pub sync_error : TimerState → ℕ → ℕ → TimerState
unfolding error_usec MovingAverage.add
sync_error s now timestamp =
    let error = error_usec s now timestamp in
    let (average, ring) =
      MovingAverage.add (λ z. to_int (residue (2 ^ 32) z)) (s.average_error, s.average_error_state)
        error in
    if ltb (tu_to_usec dw_interval_tu) (abs error) && ltb (abs error) (2 ^ 31)
    then s
    else record s { average_error = average; average_error_state = ring }

unfoldable pub time_difference_tu : ℕ → ℕ → ℕ
time_difference_tu old new = u32 (sub64 (usec_to_tu new) (usec_to_tu old))

unfoldable pub time_difference_dw : ℕ → ℕ → ℕ
unfolding time_difference_tu
time_difference_dw old new = time_difference_tu old new / dw_interval_tu

unfoldable pub in_dw : TimerState → ℕ → Bool
unfolding get_fixed_time_tu
in_dw s now = leb (get_fixed_time_tu s now % dw_interval_tu) dw_length_tu

-- The count of intervals and its product are 32 bits wide.
pub in_dw0 : TimerState → ℕ → Bool
unfolding in_dw get_fixed_time_tu
in_dw0 s now =
    let interval_count = u32 (get_fixed_time_tu s now / dw_interval_tu) in
    let dw_start_time = u32 (interval_count * dw_interval_tu) in
    if not (in_dw s now) then false else dw_start_time % 2 ^ 23 == 0

pub in_current_dw : TimerState → ℕ → ℕ → Bool
unfolding in_dw time_difference_tu
in_current_dw s now target =
    in_dw s target && ltb (time_difference_tu target now) (dw_interval_tu - dw_length_tu)

pub dw_start_offset_tu : TimerState → ℕ → ℤ
unfolding get_fixed_time_tu
dw_start_offset_tu s now =
    let interval_time = get_fixed_time_tu s now % dw_interval_tu in
    if ltb (dw_interval_tu / 2) interval_time
    then sub_ℕ interval_time dw_interval_tu
    else pos interval_time

unfoldable pub next_dw_usec : TimerState → ℕ → ℕ
unfolding get_fixed_time_tu
next_dw_usec s now = tu_to_usec (dw_interval_tu - get_fixed_time_tu s now % dw_interval_tu)

unfoldable pub dw_end_usec : TimerState → ℕ → ℕ
unfolding in_dw next_dw_usec
dw_end_usec s now =
    if in_dw s now
    then next_dw_usec s (sub64 now (tu_to_usec dw_length_tu))
    else next_dw_usec s now + tu_to_usec dw_length_tu

pub warmup_expired : TimerState → ℕ → Bool × TimerState
warmup_expired s now =
    if not s.warmup_done && leb warmup_timer_usec (sub64 now s.base_time_usec)
    then (true, record s { warmup_done = true })
    else (false, s)

pub warmup_cancel : TimerState → TimerState
warmup_cancel s = record s { warmup_done = true }

unfoldable pub initial_scan_done : TimerState → ℕ → Bool
initial_scan_done s now =
    s.initial_scan_done || ltb initial_scan_timer_usec (sub64 now s.base_time_usec)

unfoldable pub initial_scan_cancel : TimerState → TimerState
initial_scan_cancel s = record s { initial_scan_done = true }

unfoldable pub can_send_discovery_beacon : TimerState → ℕ → Bool
can_send_discovery_beacon s now =
    leb (tu_to_usec discovery_beacon_interval_tu) (sub64 now s.last_discovery_beacon_usec)

unfoldable pub next_discovery_beacon_usec : TimerState → ℕ → ℕ
unfolding can_send_discovery_beacon
next_discovery_beacon_usec s now =
    if can_send_discovery_beacon s now
    then 0
    else u64 (sub64 now s.last_discovery_beacon_usec + tu_to_usec discovery_beacon_interval_tu)

unfoldable pub set_last_discovery_beacon_usec : TimerState → ℕ → TimerState
set_last_discovery_beacon_usec s time = record s { last_discovery_beacon_usec = time }
