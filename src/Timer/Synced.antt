-- ===== src/Timer/Synced.antt =====
-- What synchronising the clock to a beacon's timestamp does, and the two one-shot timers.
use opennan.Prelude.{ℕ, ◌+◌, ◌^◌, ◌≤◌, ◌≡◌, true, false, arith}
use opennan.Prelude.Int.{residue, u64}
use opennan.Timer.{
  TimerState, get_synced_time_usec, get_fixed_time_usec, sync_time, warmup_expired, warmup_cancel,
  warmup_timer_usec,
}

-- After `nan_timer_sync_time` at `now` the synced time runs on from the timestamp: `d` microseconds
-- later it is `timestamp + d` (mod 2^64), whatever the base time was. No other field changes.
pub synced-sync_time :
    (s : TimerState) (now timestamp d : ℕ)
    → (get_synced_time_usec (sync_time s now timestamp) (now + d) ≡ u64 (timestamp + d))
      × (sync_time s now timestamp
          ≡ record s { base_time_usec = (sync_time s now timestamp).base_time_usec })
unfolding sync_time get_synced_time_usec
synced-sync_time s now timestamp d = (omega arith, ground arith)

-- The fixed time trails the synced time by the average error, modulo 2^64.
pub fixed-add-error :
    (s : TimerState) (now : ℕ)
    → u64 (get_fixed_time_usec s now + residue (2 ^ 64) s.average_error)
      ≡ get_synced_time_usec s now
unfolding get_fixed_time_usec get_synced_time_usec
fixed-add-error s now = ground arith

-- When `nan_timer_warmup_expired` answers yes, 120 seconds have passed since the base time, and it
-- never answers yes again; nor does it once the timer is cancelled.
pub warmup_once :
    (s : TimerState) (now later : ℕ)
    → (warmup_expired s now).0 ≡ true
    → (warmup_timer_usec ≤ get_synced_time_usec s now)
      × ((warmup_expired (warmup_expired s now).1 later).0 ≡ false)
      × ((warmup_expired (warmup_cancel s) later).0 ≡ false)
unfolding warmup_expired warmup_cancel get_synced_time_usec
warmup_once s now later h = ground arith
