-- ===== src/MovingAverage.antt =====
-- The running average of src/moving_average.h, a ring of the last samples with an average that is
-- corrected in place. The two macros take the element type: `cast` is what storing into a variable
-- of that type does to an `int`.
pub mod Warmup
mod Tests
use opennan.Prelude.{
  ℕ, zero, suc, ◌+◌, ◌^◌, ◌≡◌, Bool, true, false, List, replicate, get_or, set, ◌==◌, if◌then◌else◌,
}
use opennan.Prelude.Int.{ℤ, pos, ◌+ℤ◌, ◌-ℤ◌, tdiv, scale, to_int, residue}

-- `moving_average_t`.
pub record MovingAverage : Type 0 where
  pub buffer : List ℤ
  pub position : ℕ
  pub buffer_size : ℕ
  pub buffer_full : Bool

-- `moving_average_init`: the new average and state.
unfoldable pub init : ℕ → ℤ × MovingAverage
init size = (
  pos 0,
  record { buffer = replicate size (pos 0); position = 0; buffer_size = size; buffer_full = false },
)

-- An `int` expression. An overflow, which C leaves undefined, wraps around as in two's complement.
unfoldable pub wrap : ℤ → ℤ
wrap z = to_int (residue (2 ^ 32) z)

-- The average after a sample. The operands are promoted to `int`.
pub new_average : (ℤ → ℤ) → MovingAverage → ℤ → ℤ → ℤ
unfolding ◌+ℤ◌ ◌-ℤ◌ wrap
new_average cast s average value =
    if s.buffer_full
    then cast (
        wrap (
          average
          +ℤ tdiv (cast (wrap (value -ℤ get_or s.buffer s.position (pos 0)))) s.buffer_size))
    else cast (tdiv (wrap (wrap (scale average s.position) +ℤ value)) (s.position + 1))

-- The ring after a sample.
pub push_sample : MovingAverage → ℤ → MovingAverage
push_sample s value =
    let position = s.position + 1 in
    let at_end = position == s.buffer_size in
    record s {
      buffer = set s.buffer s.position value;
      position = if at_end then 0 else position;
      buffer_full = if at_end then true else s.buffer_full;
    }

-- `moving_average_add`.
unfoldable pub add : (ℤ → ℤ) → ℤ × MovingAverage → ℤ → ℤ × MovingAverage
unfolding new_average push_sample
add cast (average, s) value = (new_average cast s average value, push_sample s value)
