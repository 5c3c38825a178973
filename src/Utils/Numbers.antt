-- ===== src/Utils/Numbers.antt =====
-- Identifiers and random numbers.
use native.Mathlib.Nat.{div-lt_iff_lt-mul, mul-div-le, mul_comm}
use opennan.Prelude.{
  ℕ, zero, suc, ◌+◌, ◌-◌, ◌*◌, ◌/◌, ◌^◌, ◌≤◌, ◌<◌, ◌≡◌, ◌≢◌, List, [], ◌++◌, ◌∷◌, none, some, arith,
}
use opennan.Prelude.Int.{u16, u32}
use opennan.Utils.{increase_non_zero_id, get_rand_num}

-- The next id is never 0, fits in 8 bits and differs from the last one.
pub increase_non_zero_id_lem :
    (last : ℕ)
    → last < 2 ^ 8
    → let next = increase_non_zero_id last in (next ≢ 0) × (next < 2 ^ 8) × (next ≢ last)
unfolding increase_non_zero_id
increase_non_zero_id_lem last h = ground arith

-- A draw below the end of the last chunk falls in one of the `range` chunks.
chunk_in_range : (chunk range r : ℕ) → r < u32 (chunk * range) → r / chunk < range
chunk_in_range zero range r p = absurd (grind arith)
chunk_in_range (suc q) range r p =
    (div-lt_iff_lt-mul {k = suc q} {x = r} {y = range} (omega arith)).1
      (omega (arith, mul_comm (suc q) range))

-- Every number that `get_rand_num` returns lies between `min` and `max`, whatever `rand()` gives.
pub get_rand_num_bounds :
    (rand_max min max : ℕ) (draws : List ℕ) {x : ℕ}
    → min ≤ max
    → max < 2 ^ 8
    → get_rand_num rand_max draws min max ≡ some x
    → (min ≤ x) × (x ≤ max)
unfolding get_rand_num
get_rand_num_bounds rand_max min max [] h k e = cc
get_rand_num_bounds rand_max min max (r ∷ draws) {x} h k e = ground (
  arith,
  chunk_in_range (rand_max / u16 (max - min + 1)) (u16 (max - min + 1)) r,
  get_rand_num_bounds rand_max min max draws {x = x} h k,
)

last_chunk :
    (rand_max range r : ℕ)
    → r < rand_max / range * range
    → rand_max < 2 ^ 32
    → range < 2 ^ 16
    → r < u32 (rand_max / u16 range * u16 range)
last_chunk rand_max range r p q h =
    let small : u16 range ≡ range = omega arith in
    rw small (omega (arith, mul-div-le rand_max range, mul_comm (rand_max / range) range))

-- `get_rand_num` returns as soon as `rand()` gives a value in the last whole chunk: such a value in
-- the list is enough, wherever it stands.
pub get_rand_num_total :
    (rand_max min max r : ℕ) (before after : List ℕ)
    → min ≤ max
    → max < 2 ^ 8
    → r < rand_max / (max - min + 1) * (max - min + 1)
    → rand_max < 2 ^ 32
    → get_rand_num rand_max (before ++ r ∷ after) min max ≢ none
unfolding get_rand_num
get_rand_num_total rand_max min max r [] after h k p q =
    ground (arith, last_chunk rand_max (max - min + 1) r p q (omega arith))
get_rand_num_total rand_max min max r (d ∷ before) after h k p q =
    ground (arith, get_rand_num_total rand_max min max r before after h k p q)
