-- ===== src/MovingAverage/Tests.antt =====
-- Runs of the running average.
use opennan.Prelude.{◌≡◌, ◌≤◌, ◌<◌, refl, List, [], ◌∷◌, arith, length}
use opennan.Prelude.Int.{ℤ, pos, negsuc, abs, to_schar}
use opennan.MovingAverage.{init, add}
use opennan.MovingAverage.Warmup.{feed, feed-init_bound}

abbrev samples : List ℤ
samples = negsuc 59 ∷ negsuc 69 ∷ negsuc 62 ∷ []

feed-samples : (feed to_schar (init 4) samples).0 ≡ negsuc 63
unfolding feed init add
feed-samples = refl

to_schar_exact : (z : ℤ) → abs z ≤ 127 → to_schar z ≡ z
to_schar_exact (pos n) h = ground arith
to_schar_exact (negsuc n) h = ground arith

feed-init_bound_example :
    (abs (feed to_schar (init 4) samples).0 ≤ 127)
    × (length (feed to_schar (init 4) samples).1.buffer ≡ 4)
    × ((feed to_schar (init 4) samples).1.position < 4)
feed-init_bound_example =
    feed-init_bound to_schar 127 to_schar_exact 4 samples (omega arith) (omega arith) (omega arith)
      (omega arith)
