-- ===== src/MovingAverage/Warmup.antt =====
-- Bounds of the running average while the ring is still filling.
use native.Mathlib.Nat.{div-le_of_le-mul, add-zero, mul-le-mul_right, mul_comm}
use opennan.Prelude.{
  ℕ, suc, ◌+◌, ◌*◌, ◌/◌, ◌^◌, ◌≤◌, ◌<◌, ◌≡◌, refl, ap, false, List, [], ◌∷◌, arith, All, length,
  length-set, length-replicate, ◌∙◌, subst,
}
use opennan.Prelude.Int.{ℤ, pos, negsuc, abs, tdiv, scale, ◌+ℤ◌}
use opennan.MovingAverage.{MovingAverage, init, add, new_average, push_sample, wrap}

abs-tdiv : (z : ℤ) (d : ℕ) → abs (tdiv z d) ≡ abs z / d
abs-tdiv (pos n) d = simp add-zero
abs-tdiv (negsuc n) d = ground arith

abs-scale : (z : ℤ) (k : ℕ) → abs (scale z k) ≡ abs z * k
abs-scale (pos n) k = omega arith
abs-scale (negsuc n) k = ground arith

abs-add-le : (a b : ℤ) → abs (a +ℤ b) ≤ abs a + abs b
unfolding ◌+ℤ◌
abs-add-le a b = ground arith

mean_bound :
    (a v : ℤ) (n bound : ℕ)
    → abs a ≤ bound
    → abs v ≤ bound
    → abs (tdiv (scale a n +ℤ v) (n + 1)) ≤ bound
mean_bound a v n bound ha hv =
    rw (abs-tdiv (scale a n +ℤ v) (n + 1)) (div-le_of_le-mul (n + 1) total)
  where
    total : abs (scale a n +ℤ v) ≤ (n + 1) * bound
    total = grind (arith, abs-add-le (scale a n) v, abs-scale a n)

wrap_small : (z : ℤ) → abs z < 2 ^ 31 → wrap z ≡ z
unfolding wrap
wrap_small (pos n) h = ground arith
wrap_small (negsuc n) h = ground arith

-- Neither the product nor the sum leaves the range of an `int`.
sum_small :
    (a v : ℤ) (n bound : ℕ)
    → abs a ≤ bound
    → abs v ≤ bound
    → (n + 1) * bound < 2 ^ 31
    → wrap (wrap (scale a n) +ℤ v) ≡ scale a n +ℤ v
sum_small a v n bound ha hv h =
    let product : abs (scale a n) ≤ n * bound =
      rw (abs-scale a n) (omega (arith, mul-le-mul_right n ha, mul_comm bound n)) in
    let whole : n * bound + bound < 2 ^ 31 = omega (arith, h) in
    ap (λ z. wrap (z +ℤ v)) (wrap_small (scale a n) (omega (arith, product, whole)))
    ∙ wrap_small (scale a n +ℤ v) (omega (arith, product, whole, abs-add-le (scale a n) v))

-- A valid ring: the position is an index of the buffer.
pub record IsValid (s : MovingAverage) : Type 0 where
  pub storage : length s.buffer ≡ s.buffer_size
  pub inside : s.position < s.buffer_size

pub push_sample-IsValid : (s : MovingAverage) (v : ℤ) → IsValid s → IsValid (push_sample s v)
unfolding push_sample
push_sample-IsValid s v h = ground (arith, length-set s.buffer s.position v)

-- The samples of a list, one after another.
unfoldable pub feed : (ℤ → ℤ) → ℤ × MovingAverage → List ℤ → ℤ × MovingAverage
feed cast st [] = st
feed cast st (v ∷ vs) = feed cast (add cast st v) vs

module _ (cast : ℤ → ℤ) (bound : ℕ) (exact : (z : ℤ) → abs z ≤ bound → cast z ≡ z) where
  new_average_bound :
      (s : MovingAverage) (a v : ℤ)
      → s.buffer_full ≡ false
      → (s.position + 1) * bound < 2 ^ 31
      → abs a ≤ bound
      → abs v ≤ bound
      → abs (new_average cast s a v) ≤ bound
  unfolding new_average
  new_average_bound s a v e f ha hv =
      let small = mean_bound a v s.position bound ha hv in
      rw (e, sum_small a v s.position bound ha hv f, exact _ small) small

  feed_bound :
      (vs : List ℤ) (a : ℤ) (s : MovingAverage)
      → IsValid s
      → (0 < length vs → s.buffer_full ≡ false)
      → s.position + length vs ≤ s.buffer_size
      → s.buffer_size * bound < 2 ^ 31
      → abs a ≤ bound
      → All (λ v. abs v ≤ bound) vs
      → let (a', s') = feed cast (a, s) vs in
        (abs a' ≤ bound) × IsValid s' × (s'.buffer_size ≡ s.buffer_size)
  unfolding feed add push_sample
  feed_bound [] a s i e p f ha hv = (ha, i, refl)
  feed_bound (v ∷ vs) a s i e p f ha hv =
      feed_bound vs (new_average cast s a v) (push_sample s v) (push_sample-IsValid s v i)
        (still vs p) (room p) f
        (new_average_bound s a v (e (omega arith)) (fits s.position p f) ha hv.0) hv.1
    where
      fits :
          (n : ℕ)
          → n + suc (length vs) ≤ s.buffer_size
          → s.buffer_size * bound < 2 ^ 31
          → (n + 1) * bound < 2 ^ 31
      fits n p f =
          let most : n + 1 ≤ s.buffer_size = omega arith in
          omega (arith, mul-le-mul_right bound most)

      still :
          (vs : List ℤ)
          → s.position + suc (length vs) ≤ s.buffer_size
          → 0 < length vs
          → (push_sample s v).buffer_full ≡ false
      still vs p h = ground (arith, e (omega arith))

      room :
          s.position + suc (length vs) ≤ s.buffer_size
          → (push_sample s v).position + length vs ≤ (push_sample s v).buffer_size
      room p = ground arith

  -- From `moving_average_init` on, up to `size` samples, none larger than `bound` in absolute
  -- value, keep the average within `bound` and the position inside the buffer, if the element type
  -- holds all values up to `bound`, and an `int` those up to `size` times `bound`.
  pub feed-init_bound :
      (size : ℕ) (vs : List ℤ)
      → 0 < size
      → length vs ≤ size
      → size * bound < 2 ^ 31
      → All (λ v. abs v ≤ bound) vs
      → let (a, s) = feed cast (init size) vs in
        (abs a ≤ bound) × (length s.buffer ≡ size) × (s.position < size)
  unfolding init
  feed-init_bound size vs h p f hv =
      let fresh : IsValid (init size).1 = record {
        storage = length-replicate size (pos 0);
        inside = h;
      } in
      let (small, valid, kept) =
        feed_bound vs (pos 0) (init size).1 fresh (λ _. refl) (omega arith) f (omega arith) hv in
      (
        small,
        valid.storage ∙ kept,
        subst (λ k. (feed cast (pos 0, (init size).1) vs).1.position < k) kept valid.inside,
      )
