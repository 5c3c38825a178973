-- ===== src/Wire/Stored.antt =====
-- What a store leaves in the parts of a block.
use opennan.Prelude.{
  ℕ, zero, suc, ◌+◌, ◌≤◌, ◌<◌, ◌≡◌, ◌⊎◌, inl, inr, refl, ap, ap₂, ◌∙◌, List, [], ◌∷◌, ◌++◌, arith,
  length, set, get_or, get_or-set_self, get_or-set_ne, length-set,
}
use opennan.Wire.Defs.{slice, store}
use opennan.Wire.RoundTrip.{get_or-store}

-- A store before `j` leaves what is there.
pub get_or-store_after :
    (bytes : List ℕ) (at j : ℕ) (xs : List ℕ)
    → at + length xs ≤ j
    → get_or (store bytes at xs) j 0 ≡ get_or bytes j 0
get_or-store_after bytes at j [] h = refl
get_or-store_after bytes at j (x ∷ xs) h =
    get_or-store_after (set bytes at x) (at + 1) j xs (omega arith)
    ∙ get_or-set_ne bytes at j x 0 (λ e. omega (arith, e))

pub get_or-store_inside :
    (bytes : List ℕ) (at i j : ℕ) (xs : List ℕ)
    → j ≡ at + i
    → at + length xs ≤ length bytes
    → i < length xs
    → get_or (store bytes at xs) j 0 ≡ get_or xs i 0
get_or-store_inside bytes at i j [] e h k = absurd (omega arith)
get_or-store_inside bytes at zero j (x ∷ xs) e h k =
    let here : j ≡ at = omega (arith, e) in
    get_or-store (set bytes at x) (at + 1) j xs (omega (arith, e))
    ∙ ap (λ m. get_or (set bytes at x) m 0) here
    ∙ get_or-set_self bytes at x 0 (omega arith)
get_or-store_inside bytes at (suc i) j (x ∷ xs) e h k =
    get_or-store_inside (set bytes at x) (at + 1) i j xs (omega (arith, e))
      (omega (arith, length-set bytes at x)) (omega arith)

-- The part `i`, …, `i + n` of what was stored.
pub slice-store_inside :
    (bytes : List ℕ) (at i j n : ℕ) (xs : List ℕ)
    → j ≡ at + i
    → at + length xs ≤ length bytes
    → i + n ≤ length xs
    → slice (store bytes at xs) j n ≡ slice xs i n
slice-store_inside bytes at i j zero xs e h k = refl
slice-store_inside bytes at i j (suc n) xs e h k =
    ap₂ (λ y ys. y ∷ ys) (get_or-store_inside bytes at i j xs e h (omega arith))
      (slice-store_inside bytes at (i + 1) (j + 1) n xs (omega (arith, e)) h (omega arith))

-- A part of the block that lies before or behind what was stored.
pub slice-store_apart :
    (bytes : List ℕ) (at j n : ℕ) (xs : List ℕ)
    → (j + n ≤ at) ⊎ (at + length xs ≤ j)
    → slice (store bytes at xs) j n ≡ slice bytes j n
slice-store_apart bytes at j zero xs h = refl
slice-store_apart bytes at j (suc n) xs (inl h) =
    ap₂ (λ y ys. y ∷ ys) (get_or-store bytes at j xs (omega arith))
      (slice-store_apart bytes at (j + 1) n xs (inl (omega arith)))
slice-store_apart bytes at j (suc n) xs (inr h) =
    ap₂ (λ y ys. y ∷ ys) (get_or-store_after bytes at j xs h)
      (slice-store_apart bytes at (j + 1) n xs (inr (omega arith)))

-- Two stores one behind the other.
pub store_append :
    (bytes : List ℕ) (at j : ℕ) (xs ys : List ℕ)
    → j ≡ at + length xs
    → store (store bytes at xs) j ys ≡ store bytes at (xs ++ ys)
store_append bytes at j [] ys e = ap (λ x. store bytes x ys) (omega (arith, e))
store_append bytes at j (x ∷ xs) ys e =
    store_append (set bytes at x) (at + 1) j xs ys (omega (arith, e))
