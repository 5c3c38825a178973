-- ===== src/CircularBuffer/Items.antt =====
-- The items that a circular buffer holds, from the tail on, and writing one behind them.
use opennan.Prelude.{
  ℕ, zero, suc, ◌+◌, ◌-◌, ◌^◌, ◌<◌, ◌≡◌, refl, ap, ap₂, ◌∙◌, List, [], ◌∷◌, ◌++◌, arith, ltb, ◌==◌,
  if◌then◌else◌, length, get_or, set, get_or-set_self, get_or-set_ne, Bool-cases, inl, inr,
}
use native.Mathlib.Nat.{mod-eq_of_lt}
use opennan.CircularBuffer.Queue.{Queue}
use opennan.CircularBuffer.{CircularBuf, size, next_index}

abbrev pub next : ℕ → ℕ → ℕ
next cap t = if suc t == cap then 0 else suc t

pub next_index-eq-next : (t cap : ℕ) → t < cap → cap < 2 ^ 64 → next_index t cap ≡ next cap t
next_index-eq-next t cap h k = elim (Bool-cases (suc t == cap)) [
  | inl e ↦ rw e (wraps (ground arith))
  | inr e ↦ rw e (mod-eq_of_lt (ground arith) ∙ omega arith)
]
  where
    wraps : suc t ≡ cap → next_index t cap ≡ 0
    wraps p = rw (← p) (grind arith)

module _ (buf : List ℕ) (cap : ℕ) where
  -- The `n` items from index `t` on, going round at `cap`.
  abbrev pub items : ℕ → ℕ → Queue
  items t zero = []
  items t (suc n) = get_or buf t 0 ∷ items (next cap t) n

  pub length-items : (t n : ℕ) → length (items t n) ≡ n
  length-items t zero = refl
  length-items t (suc n) = ap suc (length-items (next cap t) n)

  pub items_pos : (t n : ℕ) → 0 < n → items t n ≡ get_or buf t 0 ∷ items (next cap t) (n - 1)
  items_pos t zero h = absurd (omega arith)
  items_pos t (suc n) h = ap (λ k. get_or buf t 0 ∷ items (next cap t) k) (omega arith)

-- Writing just behind `n` items adds one to them.
pub items-set :
    (buf : List ℕ) (cap x n t i : ℕ)
    → length buf ≡ cap
    → t < cap
    → n < cap
    → i ≡ (if ltb (t + n) cap then t + n else t + n - cap)
    → items (set buf i x) cap t (suc n) ≡ items buf cap t n ++ x ∷ []
items-set buf cap x zero t i e ht hn h = ground (arith, get_or-set_self buf t x 0)
items-set buf cap x (suc n) t i e ht hn h =
    ap₂ ◌∷◌ (get_or-set_ne buf i t x 0 (ground arith))
      (items-set buf cap x n (next cap t) i e (ground arith) (omega arith) (ground arith))

abbrev pub contents : CircularBuf → Queue
contents c = items c.buffer c.capacity c.tail (size c)

pub length-contents : (c : CircularBuf) → length (contents c) ≡ size c
length-contents c = length-items c.buffer c.capacity c.tail (size c)
