-- ===== src/CircularBuffer/Queue.antt =====
-- What a circular buffer promises: a queue of at most `cap` items, oldest first.
use opennan.Prelude.{ℕ, Bool, List, [], ◌∷◌, ◌++◌, leb, if◌then◌else◌, length}
use opennan.Prelude.Int.{ℤ, pos, minus_one}

pub data Op : Type 0 where
  puts : ℕ → Op
  overrides : ℕ → Op
  gets : ℕ → Bool → Op

abbrev pub Queue : Type 0
Queue = List ℕ

abbrev pub oldest_dropped : Queue → Queue
oldest_dropped [] = []
oldest_dropped (x ∷ q) = q

abbrev pub get : Queue → Bool → ℤ × ℕ × Queue
get [] peek = (minus_one, 0, [])
get (x ∷ q) peek = (pos 0, x, if peek then x ∷ q else q)

module _ (cap : ℕ) where
  abbrev pub put : Queue → ℕ → ℤ × Queue
  put q x = if leb cap (length q) then (minus_one, q) else (pos 0, q ++ x ∷ [])

  -- The newest item always fits: the oldest goes if it must.
  abbrev pub put_override : Queue → ℕ → Queue
  put_override q x = (if leb cap (length q) then oldest_dropped q else q) ++ x ∷ []

  unfoldable pub run : Queue → List Op → List (ℤ × ℕ)
  run q [] = []
  run q (puts x ∷ ops) = let (s, q') = put q x in (s, x) ∷ run q' ops
  run q (overrides x ∷ ops) = run (put_override q x) ops
  run q (gets item peek ∷ ops) = let (s, x, q') = get q peek in (s, x) ∷ run q' ops
