-- ===== src/LinkedList/Tests.antt =====
-- The theorems on lists at a list of numbers.
use opennan.Prelude.{ℕ, Bool, List, [], ◌∷◌, ◌==◌}

abbrev items : List ℕ
items = 4 ∷ 7 ∷ 2 ∷ 7 ∷ []

abbrev is_seven : ℕ → Bool
is_seven x = x == 7
