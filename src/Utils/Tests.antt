-- ===== src/Utils/Tests.antt =====
-- Runs of the helpers, and their theorems at concrete values.
use opennan.Prelude.{ℕ, ◌-◌, ◌^◌, ◌≡◌, refl, [], ◌∷◌, some}
use opennan.Utils.{EtherAddr, increase_non_zero_id, get_rand_num}

abbrev addr : ℕ → EtherAddr
addr n = record { octet0 = 0x50; octet1 = 0x6f; octet2 = 0x9a; octet3 = 1; octet4 = n; octet5 = 7 }

ids_skip_zero : increase_non_zero_id 255 ≡ 1
unfolding increase_non_zero_id
ids_skip_zero = refl

abbrev int_max : ℕ
int_max = 2 ^ 31 - 1

draw : get_rand_num int_max (int_max ∷ 1000000000 ∷ []) 0 255 ≡ some 119
unfolding get_rand_num
draw = refl
