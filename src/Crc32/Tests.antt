-- ===== src/Crc32/Tests.antt =====
-- The check value of the checksum, "123456789", and the theorem at these octets.
use opennan.Prelude.{ℕ, ◌≡◌, refl, List, [], ◌∷◌, arith}
use opennan.Crc32.{crc32, crc32_update}
use opennan.Crc32.Bitwise.{crc32_reference, crc32_lem}

abbrev digits : List ℕ
digits = 49 ∷ 50 ∷ 51 ∷ 52 ∷ 53 ∷ 54 ∷ 55 ∷ 56 ∷ 57 ∷ []

check_value : crc32 digits ≡ 0xcbf43926
unfolding crc32 crc32_update
check_value = refl

crc32_lem_example : crc32 digits ≡ crc32_reference digits
crc32_lem_example = crc32_lem digits (omega arith)
