-- ===== src/Cmd/Numbers.antt =====
-- `atoi` on decimal digits.
use opennan.Prelude.{
  ℕ, ◌+◌, ◌*◌, ◌-◌, ◌%◌, ◌^◌, ◌<◌, ◌≡◌, refl, ap, false, List, [], ◌∷◌, map, arith, All, true, ◌==◌,
}
use opennan.Prelude.Int.{signed}
use opennan.Cmd.Text.{is_digit, is_space, read_digits, to_number, signed_number, atoi}
use opennan.Cmd.Tokens.{NoSpace}

-- The characters of some digits, and the number that they spell behind another.
abbrev pub digits : List ℕ → List ℕ
digits ds = map (λ d. b'0' + d) ds

abbrev pub value : ℕ → List ℕ → ℕ
value n [] = n
value n (d ∷ ds) = value (n * 10 + d) ds

abbrev pub AreDigits : List ℕ → Type 0
AreDigits = All (λ d. d < 10)

pub digits-NoSpace : (ds : List ℕ) → AreDigits ds → NoSpace (digits ds)
digits-NoSpace [] h = tt
digits-NoSpace (d ∷ ds) h = ((λ e. absurd (omega arith)), digits-NoSpace ds h.1)

read_digits-digits : (n : ℕ) (ds : List ℕ) → AreDigits ds → read_digits n (digits ds) ≡ value n ds
unfolding read_digits
read_digits-digits n [] h = refl
read_digits-digits n (d ∷ ds) h =
    let same : n * 10 + (48 + d - 48) ≡ n * 10 + d = omega arith in
    let small : d < 10 = h.0 in
    let digit : is_digit (48 + d) ≡ true = ground (arith, small) in
    rw (digit, same) (read_digits-digits (n * 10 + d) ds h.1)

-- `atoi` takes the number modulo 2^32, up to the largest `long`.
pub atoi-digits :
    (d : ℕ) (ds : List ℕ)
    → AreDigits (d ∷ ds)
    → value 0 (d ∷ ds) < 2 ^ 63
    → atoi (digits (d ∷ ds)) ≡ signed (2 ^ 31) (value 0 (d ∷ ds) % 2 ^ 32)
unfolding atoi signed_number to_number
atoi-digits d ds h k =
    let small : d < 10 = h.0 in
    let no_space : is_space (48 + d) ≡ false = ground (arith, small) in
    let no_minus : (48 + d == 45) ≡ false = ground (arith, small) in
    let no_plus : (48 + d == 43) ≡ false = ground (arith, small) in
    rw (no_space, no_minus, no_plus, read_digits-digits 0 (d ∷ ds) h)
      (in_range (value 0 (d ∷ ds)) k)
  where
    in_range : (n : ℕ) → n < 2 ^ 63 → to_number false n ≡ signed (2 ^ 31) (n % 2 ^ 32)
    in_range n k = ap (λ m. signed (2 ^ 31) (m % 2 ^ 32)) (omega arith)
