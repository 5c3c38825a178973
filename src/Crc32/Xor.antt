-- ===== src/Crc32/Xor.antt =====
-- Facts about `bit_xor` and `bit_and` at variables, from the digits of both numbers.
use Prim.Native.Nat.{bit_and, digits, differ, bit_xor-bitwise, bit_and-bitwise}
use native.Mathlib.Decide.{dec_lt}
use opennan.Prelude.{
  ℕ, zero, suc, ◌+◌, ◌*◌, ◌/◌, ◌%◌, ◌≤◌, ◌<◌, ◌≡◌, refl, sym, ap, ap₂, ◌∙◌, min, bit_xor, arith,
}

-- Both operations go through the digits with a count of those to go. `rest` is what is left of the
-- second number when the first has run out, `op` what is done with two digits.
module _ (rest : ℕ → ℕ) (op : ℕ → ℕ → ℕ) where
  spare_digit :
      (count a b : ℕ) → a ≤ count → digits rest op (suc count) a b ≡ digits rest op count a b
  spare_digit (suc count) zero b h = refl
  spare_digit zero zero b h = refl
  spare_digit zero (suc a) b h = absurd (omega arith)
  spare_digit (suc count) (suc a) b h =
      ap (λ high. high * 2 + op (suc a % 2) (b % 2))
        (spare_digit count (suc a / 2) (b / 2) (omega arith))

  -- Any count from the number itself on gives the same.
  spare_digits :
      (more count a b : ℕ)
      → a ≤ count
      → count ≤ more
      → digits rest op more a b ≡ digits rest op count a b
  spare_digits zero count a b h k =
      let none : 0 ≡ count = omega arith in ap (λ n. digits rest op n a b) none
  spare_digits (suc more) count a b h k = elim (dec_lt more count) [
    | yes l ↦ let equal : suc more ≡ count = omega arith in ap (λ n. digits rest op n a b) equal
    | no l ↦ spare_digit more a b (omega arith) ∙ spare_digits more count a b h (omega arith)
  ]

  lowest_digit :
      (a b : ℕ)
      → digits rest op (suc a) (suc a) b
        ≡ digits rest op (suc a / 2) (suc a / 2) (b / 2) * 2 + op (suc a % 2) (b % 2)
  lowest_digit a b =
      ap (λ high. high * 2 + op (suc a % 2) (b % 2))
        (spare_digits a (suc a / 2) (suc a / 2) (b / 2) (omega arith) (omega arith))

zero-bit_xor : (b : ℕ) → bit_xor 0 b ≡ b
zero-bit_xor b = bit_xor-bitwise 0 b

-- Two digits differ if their sum is odd.
differ-sum : (x y : ℕ) → x < 2 → y < 2 → differ x y ≡ (x + y) % 2
differ-sum zero y h k = omega arith
differ-sum (suc x) zero h k = omega arith
differ-sum (suc x) (suc y) h k = ap₂ differ x0 y0 ∙ omega (arith, x0, y0)
  where
    x0 : x ≡ 0
    x0 = omega arith

    y0 : y ≡ 0
    y0 = omega arith

-- The law for the lowest digit.
pub bit_xor_step : (a b : ℕ) → bit_xor a b ≡ bit_xor (a / 2) (b / 2) * 2 + (a + b) % 2
bit_xor_step (suc a) b =
    let sum = differ-sum (suc a % 2) (b % 2) (omega arith) (omega arith) in
    let high = bit_xor-bitwise (suc a / 2) (b / 2) in
    omega (arith, bit_xor-bitwise (suc a) b ∙ lowest_digit (λ x. x) differ a b, high, sum)
bit_xor_step zero b =
    let now = zero-bit_xor b in let halved = zero-bit_xor (b / 2) in omega (arith, now, halved)

pub bit_xor_half : (a b : ℕ) → bit_xor a b / 2 ≡ bit_xor (a / 2) (b / 2)
bit_xor_half a b = omega (arith, bit_xor_step a b)

pub bit_xor_parity : (a b : ℕ) → bit_xor a b % 2 ≡ (a + b) % 2
bit_xor_parity a b = omega (arith, bit_xor_step a b)

below-bit_xor-zero : (bound a : ℕ) → a < bound → bit_xor a 0 ≡ a
below-bit_xor-zero zero a h = absurd (omega arith)
below-bit_xor-zero (suc bound) zero h = zero-bit_xor 0
below-bit_xor-zero (suc bound) (suc a) h =
    let high = below-bit_xor-zero bound (suc a / 2) (omega arith) in
    omega (arith, high, bit_xor_step (suc a) 0)

pub bit_xor-zero : (a : ℕ) → bit_xor a 0 ≡ a
bit_xor-zero a = below-bit_xor-zero (suc a) a (omega arith)

-- Exclusive or is associative.
pub bit_xor_assoc : (a b c : ℕ) → bit_xor (bit_xor a b) c ≡ bit_xor a (bit_xor b c)
bit_xor_assoc a b c = fuelled a a b c (omega arith)
  where
    fuelled : (n a b c : ℕ) → a ≤ n → bit_xor (bit_xor a b) c ≡ bit_xor a (bit_xor b c)
    fuelled n zero b c h = ap (λ x. bit_xor x c) (zero-bit_xor b) ∙ sym (zero-bit_xor (bit_xor b c))
    fuelled zero (suc a) b c h = absurd (omega arith)
    fuelled (suc n) (suc a) b c h = omega (
      arith,
      bit_xor_step (bit_xor (suc a) b) c,
      bit_xor_step (suc a) (bit_xor b c),
      bit_xor_parity (suc a) b,
      bit_xor_parity b c,
      ap (λ x. bit_xor x (c / 2)) (bit_xor_half (suc a) b),
      ap (bit_xor (suc a / 2)) (bit_xor_half b c),
      fuelled n (suc a / 2) (b / 2) (c / 2) (omega arith),
    )

-- `x << k`.
abbrev pub shift : ℕ → ℕ → ℕ
shift zero x = x
shift (suc k) x = 2 * shift k x

-- The low digits of a number and its high ones.
pub bit_xor_split : (k lo hi : ℕ) → lo < shift k 1 → bit_xor lo (shift k hi) ≡ lo + shift k hi
bit_xor_split zero zero hi h = omega (arith, zero-bit_xor hi)
bit_xor_split zero (suc lo) hi h = absurd (omega arith)
bit_xor_split (suc k) lo hi h =
    let half : 2 * shift k hi / 2 ≡ shift k hi = omega arith in
    omega (
      arith,
      bit_xor_step lo (2 * shift k hi),
      ap (bit_xor (lo / 2)) half,
      bit_xor_split k (lo / 2) hi (omega arith),
    )

zero-bit_and : (b : ℕ) → bit_and 0 b ≡ 0
zero-bit_and b = bit_and-bitwise 0 b

bit_and_step : (a b : ℕ) → bit_and a b ≡ bit_and (a / 2) (b / 2) * 2 + min (a % 2) (b % 2)
bit_and_step (suc a) b =
    let high = bit_and-bitwise (suc a / 2) (b / 2) in
    omega (arith, bit_and-bitwise (suc a) b ∙ lowest_digit (λ x. 0) min a b, high)
bit_and_step zero b =
    let now = zero-bit_and b in let halved = zero-bit_and (b / 2) in omega (arith, now, halved)

below-bit_and-zero : (bound a : ℕ) → a < bound → bit_and a 0 ≡ 0
below-bit_and-zero zero a h = absurd (omega arith)
below-bit_and-zero (suc bound) zero h = zero-bit_and 0
below-bit_and-zero (suc bound) (suc a) h =
    let high = below-bit_and-zero bound (suc a / 2) (omega arith) in
    omega (arith, high, bit_and_step (suc a) 0)

bit_and-zero : (a : ℕ) → bit_and a 0 ≡ 0
bit_and-zero a = below-bit_and-zero (suc a) a (omega arith)

bit_and_odd : (a m : ℕ) → bit_and a (2 * m + 1) ≡ bit_and (a / 2) m * 2 + a % 2
bit_and_odd a m =
    let half : (2 * m + 1) / 2 ≡ m = omega arith in
    omega (arith, bit_and_step a (2 * m + 1), ap (bit_and (a / 2)) half)

-- The mask of eight ones.
pub bit_and-255 : (a : ℕ) → bit_and a 255 ≡ a % 256
bit_and-255 a = omega (
  arith,
  bit_and_odd a 127,
  bit_and_odd (a / 2) 63,
  bit_and_odd (a / 2 / 2) 31,
  bit_and_odd (a / 2 / 2 / 2) 15,
  bit_and_odd (a / 2 / 2 / 2 / 2) 7,
  bit_and_odd (a / 2 / 2 / 2 / 2 / 2) 3,
  bit_and_odd (a / 2 / 2 / 2 / 2 / 2 / 2) 1,
  bit_and_odd (a / 2 / 2 / 2 / 2 / 2 / 2 / 2) 0,
  bit_and-zero (a / 2 / 2 / 2 / 2 / 2 / 2 / 2 / 2),
)
