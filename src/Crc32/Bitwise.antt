-- ===== src/Crc32/Bitwise.antt =====
-- The table of src/crc32.c against the division by the polynomial, bit by bit.
use opennan.Prelude.{
  ℕ, zero, suc, ◌*◌, ◌/◌, ◌%◌, ◌^◌, ◌<◌, ◌≡◌, refl, sym, subst, ap, ap₂, ◌∙◌, Bool, true, false,
  ◌&&◌, bit_xor, List, [], ◌∷◌, arith, All, get_or, ◌==◌, ==_iff, if◌then◌else◌, Bool-cases, inl,
  inr,
}
use opennan.Crc32.{crc32_tab, crc32_update, crc32_loop, crc32}
use opennan.Crc32.Xor.{
  bit_xor_half, bit_xor_parity, bit_xor-zero, bit_xor_assoc, bit_xor_split, bit_and-255, shift,
}

-- One bit of the division: shift right, and subtract the reflected polynomial if a one fell out.
abbrev pub crc_bit : ℕ → ℕ
crc_bit crc = bit_xor (if crc % 2 == 1 then 0xedb88320 else 0) (crc / 2)

abbrev pub crc_bits : ℕ → ℕ → ℕ
crc_bits zero crc = crc
crc_bits (suc n) crc = crc_bits n (crc_bit crc)

-- The checksum without a table: an octet is added to the low bits, and eight bits are divided.
pub crc32_reference_loop : ℕ → List ℕ → ℕ
crc32_reference_loop crc [] = crc
crc32_reference_loop crc (octet ∷ octets) =
    crc32_reference_loop (crc_bits 8 (bit_xor crc octet)) octets

pub crc32_reference : List ℕ → ℕ
unfolding crc32_reference_loop
crc32_reference octets = bit_xor (crc32_reference_loop 0xffffffff octets) 0xffffffff

-- Whether the entries of a table below `n` are what eight bits make of their indices.
table_below : List ℕ → ℕ → Bool
table_below table zero = true
table_below table (suc n) = get_or table n 0 == crc_bits 8 n && table_below table n

table_checked : table_below crc32_tab 256 ≡ true
unfolding table_below
table_checked = refl

both_true : (a b : Bool) → (a && b) ≡ true → (a ≡ true) × (b ≡ true)
both_true true b h = (refl, h)
both_true false b h = cc

table_entry :
    (table : List ℕ) (n i : ℕ)
    → table_below table n ≡ true
    → i < n
    → get_or table i 0 ≡ crc_bits 8 i
unfolding table_below
table_entry table zero i h k = absurd (omega arith)
table_entry table (suc n) i h k =
    let (here, below) = both_true _ _ h in
    elim (Bool-cases (i == n)) [
      | inl e ↦
          let last : i ≡ n = (==_iff i n).0 e in
          subst (λ k. get_or table k 0 ≡ crc_bits 8 k) (sym last) ((==_iff _ _).0 here)
      | inr e ↦ table_entry table n i below (ground arith)
    ]

abbrev subtrahend : ℕ → ℕ
subtrahend parity = if parity == 1 then 0xedb88320 else 0

bit_of_shifted :
    (k x hi : ℕ) → crc_bit (bit_xor x (shift (suc k) hi)) ≡ bit_xor (crc_bit x) (shift k hi)
bit_of_shifted k x hi =
    let half : 2 * shift k hi / 2 ≡ shift k hi = omega arith in
    let parity : bit_xor x (2 * shift k hi) % 2 ≡ x % 2 =
      omega (arith, bit_xor_parity x (2 * shift k hi)) in
    ap₂ (λ p y. bit_xor (subtrahend p) y) parity
      (bit_xor_half x (2 * shift k hi) ∙ ap (bit_xor (x / 2)) half)
    ∙ sym (bit_xor_assoc (subtrahend (x % 2)) (x / 2) (shift k hi))

-- High digits pass through unchanged, shifted down.
crc_bits-shift : (k x hi : ℕ) → crc_bits k (bit_xor x (shift k hi)) ≡ bit_xor (crc_bits k x) hi
crc_bits-shift zero x hi = refl
crc_bits-shift (suc k) x hi =
    ap (crc_bits k) (bit_of_shifted k x hi) ∙ crc_bits-shift k (crc_bit x) hi

abbrev shift_right : ℕ → ℕ → ℕ
shift_right zero x = x
shift_right (suc k) x = shift_right k (x / 2)

bit_xor-shift_right :
    (k a b : ℕ) → shift_right k (bit_xor a b) ≡ bit_xor (shift_right k a) (shift_right k b)
bit_xor-shift_right zero a b = refl
bit_xor-shift_right (suc k) a b =
    ap (shift_right k) (bit_xor_half a b) ∙ bit_xor-shift_right k (a / 2) (b / 2)

-- An octet reaches the low eight bits only.
high_bits : (crc octet : ℕ) → octet < 2 ^ 8 → bit_xor crc octet / 2 ^ 8 ≡ crc / 2 ^ 8
high_bits crc octet h =
    let same : bit_xor crc octet / 2 ^ 8 ≡ shift_right 8 (bit_xor crc octet) = omega arith in
    let none_left : shift_right 8 octet ≡ 0 = omega arith in
    let left : shift_right 8 crc ≡ crc / 2 ^ 8 = omega arith in
    same
    ∙ bit_xor-shift_right 8 crc octet
    ∙ ap (bit_xor (shift_right 8 crc)) none_left
    ∙ bit_xor-zero (shift_right 8 crc)
    ∙ left

-- Eight bits at once.
crc_bits_octet : (y : ℕ) → crc_bits 8 y ≡ bit_xor (crc_bits 8 (y % 2 ^ 8)) (y / 2 ^ 8)
crc_bits_octet y =
    let parts : y ≡ bit_xor (y % 2 ^ 8) (shift 8 (y / 2 ^ 8)) =
      omega (arith, bit_xor_split 8 (y % 2 ^ 8) (y / 2 ^ 8) (omega arith)) in
    ap (crc_bits 8) parts ∙ crc_bits-shift 8 (y % 2 ^ 8) (y / 2 ^ 8)

update_lem :
    (crc octet : ℕ) → octet < 2 ^ 8 → crc32_update crc octet ≡ crc_bits 8 (bit_xor crc octet)
unfolding crc32_update
update_lem crc octet h =
    let y = bit_xor crc octet in
    ap₂ bit_xor
      (ap (λ i. get_or crc32_tab i 0) (bit_and-255 y)
        ∙ table_entry crc32_tab 256 (y % 2 ^ 8) table_checked (omega arith))
      (sym (high_bits crc octet h))
    ∙ sym (crc_bits_octet y)

loop_lem :
    (crc : ℕ) (octets : List ℕ)
    → All (λ x. x < 2 ^ 8) octets
    → crc32_loop crc octets ≡ crc32_reference_loop crc octets
unfolding crc32_reference_loop
loop_lem crc [] h = refl
loop_lem crc (octet ∷ octets) h =
    loop_lem (crc32_update crc octet) octets h.1
    ∙ ap (λ c. crc32_reference_loop c octets) (update_lem crc octet h.0)

-- On octets, the checksum by the table is the remainder of the division by the polynomial
-- 0xedb88320, one bit after another.
pub crc32_lem :
    (octets : List ℕ) → All (λ x. x < 2 ^ 8) octets → crc32 octets ≡ crc32_reference octets
unfolding crc32 crc32_reference
crc32_lem octets h = ap (λ c. bit_xor c 0xffffffff) (loop_lem 0xffffffff octets h)
