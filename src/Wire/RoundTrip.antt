-- ===== src/Wire/RoundTrip.antt =====
-- What was written is read back, in both byte orders and for every width.
use opennan.Prelude.{
  ℕ, zero, suc, ◌+◌, ◌*◌, ◌/◌, ◌%◌, ◌^◌, ◌≤◌, ◌<◌, ◌≡◌, refl, ap, ap₂, ◌∙◌, some, List, [], ◌∷◌,
  ◌++◌, arith, length, set, get_or, get_or-set_self, get_or-set_ne, length-set, length-append,
}
use opennan.Wire.Defs.{
  Buf, slice, store, encode_le, encode_be, decode_le, decode_be, decode_be_from, write_encoded,
  read_decoded,
}
use opennan.Wire.Bounds.{IsValid, too_short-eq, length-store}

-- The number of values of `n` bytes.
abbrev pub limit : ℕ → ℕ
limit zero = 1
limit (suc n) = 2 ^ 8 * limit n

pub decode_le-encode_le : (n v : ℕ) → v < limit n → decode_le (encode_le n v) ≡ v
unfolding decode_le encode_le
decode_le-encode_le zero v h = omega arith
decode_le-encode_le (suc n) v h = omega (arith, decode_le-encode_le n (v / 2 ^ 8) (omega arith))

decode_be_from-append :
    (acc : ℕ) (xs : List ℕ) (y : ℕ)
    → decode_be_from acc (xs ++ y ∷ []) ≡ decode_be_from acc xs * 2 ^ 8 + y
decode_be_from-append acc [] y = refl
decode_be_from-append acc (x ∷ xs) y = decode_be_from-append (acc * 2 ^ 8 + x) xs y

decode_be-encode_be : (n v : ℕ) → v < limit n → decode_be (encode_be n v) ≡ v
unfolding decode_be encode_be
decode_be-encode_be zero v h = omega arith
decode_be-encode_be (suc n) v h = omega (
  arith,
  decode_be_from-append 0 (encode_be n (v / 2 ^ 8)) (v % 2 ^ 8),
  decode_be-encode_be n (v / 2 ^ 8) (omega arith),
)

pub length-encode_le : (n v : ℕ) → length (encode_le n v) ≡ n
unfolding encode_le
length-encode_le zero v = refl
length-encode_le (suc n) v = ap suc (length-encode_le n (v / 2 ^ 8))

length-encode_be : (n v : ℕ) → length (encode_be n v) ≡ n
unfolding encode_be
length-encode_be zero v = refl
length-encode_be (suc n) v = omega (
  arith,
  length-append (encode_be n (v / 2 ^ 8)) (v % 2 ^ 8 ∷ []),
  length-encode_be n (v / 2 ^ 8),
)

-- A store from `at` on leaves what is before.
pub get_or-store :
    (bytes : List ℕ) (at j : ℕ) (xs : List ℕ)
    → j < at
    → get_or (store bytes at xs) j 0 ≡ get_or bytes j 0
get_or-store bytes at j [] h = refl
get_or-store bytes at j (x ∷ xs) h =
    get_or-store (set bytes at x) (at + 1) j xs (omega arith)
    ∙ get_or-set_ne bytes at j x 0 (λ e. omega (arith, e))

pub slice-store :
    (bytes : List ℕ) (at : ℕ) (xs : List ℕ)
    → at + length xs ≤ length bytes
    → slice (store bytes at xs) at (length xs) ≡ xs
slice-store bytes at [] h = refl
slice-store bytes at (x ∷ xs) h =
    ap₂ (λ y ys. y ∷ ys)
      (get_or-store (set bytes at x) (at + 1) at xs (omega arith)
        ∙ get_or-set_self bytes at x 0 (omega arith))
      (slice-store (set bytes at x) (at + 1) xs (omega (arith, length-set bytes at x)))

module _ (b : Buf) (v : IsValid b) where
  write-read :
      (xs : List ℕ) (n : ℕ) (decode : List ℕ → ℕ)
      → length xs ≡ n
      → n < 2 ^ 31
      → b.position + n ≤ b.end
      → let (count, written) = write_encoded b xs in
        (count ≡ n)
        × (read_decoded decode n (record written { position = b.position })
            ≡ (n, some (decode xs), written))
  unfolding write_encoded read_decoded
  write-read xs n decode e h k =
      let stored = slice-store b.bytes b.position xs (omega (arith, v.within)) in
      let test = too_short-eq n v h in
      let after : Buf = record b { bytes = store b.bytes b.position xs } in
      let again =
        too_short-eq {b = after} n
          (record {
            inside = v.inside;
            within = omega (arith, v.within, length-store b.bytes b.position xs);
            small = v.small;
          })
          h in
      ground (arith, e, test, again, stored)

  -- For a valid buffer, a value that fits in `n` bytes, and with `n` bytes left, writing it returns
  -- `n`, and reading `n` bytes from where it was written gives the value back and ends where the
  -- write ended; in little-endian and in big-endian order.
  pub write_encoded-read_decoded :
      (n value : ℕ)
      → n < 2 ^ 31
      → b.position + n ≤ b.end
      → value < limit n
      → let (count, le) = write_encoded b (encode_le n value) in
        let (count_be, be) = write_encoded b (encode_be n value) in
        (count ≡ n)
        × (read_decoded decode_le n (record le { position = b.position }) ≡ (n, some value, le))
        × (count_be ≡ n)
        × (read_decoded decode_be n (record be { position = b.position }) ≡ (n, some value, be))
  write_encoded-read_decoded n value h k l =
      let (c, r) = write-read (encode_le n value) n decode_le (length-encode_le n value) h k in
      let (c', r') = write-read (encode_be n value) n decode_be (length-encode_be n value) h k in
      (
        c,
        r
            ∙ ap (λ x. (n, some x, (write_encoded b (encode_le n value)).1))
                (decode_le-encode_le n value l),
        c',
        r'
            ∙ ap (λ x. (n, some x, (write_encoded b (encode_be n value)).1))
                (decode_be-encode_be n value l),
      )
