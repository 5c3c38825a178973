-- ===== src/Wire/Bounds.antt =====
-- Reads and writes stay inside the buffer, and an error stays set.
use opennan.Prelude.{
  ℕ, ◌+◌, ◌^◌, ◌≤◌, ◌<◌, ◌↔◌, ◌≡◌, refl, ◌∙◌, List, [], ◌∷◌, arith, length, set, length-set, ltb,
  if◌then◌else◌, none, some,
}
use opennan.Prelude.Int.{minus_one}
use opennan.Wire.Defs.{
  Buf, buf_advance, buf_take, buf_strip, write_encoded, write_bytes, read_decoded, read_bytes,
  read_ether_addr, buf_resize, buf_position, too_short, store, slice,
}

-- The position lies within the end, and the end within the block; sizes fit an `int`.
pub record IsValid (b : Buf) : Type 0 where
  pub inside : b.position ≤ b.end
  pub within : b.end ≤ length b.bytes
  pub small : b.end < 2 ^ 31

pub length-store :
    (bytes : List ℕ) (at : ℕ) (xs : List ℕ) → length (store bytes at xs) ≡ length bytes
length-store bytes at [] = refl
length-store bytes at (x ∷ xs) = length-store (set bytes at x) (at + 1) xs ∙ length-set bytes at x

-- Under the invariant, and for lengths that an `int` holds, the test is the comparison of numbers.
pub too_short-eq :
    {b : Buf} (n : ℕ) → IsValid b → n < 2 ^ 31 → too_short b n ≡ ltb b.end (b.position + n)
unfolding too_short
too_short-eq n v h = ground arith

-- A valid buffer whose start is not behind its position.
pub record IsInside (b : Buf) : Type 0 where
  pub valid : IsValid b
  pub started : b.start ≤ b.position

-- The moves, the reads and the writes of src/wire.c keep start, position, end and block in order,
-- for any value and any length that an `int` holds; `buf_strip` does so where nothing was stripped
-- before, since it compares with the position from the beginning of the data. `buf_resize` to
-- `size`, with the block that `realloc` returned, keeps them in order exactly if the end still lies
-- within the block: it does not move the end.
pub operations-IsInside :
    (b : Buf) (n size : ℕ) (xs grown : List ℕ) (decode : List ℕ → ℕ)
    → IsInside b
    → n < 2 ^ 31
    → length xs < 2 ^ 31
    → IsInside (buf_advance b n).1
      × IsInside (buf_take b n).1
      × (b.start ≡ 0 → IsInside (buf_strip b n).1)
      × IsInside (write_encoded b xs).1
      × IsInside (write_bytes b xs).1
      × IsInside (read_decoded decode n b).2
      × IsInside (read_bytes b n).2
      × IsInside (read_ether_addr b).2
      × (IsInside (buf_resize b grown size) ↔ (b.end ≤ length (if b.owned then grown else b.bytes)))
unfolding buf_advance buf_take buf_strip write_encoded write_bytes read_decoded read_bytes
    read_ether_addr buf_resize buf_position
operations-IsInside b n size xs grown decode v h k =
    let t = too_short-eq n v.valid h in
    let u = too_short-eq (length xs) v.valid k in
    let l = length-store b.bytes b.position xs in
    (
      ground (arith, t),
      ground (arith, t),
      (λ z. ground (arith, z)),
      ground (arith, u, l),
      ground (arith, u, l),
      ground (arith, t),
      ground (arith, t),
      ground arith,
      (
        (λ r. r.valid.within),
        λ r. record {
          valid = record { inside = v.valid.inside; within = r; small = v.valid.small };
          started = v.started;
        },
      ),
    )

-- An operation fails exactly if the bytes that it wants are not left, and then it returns its error
-- value, sets the error, and moves nothing; an error that was set before stays set in any case.
pub read_fails :
    (b : Buf) (n : ℕ) (decode : List ℕ → ℕ)
    → IsValid b
    → n < 2 ^ 31
    → (read_decoded decode n b ≡ (
        if ltb b.end (b.position + n) then (0, none, record b { error = minus_one }) else (
          n,
          some (decode (slice b.bytes b.position n)),
          record b { position = b.position + n },
        )))
      × (b.error ≡ minus_one → (read_decoded decode n b).2.error ≡ minus_one)
unfolding read_decoded
read_fails b n decode v h = ground (arith, too_short-eq n v h)
