-- ===== src/Rx/Attributes.antt =====
-- The loop over the attributes of a frame ends.
use opennan.Prelude.{
  ℕ, zero, suc, ◌+◌, ◌^◌, ◌≤◌, ◌<◌, ◌≡◌, ◌≢◌, refl, sym, subst, ◌∙◌, Bool, true, false, Option,
  none, some, List, [], ◌∷◌, arith, get_or, All, if◌then◌else◌,
}
use opennan.Prelude.Int.{ℤ, pos, minus_one, ltb_ℤ}
use opennan.Wire.Defs.{
  Buf, read_decoded, read_bytes, read_u8, read_le16, decode_le, buf_error, buf_rest, buf_new_const,
}
use mathlib.Core.Option.{none-ne-some}
use opennan.Wire.Bounds.{IsValid, too_short-eq}
use opennan.Rx.Reads.{ReadOf, ReadOf-read_decoded, ReadOf-read_bytes, read_here, IsValid-at}
use opennan.Rx.Defs.{
  Attribute, attribute_read_next, iterate_attributes, value_or, rx_ok, rx_too_short,
}

-- A buffer of octets.
abbrev pub AreOctets : List ℕ → Type 0
AreOctets = All (λ x. x < 2 ^ 8)

get_or-lt : (xs : List ℕ) (i : ℕ) → AreOctets xs → get_or xs i 0 < 2 ^ 8
get_or-lt [] i h = omega arith
get_or-lt (x ∷ xs) zero h = h.0
get_or-lt (x ∷ xs) (suc i) h = get_or-lt xs i h.1

-- A 16-bit number that was read, or the one from before, has 16 bits.
le16-lt :
    (b : Buf) (last : ℕ)
    → AreOctets b.bytes
    → last < 2 ^ 16
    → value_or last (read_le16 b).1 < 2 ^ 16
unfolding read_decoded decode_le
le16-lt b last h l =
    ground (arith, get_or-lt b.bytes b.position h, get_or-lt b.bytes (b.position + 1) h)

-- What `nan_attribute_read_next` leaves: a header that was read moves the position by three or
-- more.
record NextOf (b : Buf) (length : ℤ) (attribute : Attribute) (b' : Buf) : Type 0 where
  valid : IsValid b'
  same_bytes : b'.bytes ≡ b.bytes
  same_end : b'.end ≡ b.end
  small : attribute.length < 2 ^ 16
  moved : ltb_ℤ (pos 0) length ≡ true → b.position + 3 ≤ b'.position

three_on :
    {n : ℕ} (b b1 b2 b3 : Buf)
    → ReadOf 1 b b1
    → ReadOf 2 b1 b2
    → ReadOf n b2 b3
    → b3.error ≢ minus_one
    → b.position + 3 ≤ b3.position
three_on b b1 b2 b3 r1 r2 r3 e =
    let fine2 : b2.error ≢ minus_one = λ f. e (r3.sticky f) in
    let fine1 : b1.error ≢ minus_one = λ f. fine2 (r2.sticky f) in
    omega (arith, r1.moved fine1, r2.moved fine2, r3.forward)

-- A positive length comes with a buffer that has no error.
positive-no_error :
    (z : ℤ) (n : ℕ)
    → ltb_ℤ (pos 0) (if ltb_ℤ z (pos 0) then rx_too_short else pos (3 + n)) ≡ true
    → z ≢ minus_one
positive-no_error z n h = ground arith

NextOf-read_next :
    (b : Buf) (last : Attribute)
    → IsValid b
    → AreOctets b.bytes
    → last.length < 2 ^ 16
    → let (length, attribute, b') = attribute_read_next b last in NextOf b length attribute b'
unfolding attribute_read_next buf_error
NextOf-read_next b last v o l =
    let b1 : Buf = (read_u8 b).2 in
    let b2 : Buf = (read_le16 b1).2 in
    let length = value_or last.length (read_le16 b1).1 in
    let b3 : Buf = (read_bytes b2 length).2 in
    let r1 = ReadOf-read_decoded decode_le 1 b v (omega arith) in
    let r2 = ReadOf-read_decoded decode_le 2 b1 r1.valid (omega arith) in
    let small = le16-lt b1 last.length (subst AreOctets (sym r1.same_bytes) o) l in
    let r3 = ReadOf-read_bytes length b2 r2.valid (omega (arith, small)) in
    record {
      valid = r3.valid;
      same_bytes = r3.same_bytes ∙ r2.same_bytes ∙ r1.same_bytes;
      same_end = r3.same_end ∙ r2.same_end ∙ r1.same_end;
      small = small;
      moved = λ h. three_on b b1 b2 b3 r1 r2 r3 (positive-no_error b3.error length h);
    }

-- A round gives a result if the rest of the rounds does, where it is asked for.
round_total {ℓ} :
    {A : Type ℓ} (go stop : Bool) (x y : A) (rest : Option A)
    → (go ≡ true → rest ≢ none)
    → (if go then if stop then some x else rest else some y) ≢ none
round_total true true x y rest h = λ e. none-ne-some _ (sym e)
round_total true false x y rest h = h refl
round_total false stop x y rest h = λ e. none-ne-some _ (sym e)

module _ {ℓ} {S : Type ℓ} (handle : Attribute → Buf → S → ℤ × S) where
  -- In a valid frame of octets, fuel for one round more than there are octets left is enough for
  -- the loop of NAN_ITERATE_ATTRIBUTES to end, whatever the handler does and whatever was read
  -- before.
  pub iterate_attributes_total :
      (fuel : ℕ) (b : Buf) (last : Attribute) (result : ℤ) (s : S)
      → IsValid b
      → AreOctets b.bytes
      → last.length < 2 ^ 16
      → b.end < b.position + fuel
      → iterate_attributes handle fuel b last result s ≢ none
  unfolding iterate_attributes
  iterate_attributes_total zero b last result s v o l f = absurd (omega (arith, v.inside))
  iterate_attributes_total (suc fuel) b last result s v o l f =
      let (length, attribute, b') = attribute_read_next b last in
      let next : NextOf b length attribute b' = NextOf-read_next b last v o l in
      let handled = handle attribute (buf_new_const attribute.data_bytes attribute.length) s in
      round_total _ _ _ _ _ (λ h.
        iterate_attributes_total fuel b' attribute handled.0 handled.1 next.valid
          (subst AreOctets (sym next.same_bytes) o) next.small
          (omega (arith, next.moved h, next.same_end)))

-- A read that asks for more than is left.
pub read_short :
    (decode : List ℕ → ℕ) (n : ℕ) (b : Buf)
    → IsValid b
    → n < 2 ^ 31
    → b.end < b.position + n
    → read_decoded decode n b ≡ (0, none, record b { error = minus_one })
unfolding read_decoded
read_short decode n b v h k = ground (arith, too_short-eq n v h)

-- At the end of a buffer a read fails, or reads nothing.
read_at_end :
    (n : ℕ) (b : Buf)
    → IsValid b
    → n < 2 ^ 31
    → b.position ≡ b.end
    → b.error ≡ minus_one
    → (read_bytes b n).2 ≡ b
unfolding read_bytes
read_at_end n b v h k e = ground (arith, too_short-eq n v h)

module _ {ℓ} {S : Type ℓ} (handle : Attribute → Buf → S → ℤ × S) where
  -- A valid buffer without an error, in which all attributes but one octet were read, none with a
  -- negative result and the last of a length of 16 bits, is accepted: the octet is consumed before
  -- the missing length is noticed, nothing is left then, and the result is RX_OK.
  pub lone_octet_accepted :
      (fuel : ℕ) (b : Buf) (last : Attribute) (result : ℤ) (s : S)
      → IsValid b
      → b.error ≡ pos 0
      → b.position + 1 ≡ b.end
      → last.length < 2 ^ 16
      → ltb_ℤ result (pos 0) ≡ false
      → iterate_attributes handle (suc fuel) b last result s
        ≡ some (rx_ok, s, record b { position = b.position + 1; error = minus_one })
  unfolding iterate_attributes buf_error buf_rest
  lone_octet_accepted fuel b last result s v e k l r =
      let b1 : Buf = record b { position = b.position + 1 } in
      let b2 : Buf = record b { position = b.position + 1; error = minus_one } in
      let v1 = IsValid-at b (b.position + 1) v (omega arith) in
      let v2 : IsValid b2 = record { inside = v1.inside; within = v1.within; small = v1.small } in
      rw
        (
          read_here decode_le 1 b v (omega arith) (omega arith),
          read_short decode_le 2 b1 v1 (omega arith) (omega arith),
          read_at_end last.length b2 v2 (omega arith) k refl,
        )
        (ground (arith, r, k))
