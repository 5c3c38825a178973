-- ===== src/Rx/Rounds.antt =====
-- Single rounds of the loop over the attributes.
use opennan.Prelude.{ℕ, suc, ◌+◌, ◌≡◌, some, Option, arith, if◌then◌else◌, ◌∙◌, ap}
use opennan.Prelude.Int.{ℤ, pos, ltb_ℤ}
use opennan.Wire.{Buf}
use opennan.Wire.Defs.{buf_new_const}
use opennan.Rx.Defs.{
  Attribute, attribute_read_next, iterate_attributes, result_at_end, rx_ok, rx_too_short,
}

module _ {ℓ} {S : Type ℓ} (handle : Attribute → Buf → S → ℤ × S) (fuel : ℕ) (last : Attribute)
    (result : ℤ) (s : S) where
  -- The rest of a round, from what `handle` returned and from what was read.
  abbrev after_handle : ℤ → Attribute → Buf → ℤ × S → Option (ℤ × S × Buf)
  after_handle length attribute b (result', s') =
      let rest = iterate_attributes handle fuel b attribute result' s' in
      if ltb_ℤ (pos 0) length
      then if ltb_ℤ result' (pos 0) then some (result', s', b) else rest
      else some (result_at_end b result, s, b)

  abbrev after_read : ℤ × Attribute × Buf → Option (ℤ × S × Buf)
  after_read (length, attribute, b) =
      after_handle length attribute b
        (handle attribute (buf_new_const attribute.data_bytes attribute.length) s)

  -- An attribute that is read and handled without an error.
  pub iterate_round :
      (b b' : Buf) (n : ℕ) (attribute : Attribute) (s' : S)
      → attribute_read_next b last ≡ (pos (3 + n), attribute, b')
      → handle attribute (buf_new_const attribute.data_bytes attribute.length) s ≡ (rx_ok, s')
      → iterate_attributes handle (suc fuel) b last result s
        ≡ iterate_attributes handle fuel b' attribute rx_ok s'
  unfolding iterate_attributes
  iterate_round b b' n attribute s' e h =
      let went_on : after_handle (pos (3 + n)) attribute b' (rx_ok, s')
          ≡ iterate_attributes handle fuel b' attribute rx_ok s' =
        ground arith in
      ap after_read e ∙ ap (after_handle (pos (3 + n)) attribute b') h ∙ went_on

  -- No attribute is left.
  pub iterate_end :
      (b b' : Buf)
      → attribute_read_next b last ≡ (rx_too_short, last, b')
      → iterate_attributes handle (suc fuel) b last result s ≡ some (result_at_end b' result, s, b')
  unfolding iterate_attributes
  iterate_end b b' e = ap after_read e
