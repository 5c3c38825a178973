-- ===== src/Tx/DataPath.antt =====
-- The data path attribute of src/tx.c.
use opennan.Prelude.{
  ℕ, ◌+◌, ◌-◌, ◌*◌, ◌%◌, ◌^◌, Bool, not, ◌&&◌, Option, none, some, List, [], ◌∷◌, ◌++◌, take, ◌==◌,
  if◌then◌else◌,
}
use opennan.Prelude.Int.{ℤ, to_int, u16}
use opennan.Utils.{EtherAddr}
use opennan.Wire.{Buf}
use opennan.Wire.Defs.{octets, encode_le, buf_advance, write_encoded, write_bytes, write_u8}
use opennan.Ieee80211.{put_at}
use opennan.Tx.Attributes.{write_then, write_bytes_then}

-- `struct nan_data_path_attribute_fixed`, the last octet the control.
abbrev pub data_path_octets : ℕ → ℕ → ℕ → EtherAddr → ℕ → ℕ → List ℕ
data_path_octets length type status initiator_address data_path_id control =
    0x10 ∷ encode_le 2 (u16 length)
    ++ 0 ∷ (type % 2 ^ 4 + status % 2 ^ 4 * 2 ^ 4) ∷ 0 ∷ octets initiator_address
    ++ data_path_id ∷ control ∷ []

-- What is written if a condition holds, with the bit of the control that says so.
abbrev pub optional : Bool → ℕ → (ℕ × Buf → ℕ × Buf) → ℕ × ℕ × Buf → ℕ × ℕ × Buf
optional condition bit write (control, length, b) =
    if condition
    then (let (length', b') = write (length, b) in (control + 2 ^ bit, length', b'))
    else (control, length, b)

-- The fixed part is stored when all of its fields are known: what is written in the meantime lies
-- behind it, if it fits.
unfoldable pub add_data_path_attribute :
    Buf → ℕ → EtherAddr → ℕ → ℕ → ℕ → Option EtherAddr → Option (List ℕ) → ℕ → ℤ × Buf
unfolding write_encoded write_bytes buf_advance
add_data_path_attribute b data_path_id initiator_address status type publish_id responder_address
      info info_length =
    let (_, b0) = buf_advance b 14 in
    let published =
      optional (type == 0 && not (publish_id == 0)) 3
        (λ so_far. write_then so_far (λ x. write_u8 x publish_id)) (0, 14, b0) in
    let responded = elim responder_address as (λ o. ℕ × ℕ × Buf) [
      | none ↦ published
      | some a ↦ optional (type == 1) 4 (λ so_far. write_bytes_then so_far (octets a)) published
    ] in
    let (control, length, b') = elim info as (λ o. ℕ × ℕ × Buf) [
      | none ↦ responded
      | some bytes ↦
          optional (not (info_length == 0)) 5
            (λ so_far. write_bytes_then so_far (take info_length bytes)) responded
    ] in
    (
      to_int length,
      put_at b' b.position
          (data_path_octets (length - 3) type status initiator_address data_path_id control),
    )
