-- ===== src/Tx/DescriptorParse.antt =====
-- `nan_parse_sda` on the data of a service descriptor with service information.
use opennan.Prelude.{
  ℕ, zero, suc, ◌+◌, ◌%◌, ◌^◌, ◌≤◌, ◌<◌, ◌≡◌, refl, ap, ap₂, ◌∙◌, some, List, [], ◌∷◌, ◌++◌, arith,
  length, get_or, true, false,
}
use opennan.Prelude.Int.{ℤ}
use opennan.LinkedList.{list_add}
use opennan.Wire.{Buf}
use opennan.Wire.Defs.{slice, buf_new_const, buf_error, too_short}
use opennan.Wire.Bounds.{IsValid, too_short-eq}
use opennan.Rx.Defs.{rx_ok}
use opennan.Rx.Discovery.{
  parse_sda, sda_result, bit_set, read_descriptor_fields, skip_fields, read_service_info,
}
use opennan.Service.Defs.{ServiceDescriptor}
use opennan.Tx.Stored.{decode_le-octet}

-- Where there is room.
pub enough : (b : Buf) (n : ℕ) → IsValid b → b.position + n ≤ b.end → too_short b n ≡ false
enough b n v h = ground (arith, v.small, too_short-eq n v (omega (arith, v.small, h)))

slice-cons : (x : ℕ) (xs : List ℕ) (i j n : ℕ) → j ≡ suc i → slice (x ∷ xs) j n ≡ slice xs i n
slice-cons x xs i j zero e = refl
slice-cons x xs i zero (suc n) e = absurd (omega (arith, e))
slice-cons x xs i (suc j) (suc n) e =
    let same : j ≡ i = omega (arith, e) in
    ap₂ (λ y ys. y ∷ ys) (ap (λ k. get_or xs k 0) same)
      (slice-cons x xs (i + 1) (suc j + 1) n (omega (arith, e)))

slice_all : (xs : List ℕ) → slice xs 0 (length xs) ≡ xs
slice_all [] = refl
slice_all (x ∷ xs) = ap (λ ys. x ∷ ys) (slice-cons x xs 0 1 (length xs) refl ∙ slice_all xs)

-- What is behind the first octets.
slice_behind : (xs ys : List ℕ) (j : ℕ) → j ≡ length xs → slice (xs ++ ys) j (length ys) ≡ ys
slice_behind [] ys j e = ap (λ k. slice ys k (length ys)) e ∙ slice_all ys
slice_behind (x ∷ xs) ys j e =
    slice-cons x (xs ++ ys) (length xs) j (length ys) e ∙ slice_behind xs ys (length xs) refl

-- The four tests of a control with service information only.
control_bits :
    (t : ℕ)
    → let control = t % 2 ^ 2 + 2 ^ 4 in
      (bit_set control 6 ≡ false)
      × (bit_set control 2 ≡ false)
      × (bit_set control 3 ≡ false)
      × (bit_set control 4 ≡ true)
control_bits t = ground arith

module _ (s0 s1 s2 s3 s4 s5 instance_id requestor control_type : ℕ) (info : List ℕ) where
  abbrev control : ℕ
  control = control_type % 2 ^ 2 + 2 ^ 4

  -- The data of the attribute.
  abbrev pub descriptor_data : List ℕ
  descriptor_data =
      (s0 ∷ s1 ∷ s2 ∷ s3 ∷ s4 ∷ s5 ∷ instance_id ∷ requestor ∷ control ∷ length info ∷ []) ++ info

  abbrev buffer : Buf
  buffer = buf_new_const descriptor_data (10 + length info)

  abbrev head_of : ServiceDescriptor → ServiceDescriptor
  head_of raw = record raw {
    service_id = s0 ∷ s1 ∷ s2 ∷ s3 ∷ s4 ∷ s5 ∷ [];
    instance_id = instance_id;
    requestor_instance_id = requestor;
    control = control;
  }

  -- What a receiver adds to its list.
  abbrev pub descriptor_read : ServiceDescriptor → ServiceDescriptor
  descriptor_read raw = record (head_of raw) {
    service_info_length = length info;
    service_info = some info;
  }

  module _ (h : length info < 2 ^ 16) where
    buffer_at-IsValid :
        (position : ℕ) → position ≤ 10 → IsValid (record buffer { position = position })
    unfolding buf_new_const
    buffer_at-IsValid position k = record {
      inside = omega arith;
      within = omega arith;
      small = omega arith;
    }

    room :
        (position : ℕ) → position < 10 → too_short (record buffer { position = position }) 1 ≡ false
    unfolding buf_new_const
    room position k =
        enough (record buffer { position = position }) 1 (buffer_at-IsValid position (omega arith))
          (omega arith)

    fields_read :
        (raw : ServiceDescriptor)
        → read_descriptor_fields raw buffer ≡ (head_of raw, record buffer { position = 9 })
    unfolding read_descriptor_fields buf_new_const
    fields_read raw =
        let t0 = enough buffer 6 (buffer_at-IsValid 0 (omega arith)) (omega arith) in
        rw
          (
            t0,
            room 6 (omega arith),
            room 7 (omega arith),
            room 8 (omega arith),
            decode_le-octet instance_id,
            decode_le-octet requestor,
            decode_le-octet control,
          )
          refl

    nothing_skipped :
        skip_fields control (record buffer { position = 9 }) ≡ record buffer { position = 9 }
    unfolding skip_fields buf_new_const
    nothing_skipped = let (c6, c2, c3, c4) = control_bits control_type in rw (c6, c2, c3) refl

    info_read :
        (raw : ServiceDescriptor)
        → read_service_info true (head_of raw) (record buffer { position = 9 })
          ≡ (descriptor_read raw, record buffer { position = 10 + length info })
    unfolding read_service_info buf_new_const
    info_read raw =
        let t10 =
          enough (record buffer { position = 10 }) (length info)
            (buffer_at-IsValid 10 (omega arith)) (omega arith) in
        let found =
          slice_behind
            (s0 ∷ s1 ∷ s2 ∷ s3 ∷ s4 ∷ s5 ∷ instance_id ∷ requestor ∷ control ∷ length info ∷ [])
            info 10 refl in
        rw (room 9 (omega arith), decode_le-octet (length info), t10, found) refl

    pub parse_descriptor :
        (raw : ServiceDescriptor) (descriptors : List ServiceDescriptor)
        → parse_sda raw buffer descriptors ≡ (rx_ok, list_add descriptors (descriptor_read raw))
    unfolding parse_sda buf_error buf_new_const
    parse_descriptor raw descriptors =
        let (c6, c2, c3, c4) = control_bits control_type in
        let after : ServiceDescriptor × Buf → ℤ × List ServiceDescriptor = λ z.
          sda_result descriptors
            (read_service_info (bit_set z.0.control 4) z.0 (skip_fields z.0.control z.1)) in
        ap after (fields_read raw)
        ∙ ap (λ z. sda_result descriptors (read_service_info (bit_set control 4) (head_of raw) z))
            nothing_skipped
        ∙ ap
            (λ z.
              sda_result descriptors
                (read_service_info z (head_of raw) (record buffer { position = 9 })))
            c4
        ∙ ap (sda_result descriptors) (info_read raw)
