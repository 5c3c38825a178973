-- ===== src/Tx/Descriptor.antt =====
-- What `nan_add_service_descriptor_attribute` stores where there is room, with service information.
use opennan.Prelude.{
  ℕ, ◌+◌, ◌≤◌, ◌<◌, ◌≡◌, refl, ap, ◌∙◌, some, List, [], ◌∷◌, arith, length, take, true, lt→ltb,
}
use opennan.Prelude.Int.{pos, to_int, u8, u16}
use opennan.Wire.{Buf}
use opennan.Wire.Defs.{store, encode_le}
use opennan.Wire.Bounds.{IsValid, length-store}
use opennan.Service.Defs.{Service}
use opennan.Tx.DescriptorParse.{enough}
use opennan.Tx.Attributes.{
  close_attribute, add_descriptor_info, add_descriptor_fields, add_service_descriptor_attribute,
  add_result, open_attribute, service_control_octet,
}

module _ (b : Buf) (x : Service) (control_type requestor : ℕ) (info : List ℕ) where
  abbrev p : ℕ
  p = b.position

  abbrev q : ℕ
  q = p + 3 + length (take 6 x.service_id)

  -- The block after the id, the service id, both instance ids, the control, and the information.
  abbrev pub bytes0 : List ℕ
  bytes0 = store b.bytes p (3 ∷ [])

  abbrev pub bytes1 : List ℕ
  bytes1 = store bytes0 (p + 3) (take 6 x.service_id)

  abbrev bytes2 : List ℕ
  bytes2 = store bytes1 q (encode_le 1 x.instance_id)

  abbrev bytes3 : List ℕ
  bytes3 = store bytes2 (q + 1) (encode_le 1 requestor)

  abbrev bytes4 : List ℕ
  bytes4 = store bytes3 (q + 1 + 1) (service_control_octet control_type true ∷ [])

  abbrev bytes5 : List ℕ
  bytes5 = store bytes4 (q + 1 + 1 + 1) (encode_le 1 (u8 (length info)))

  abbrev pub bytes6 : List ℕ
  bytes6 = store bytes5 (q + 1 + 1 + 1 + 1) (take (length info) info)

  abbrev pub fields_length : ℕ
  fields_length =
      add_result (add_result (add_result 0 (to_int (length (take 6 x.service_id)))) (pos 1)) (pos 1)

  fields_lem :
      IsValid b
      → length (take 6 x.service_id) ≡ 6
      → p + 13 + length info ≤ b.end
      → add_descriptor_fields b x requestor
        ≡ (fields_length, record b { bytes = bytes3; position = q + 1 + 1 })
  unfolding add_descriptor_fields encode_le
  fields_lem v l h =
      let at : (bytes : List ℕ) (position : ℕ)
          → length bytes ≡ length b.bytes
          → position ≤ b.end
          → IsValid (record b { bytes = bytes; position = position }) =
        λ bytes position e k. record {
          inside = k;
          within = omega (arith, v.within, e);
          small = v.small;
        } in
      let e0 = length-store b.bytes p (3 ∷ []) in
      let e1 = length-store bytes0 (p + 3) (take 6 x.service_id) ∙ e0 in
      let e2 = length-store bytes1 q (encode_le 1 x.instance_id) ∙ e1 in
      let e3 = length-store bytes2 (q + 1) (encode_le 1 requestor) ∙ e2 in
      let t0 =
        enough (record b { bytes = bytes0; position = p }) 3 (at bytes0 p e0 v.inside)
          (omega (arith, h)) in
      let t1 =
        enough (record b { bytes = bytes0; position = p + 3 }) (length (take 6 x.service_id))
          (at bytes0 (p + 3) e0 (omega (arith, h))) (omega (arith, h, l)) in
      let t2 =
        enough (record b { bytes = bytes1; position = q }) 1 (at bytes1 q e1 (omega (arith, h, l)))
          (omega (arith, h, l)) in
      let t3 =
        enough (record b { bytes = bytes2; position = q + 1 }) 1
          (at bytes2 (q + 1) e2 (omega (arith, h, l))) (omega (arith, h, l)) in
      rw (open_attribute, t0, t1, t2, t3) refl

  abbrev pub full_length : ℕ
  full_length =
      add_result (add_result (add_result fields_length (pos 1)) (pos 1))
        (to_int (length (take (length info) info)))

  info_lem :
      IsValid b
      → length (take 6 x.service_id) ≡ 6
      → length info < 256
      → length (take (length info) info) ≡ length info
      → p + 13 + length info ≤ b.end
      → add_descriptor_info control_type
          (some info)
          (length info)
          (fields_length, record b { bytes = bytes3; position = q + 1 + 1 })
        ≡ (
          full_length,
          record b {
            bytes = bytes6;
            position = q + 1 + 1 + 1 + 1 + length (take (length info) info);
          },
        )
  unfolding add_descriptor_info encode_le
  info_lem v l n m h =
      let at : (bytes : List ℕ) (position : ℕ)
          → length bytes ≡ length b.bytes
          → position ≤ b.end
          → IsValid (record b { bytes = bytes; position = position }) =
        λ bytes position e k. record {
          inside = k;
          within = omega (arith, v.within, e);
          small = v.small;
        } in
      let e0 = length-store b.bytes p (3 ∷ []) in
      let e1 = length-store bytes0 (p + 3) (take 6 x.service_id) ∙ e0 in
      let e2 = length-store bytes1 q (encode_le 1 x.instance_id) ∙ e1 in
      let e3 = length-store bytes2 (q + 1) (encode_le 1 requestor) ∙ e2 in
      let e4 =
        length-store bytes3 (q + 1 + 1) (service_control_octet control_type true ∷ []) ∙ e3 in
      let e5 = length-store bytes4 (q + 1 + 1 + 1) (encode_le 1 (u8 (length info))) ∙ e4 in
      let t4 =
        enough (record b { bytes = bytes3; position = q + 1 + 1 }) 1
          (at bytes3 (q + 1 + 1) e3 (omega (arith, h, l))) (omega (arith, h, l)) in
      let t5 =
        enough (record b { bytes = bytes4; position = q + 1 + 1 + 1 }) 1
          (at bytes4 (q + 1 + 1 + 1) e4 (omega (arith, h, l))) (omega (arith, h, l)) in
      let t6 =
        enough (record b { bytes = bytes5; position = q + 1 + 1 + 1 + 1 })
          (length (take (length info) info))
          (at bytes5 (q + 1 + 1 + 1 + 1) e5 (omega (arith, h, l))) (omega (arith, h, l, m)) in
      rw (lt→ltb (length info) 256 n, t4, t5, t6) refl

  pub add_lem :
      IsValid b
      → length (take 6 x.service_id) ≡ 6
      → length info < 256
      → length (take (length info) info) ≡ length info
      → p + 13 + length info ≤ b.end
      → (add_service_descriptor_attribute b x control_type requestor (some info) (length info)).1
        ≡ record b {
          bytes = store bytes6 (p + 1) (encode_le 2 (u16 full_length));
          position = q + 1 + 1 + 1 + 1 + length (take (length info) info);
        }
  unfolding add_service_descriptor_attribute
  add_lem v l n m h =
      ap (λ z. close_attribute z.1 p z.0)
        (ap (add_descriptor_info control_type (some info) (length info)) (fields_lem v l h)
          ∙ info_lem v l n m h)
