-- ===== src/Tx/DescriptorStored.antt =====
-- The octets of a service descriptor with service information of less than 256 octets in the
-- buffer, as the reader of attributes finds them.
use opennan.Prelude.{
  ℕ, ◌+◌, ◌%◌, ◌^◌, ◌≤◌, ◌<◌, ◌≡◌, inl, inr, refl, sym, ap, ap₂, ◌∙◌, some, List, [], ◌∷◌, ◌++◌,
  arith, length, take, true,
}
use opennan.Prelude.Int.{pos, u8, u16}
use opennan.Wire.{Buf}
use opennan.Wire.Defs.{slice, store, encode_le, decode_le}
use opennan.Wire.Bounds.{IsValid, length-store}
use opennan.Wire.Stored.{slice-store_apart, store_append}
use opennan.Service.Defs.{Service}
use opennan.Rx.Defs.{Attribute, attribute_read_next}
use opennan.Rx.Parsers.{read_next_lem}
use opennan.Wire.RoundTrip.{slice-store, decode_le-encode_le}
use opennan.Tx.DescriptorParse.{descriptor_data}
use native.Mathlib.Nat.{mod-eq_of_lt}
use opennan.Tx.Attributes.{add_service_descriptor_attribute, service_control_octet}
use opennan.Tx.Stored.{decode_le-octet}
use opennan.Tx.Descriptor.{bytes0, bytes6, full_length, add_lem}

take_all : (xs : List ℕ) → take (length xs) xs ≡ xs
take_all [] = refl
take_all (x ∷ xs) = ap (λ ys. x ∷ ys) (take_all xs)

-- A service with six octets as its id.
module _ (b : Buf) (x0 : Service) (s0 s1 s2 s3 s4 s5 control_type requestor : ℕ) (info : List ℕ)
    (v : IsValid b) (short : length info < 256) (room : b.position + 13 + length info ≤ b.end)
    (small_id : x0.instance_id < 2 ^ 8) (small_requestor : requestor < 2 ^ 8) where
  abbrev service : Service
  service = record x0 { service_id = s0 ∷ s1 ∷ s2 ∷ s3 ∷ s4 ∷ s5 ∷ [] }

  abbrev at : ℕ
  at = b.position

  abbrev content : List ℕ
  content = descriptor_data s0 s1 s2 s3 s4 s5 x0.instance_id requestor control_type info

  -- The octets behind the header, with what the widths of the fields do to them.
  abbrev encoded : ℕ → ℕ → ℕ → List ℕ → List ℕ
  encoded i r n xs = s0 ∷ s1 ∷ s2 ∷ s3 ∷ s4 ∷ s5 ∷ i ∷ r ∷ (control_type % 2 ^ 2 + 2 ^ 4) ∷ n ∷ xs

  joined :
      bytes6 b service control_type requestor info
      ≡ store (bytes0 b service control_type requestor info) (at + 3) content
  unfolding encode_le
  joined =
      let start = bytes0 b service control_type requestor info in
      let f = take 6 service.service_id in
      let i = encode_le 1 x0.instance_id in
      let r = encode_le 1 requestor in
      let c = service_control_octet control_type true ∷ [] in
      let n = encode_le 1 (u8 (length info)) in
      let xs = take (length info) info in
      let j1 = store_append start (at + 3) (at + 3 + 6) f i refl in
      let j2 =
        ap (λ z. store z (at + 3 + 6 + 1) r) j1
        ∙ store_append start (at + 3) (at + 3 + 6 + 1) (f ++ i) r (omega arith) in
      let j3 =
        ap (λ z. store z (at + 3 + 6 + 1 + 1) c) j2
        ∙ store_append start (at + 3) (at + 3 + 6 + 1 + 1) (f ++ i ++ r) c (omega arith) in
      let j4 =
        ap (λ z. store z (at + 3 + 6 + 1 + 1 + 1) n) j3
        ∙ store_append start (at + 3) (at + 3 + 6 + 1 + 1 + 1) (f ++ i ++ r ++ c) n (omega arith) in
      let j5 =
        ap (λ z. store z (at + 3 + 6 + 1 + 1 + 1 + 1) xs) j4
        ∙ store_append start (at + 3) (at + 3 + 6 + 1 + 1 + 1 + 1) (f ++ i ++ r ++ c ++ n) xs
            (omega arith) in
      let same_length : u8 (length info) % 2 ^ 8 ≡ length info = omega (arith, short) in
      j5
      ∙ ap (λ z. store start (at + 3) (encoded z (requestor % 2 ^ 8) (u8 (length info) % 2 ^ 8) xs))
          (mod-eq_of_lt small_id)
      ∙ ap (λ z. store start (at + 3) (encoded x0.instance_id z (u8 (length info) % 2 ^ 8) xs))
          (mod-eq_of_lt small_requestor)
      ∙ ap (λ z. store start (at + 3) (encoded x0.instance_id requestor z xs)) same_length
      ∙ ap (λ z. store start (at + 3) (encoded x0.instance_id requestor (length info) z))
          (take_all info)

  taken : length (take (length info) info) ≡ length info
  taken = ap length (take_all info)

  full_length-eq : u16 (full_length b service control_type requestor info) ≡ 10 + length info
  full_length-eq = ground (arith, taken, short)

  abbrev stored : List ℕ
  stored = store (bytes0 b service control_type requestor info) (at + 3) content

  abbrev written : Buf
  written =
      (add_service_descriptor_attribute b service control_type requestor (some info)
        (length info)).1

  abbrev final : List ℕ
  final = store stored (at + 1) (encode_le 2 (10 + length info))

  pub written-eq : written ≡ record b { bytes = final; position = at + 13 + length info }
  written-eq =
      let place : at + 3 + 6 + 1 + 1 + 1 + 1 + length (take (length info) info)
          ≡ at + 13 + length info =
        omega (arith, taken) in
      add_lem b service control_type requestor info v refl short taken room
      ∙ ap₂ (λ y z. record b { bytes = y; position = z })
          (ap₂ (λ y n. store y (at + 1) (encode_le 2 n)) joined full_length-eq) place

  length-stored : length stored ≡ length b.bytes
  length-stored =
      length-store (bytes0 b service control_type requestor info) (at + 3) content
      ∙ length-store b.bytes at (3 ∷ [])

  id_read : slice final at 1 ≡ 3 ∷ []
  unfolding encode_le
  id_read =
      slice-store_apart stored (at + 1) at 1 (encode_le 2 (10 + length info)) (inl (omega arith))
      ∙ slice-store_apart (bytes0 b service control_type requestor info) (at + 3) at 1 content
          (inl (omega arith))
      ∙ slice-store b.bytes at (3 ∷ []) (omega (arith, room, v.within))

  length_read : decode_le (slice final (at + 1) 2) ≡ 10 + length info
  unfolding encode_le
  length_read =
      ap decode_le (
        slice-store stored (at + 1) (encode_le 2 (10 + length info))
          (omega (arith, length-stored, room, v.within)))
      ∙ decode_le-encode_le 2 (10 + length info) (omega (arith, short))

  data_read : slice final (at + 3) (10 + length info) ≡ content
  unfolding encode_le
  data_read =
      let whole : 10 + length info ≡ length content = omega arith in
      slice-store_apart stored (at + 1) (at + 3) (10 + length info) (encode_le 2 (10 + length info))
        (inr (omega arith))
      ∙ ap (slice stored (at + 3)) whole
      ∙ slice-store (bytes0 b service control_type requestor info) (at + 3) content
          (omega (arith, length-store b.bytes at (3 ∷ []), room, v.within))

  -- Up to its end, the buffer is a frame of which the next attribute is the descriptor.
  abbrev frame : Buf
  frame = record b { bytes = final; position = at; end = at + 13 + length info }

  abbrev descriptor : Attribute
  descriptor = record { id = 3; length = 10 + length info; data_bytes = content }

  pub read_back :
      (last : Attribute)
      → b.error ≡ pos 0
      → attribute_read_next frame last
        ≡ (pos (13 + length info), descriptor, record frame { position = at + 13 + length info })
  unfolding encode_le
  read_back last e =
      let valid : IsValid frame = record {
        inside = omega arith;
        within = omega (
          arith,
          room,
          v.within,
          length-stored,
          length-store stored (at + 1) (encode_le 2 (10 + length info)),
        );
        small = omega (arith, room, v.small);
      } in
      let size : at + 3 + (10 + length info) ≡ at + 13 + length info = omega arith in
      let total : 3 + (10 + length info) ≡ 13 + length info = omega arith in
      read_next_lem frame last (10 + length info) valid e (sym length_read) (omega arith)
      ∙ ap
          (λ z. (
            pos (3 + (10 + length info)),
            record {
              id = decode_le z;
              length = 10 + length info;
              data_bytes = slice final (at + 3) (10 + length info);
            },
            record frame { position = at + 3 + (10 + length info) },
          ))
          id_read
      ∙ ap
          (λ z. (
            pos (3 + (10 + length info)),
            record {
              id = z;
              length = 10 + length info;
              data_bytes = slice final (at + 3) (10 + length info);
            },
            record frame { position = at + 3 + (10 + length info) },
          ))
          (decode_le-octet 3)
      ∙ ap
          (λ z. (
            pos (3 + (10 + length info)),
            record { id = 3; length = 10 + length info; data_bytes = z },
            record frame { position = at + 3 + (10 + length info) },
          ))
          data_read
      ∙ ap₂ (λ y z. (pos y, descriptor, record frame { position = z })) total size
