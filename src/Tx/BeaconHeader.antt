-- ===== src/Tx/BeaconHeader.antt =====
-- The header of a beacon: `nan_add_beacon_header` and the attributes behind it against
-- `nan_parse_beacon_header`.
use opennan.Prelude.{
  ℕ, ◌+◌, ◌^◌, ◌≤◌, ◌<◌, ◌≡◌, ◌⊎◌, inl, inr, refl, ap, ◌∙◌, some, List, [], ◌∷◌, arith, length,
  ◌||◌, not, ◌==◌, if◌then◌else◌,
}
use opennan.Prelude.Int.{pos, to_int}
use opennan.Utils.{oui_equal}
use opennan.Wire.{Buf}
use opennan.Wire.Defs.{slice, store, encode_le, decode_le, read_bytes, buf_error}
use opennan.Wire.Bounds.{IsValid, too_short-eq}
use opennan.Wire.RoundTrip.{decode_le-encode_le}
use opennan.Wire.Stored.{slice-store_inside, slice-store_apart}
use opennan.Rx.Reads.{read_here, IsValid-at}
use opennan.Rx.Beacon.{
  BeaconType, discovery_beacon, sync_beacon, Header, header, refused, oui_of, nan_oui,
  nan_oui_type_beacon, rx_ignore_oui, header_of, parse_beacon_header, get_beacon_type,
}
use opennan.Tx.Frames.{beacon_octets, beacon_interval}

-- The read of octets that are left.
pub read_bytes_here :
    (b : Buf) (n : ℕ)
    → IsValid b
    → n < 2 ^ 31
    → b.position + n ≤ b.end
    → read_bytes b n
      ≡ (to_int n, some (slice b.bytes b.position n), record b { position = b.position + n })
unfolding read_bytes
read_bytes_here b n v h k = ground (arith, too_short-eq n v h)

-- Where the fields of a header end.
abbrev pub after_header : Buf → ℕ
after_header b = b.position + 8 + 2 + 2 + 1 + 1 + 3 + 1

-- The header is accepted or refused by these fields.
module _ (b : Buf) (v : IsValid b) (e : b.error ≡ pos 0) (h : b.position + 18 ≤ b.end) where
  abbrev of_fields : ℕ → ℕ → List ℕ → ℕ → Header
  of_fields time interval oui oui_type =
      if not (oui_equal (oui_of oui) nan_oui) || not (oui_type == nan_oui_type_beacon)
      then refused rx_ignore_oui
      else header_of time (get_beacon_type interval)

  parse_beacon_header_fields : parse_beacon_header b ≡ (
    of_fields
        (decode_le (slice b.bytes b.position 8))
        (decode_le (slice b.bytes (b.position + 8) 2))
        (slice b.bytes (b.position + 8 + 2 + 2 + 1 + 1) 3)
        (decode_le (slice b.bytes (b.position + 8 + 2 + 2 + 1 + 1 + 3) 1)),
    record b { position = after_header b },
  )
  unfolding parse_beacon_header buf_error
  parse_beacon_header_fields =
      let at = λ (n : ℕ). IsValid-at b n v in
      let b1 : Buf = record b { position = b.position + 8 } in
      let b2 : Buf = record b { position = b.position + 8 + 2 } in
      let b3 : Buf = record b { position = b.position + 8 + 2 + 2 } in
      let b4 : Buf = record b { position = b.position + 8 + 2 + 2 + 1 } in
      let b5 : Buf = record b { position = b.position + 8 + 2 + 2 + 1 + 1 } in
      let b6 : Buf = record b { position = b.position + 8 + 2 + 2 + 1 + 1 + 3 } in
      let r1 = read_here decode_le 8 b v (omega arith) (omega arith) in
      let r2 =
        read_here decode_le 2 b1 (at b1.position (omega arith)) (omega arith) (omega arith) in
      let r3 =
        read_here decode_le 2 b2 (at b2.position (omega arith)) (omega arith) (omega arith) in
      let r4 =
        read_here decode_le 1 b3 (at b3.position (omega arith)) (omega arith) (omega arith) in
      let r5 =
        read_here decode_le 1 b4 (at b4.position (omega arith)) (omega arith) (omega arith) in
      let r6 = read_bytes_here b5 3 (at b5.position (omega arith)) (omega arith) (omega arith) in
      let r7 =
        read_here decode_le 1 b6 (at b6.position (omega arith)) (omega arith) (omega arith) in
      rw (r1, r2, r3, r4, r5, r6, r7, e) refl

  known_type :
      (type : BeaconType) (time : ℕ)
      → of_fields time (beacon_interval type) (0x50 ∷ 0x6f ∷ 0x9a ∷ []) nan_oui_type_beacon
        ≡ header type time
  unfolding get_beacon_type oui_equal
  known_type sync_beacon time = refl
  known_type discovery_beacon time = refl

  -- A header of ours with a time.
  pub parse_beacon_header_lem :
      (type : BeaconType) (time : ℕ)
      → decode_le (slice b.bytes b.position 8) ≡ time
      → decode_le (slice b.bytes (b.position + 8) 2) ≡ beacon_interval type
      → slice b.bytes (b.position + 8 + 2 + 2 + 1 + 1) 3 ≡ 0x50 ∷ 0x6f ∷ 0x9a ∷ []
      → decode_le (slice b.bytes (b.position + 8 + 2 + 2 + 1 + 1 + 3) 1) ≡ nan_oui_type_beacon
      → parse_beacon_header b ≡ (header type time, record b { position = after_header b })
  parse_beacon_header_lem type time t i o y =
      let result : ℕ → ℕ → List ℕ → ℕ → Header × Buf =
        λ x k z w. (of_fields x k z w, record b { position = after_header b }) in
      let oui = slice b.bytes (b.position + 8 + 2 + 2 + 1 + 1) 3 in
      let oui_type = decode_le (slice b.bytes (b.position + 8 + 2 + 2 + 1 + 1 + 3) 1) in
      parse_beacon_header_fields
      ∙ ap (λ x. result x (decode_le (slice b.bytes (b.position + 8) 2)) oui oui_type) t
      ∙ ap (λ x. result time x oui oui_type) i
      ∙ ap (λ x. result time (beacon_interval type) x oui_type) o
      ∙ ap (result time (beacon_interval type) (0x50 ∷ 0x6f ∷ 0x9a ∷ [])) y
      ∙ ap (λ x. (x, record b { position = after_header b })) (known_type type time)

-- The header, the length of the element at offset 13 written anew, and octets behind the header.
module _ (bytes : List ℕ) (at time octet : ℕ) (type : BeaconType) (rest : List ℕ)
    (room : at + 18 ≤ length bytes) (small : time < 2 ^ 64) where
  abbrev written_header : List ℕ
  written_header = beacon_octets time (beacon_interval type) 4

  abbrev pub with_header : List ℕ
  with_header = store (store (store bytes at written_header) (at + 18) rest) (at + 13) (octet ∷ [])

  -- What is not the length is as it was written.
  held :
      (i j n : ℕ)
      → j ≡ at + i
      → i + n ≤ 18
      → (i + n ≤ 13) ⊎ (14 ≤ i)
      → slice with_header j n ≡ slice written_header i n
  unfolding encode_le
  held i j n e k side =
      let bytes1 = store bytes at written_header in
      let bytes2 = store bytes1 (at + 18) rest in
      let apart : (j + n ≤ at + 13) ⊎ (at + 13 + 1 ≤ j) = elim side [
        | inl l ↦ inl (omega (arith, e, l))
        | inr l ↦ inr (omega (arith, e, l))
      ] in
      slice-store_apart bytes2 (at + 13) j n (octet ∷ []) apart
      ∙ slice-store_apart bytes1 (at + 18) j n rest (inl (omega (arith, e, k)))
      ∙ slice-store_inside bytes at i j n written_header e room k

  interval_lem : (t : BeaconType) → decode_le (encode_le 2 (beacon_interval t)) ≡ beacon_interval t
  unfolding decode_le encode_le
  interval_lem discovery_beacon = refl
  interval_lem sync_beacon = refl

  -- A receiver reads the type and the time of a header.
  pub header_read_back :
      (b : Buf)
      → b.bytes ≡ with_header
      → b.position ≡ at
      → IsValid b
      → b.error ≡ pos 0
      → b.position + 18 ≤ b.end
      → parse_beacon_header b ≡ (header type time, record b { position = after_header b })
  unfolding encode_le decode_le
  header_read_back b same here v e h =
      let part : (i j n : ℕ)
          → j ≡ b.position + i
          → i + n ≤ 18
          → (i + n ≤ 13) ⊎ (14 ≤ i)
          → slice b.bytes j n ≡ slice written_header i n =
        λ i j n f k side. ap (λ x. slice x j n) same ∙ held i j n (omega (arith, f, here)) k side in
      parse_beacon_header_lem b v e h type time
        (ap decode_le (part 0 b.position 8 (omega arith) (omega arith) (inl (omega arith)))
          ∙ decode_le-encode_le 8 time small)
        (ap decode_le (part 8 (b.position + 8) 2 refl (omega arith) (inl (omega arith)))
          ∙ interval_lem type)
        (part 14 (b.position + 8 + 2 + 2 + 1 + 1) 3 (omega arith) (omega arith) (inr (omega arith)))
        (ap decode_le (
          part 17 (b.position + 8 + 2 + 2 + 1 + 1 + 3) 1 (omega arith) (omega arith)
            (inr (omega arith))))
