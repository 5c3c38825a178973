-- ===== src/Rx/Parsers.antt =====
-- Single attributes: their header and data, and the two that a beacon is read for.
use opennan.Prelude.{ℕ, ◌+◌, ◌≤◌, ◌<◌, ◌≡◌, refl, arith}
use opennan.Prelude.Int.{pos}
use opennan.Wire.Defs.{Buf, read_bytes, read_u8, read_le64, decode_le, slice, buf_error}
use opennan.Wire.Bounds.{IsValid, too_short-eq}
use opennan.Peer.{Peer}
use opennan.Peer.Defs.{set_master_indication, set_anchor_master_information}
use opennan.Rx.Reads.{ReadOf-read_decoded, ReadOf-compose, read_here, IsValid-at}
use opennan.Rx.Defs.{
  Attribute, attribute_read_next, parse_master_indication_attribute, parse_cluster_attribute, rx_ok,
  rx_too_short,
}

-- A master indication attribute with two octets left and no error sets the preference and the
-- random factor, in this order, and keeps the former preference; from a shorter one nothing is
-- taken.
pub parse_master_indication_lem :
    (b : Buf) (p : Peer)
    → IsValid b
    → b.error ≡ pos 0
    → (b.position + 2 ≤ b.end
        → parse_master_indication_attribute b p ≡ (
          rx_ok,
          set_master_indication p
              (decode_le (slice b.bytes b.position 1))
              (decode_le (slice b.bytes (b.position + 1) 1)),
        ))
      × (b.end < b.position + 2 → parse_master_indication_attribute b p ≡ (rx_too_short, p))
unfolding parse_master_indication_attribute buf_error
parse_master_indication_lem b p v e =
    let b1 : Buf = record b { position = b.position + 1 } in
    let r1 = ReadOf-read_decoded decode_le 1 b v (omega arith) in
    let r =
      ReadOf-compose r1 (ReadOf-read_decoded decode_le 1 (read_u8 b).2 r1.valid (omega arith)) in
    (
      λ h.
          rw
            (
              read_here decode_le 1 b v (omega arith) (omega arith),
              read_here decode_le 1 b1 (IsValid-at b (b.position + 1) v (omega arith)) (omega arith)
                  (omega arith),
            )
            (ground (arith, e)),
      λ h. rw (r.failed h) refl,
    )

-- A cluster attribute in a valid buffer with 13 octets left and no error sets the rank of the
-- anchor master, its hop count and its transmission time, and keeps the former rank; from a shorter
-- one nothing is taken.
pub parse_cluster_lem :
    (b : Buf) (p : Peer)
    → IsValid b
    → b.error ≡ pos 0
    → (b.position + 13 ≤ b.end
        → parse_cluster_attribute b p ≡ (
          rx_ok,
          set_anchor_master_information p
              (decode_le (slice b.bytes b.position 8))
              (decode_le (slice b.bytes (b.position + 8 + 1) 4))
              (decode_le (slice b.bytes (b.position + 8) 1)),
        ))
      × (b.end < b.position + 13 → parse_cluster_attribute b p ≡ (rx_too_short, p))
unfolding parse_cluster_attribute buf_error
parse_cluster_lem b p v e =
    let b1 : Buf = record b { position = b.position + 8 } in
    let b2 : Buf = record b { position = b.position + 8 + 1 } in
    let r1 = ReadOf-read_decoded decode_le 8 b v (omega arith) in
    let r2 =
      ReadOf-compose r1 (ReadOf-read_decoded decode_le 1 (read_le64 b).2 r1.valid (omega arith)) in
    let r3 =
      ReadOf-compose r2
        (ReadOf-read_decoded decode_le 4 (read_u8 (read_le64 b).2).2 r2.valid (omega arith)) in
    (
      λ h.
          rw
            (
              read_here decode_le 8 b v (omega arith) (omega arith),
              read_here decode_le 1 b1 (IsValid-at b (b.position + 8) v (omega arith)) (omega arith)
                  (omega arith),
              read_here decode_le 4 b2 (IsValid-at b (b.position + 8 + 1) v (omega arith))
                  (omega arith) (omega arith),
            )
            (ground (arith, e)),
      λ h. rw (r3.failed (omega arith)) refl,
    )

-- In a valid buffer without an error, where a header and the data that it announces are left,
-- `nan_attribute_read_next` returns their length, the id, the length and the data, and moves behind
-- them.
pub read_next_lem :
    (b : Buf) (last : Attribute) (length : ℕ)
    → IsValid b
    → b.error ≡ pos 0
    → length ≡ decode_le (slice b.bytes (b.position + 1) 2)
    → b.position + 3 + length ≤ b.end
    → attribute_read_next b last ≡ (
      pos (3 + length),
      record {
        id = decode_le (slice b.bytes b.position 1);
        length = length;
        data_bytes = slice b.bytes (b.position + 3) length;
      },
      record b { position = b.position + 3 + length },
    )
unfolding attribute_read_next buf_error read_bytes
read_next_lem b last length v e f h =
    let b1 : Buf = record b { position = b.position + 1 } in
    let b2 : Buf = record b { position = b.position + 1 + 2 } in
    let v1 : IsValid b1 = record { inside = omega arith; within = v.within; small = v.small } in
    let v2 : IsValid b2 = record { inside = omega arith; within = v.within; small = v.small } in
    let r1 = read_here decode_le 1 b v (omega arith) (omega arith) in
    let r2 = read_here decode_le 2 b1 v1 (omega arith) (omega arith) in
    let t = too_short-eq {b = b2} length v2 (omega (arith, v.small)) in
    rw (r1, r2) (ground (arith, e, f, t))
