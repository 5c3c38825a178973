-- ===== src/Wire/Tests.antt =====
-- The theorems on buffers at a buffer of eight bytes.
use opennan.Prelude.{◌↔◌, ◌≤◌, length, if◌then◌else◌, ◌≡◌, true, some, [], ◌∷◌, replicate, arith}
use opennan.Prelude.Int.{pos}
use opennan.Wire.Defs.{
  Buf, buf_advance, buf_take, buf_strip, write_encoded, write_bytes, read_decoded, read_bytes,
  read_ether_addr, buf_resize, encode_le, encode_be, decode_le, decode_be,
}
use opennan.Wire.Bounds.{IsValid, IsInside, operations-IsInside}
use opennan.Wire.RoundTrip.{write_encoded-read_decoded}

abbrev buffer : Buf
buffer = record {
  bytes = replicate 8 0;
  position = 3;
  start = 0;
  end = 8;
  size = 8;
  owned = true;
  error = pos 0;
}

buffer-IsValid : IsValid buffer
buffer-IsValid = record { inside = omega arith; within = omega arith; small = omega arith }

buffer-IsInside : IsInside buffer
buffer-IsInside = record { valid = buffer-IsValid; started = omega arith }

operations-IsInside_example :
    IsInside (buf_advance buffer 6).1
    × IsInside (buf_take buffer 6).1
    × (buffer.start ≡ 0 → IsInside (buf_strip buffer 6).1)
    × IsInside (write_encoded buffer (1 ∷ 2 ∷ [])).1
    × IsInside (write_bytes buffer (1 ∷ 2 ∷ [])).1
    × IsInside (read_decoded decode_be 6 buffer).2
    × IsInside (read_bytes buffer 6).2
    × IsInside (read_ether_addr buffer).2
    × (IsInside (buf_resize buffer (replicate 4 0) 4)
        ↔ (buffer.end ≤ length (if buffer.owned then replicate 4 0 else buffer.bytes)))
operations-IsInside_example =
    operations-IsInside buffer 6 4 (1 ∷ 2 ∷ []) (replicate 4 0) decode_be buffer-IsInside
      (omega arith) (omega arith)

write_encoded-read_decoded_example :
    let (count, le) = write_encoded buffer (encode_le 4 305419896) in
    let (count_be, be) = write_encoded buffer (encode_be 4 305419896) in
    (count ≡ 4)
    × (read_decoded decode_le 4 (record le { position = 3 }) ≡ (4, some 305419896, le))
    × (count_be ≡ 4)
    × (read_decoded decode_be 4 (record be { position = 3 }) ≡ (4, some 305419896, be))
write_encoded-read_decoded_example =
    write_encoded-read_decoded buffer buffer-IsValid 4 305419896 (omega arith) (omega arith)
      (omega arith)
