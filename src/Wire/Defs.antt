-- ===== src/Wire/Defs.antt =====
-- The data and the functions of src/wire.c. `bytes` is the memory from `data` on, and `position` is
-- `current - data`. What a function writes through a pointer is returned as an option.
use opennan.Prelude.{
  ℕ, zero, suc, ◌+◌, ◌-◌, ◌*◌, ◌/◌, ◌%◌, ◌^◌, Bool, true, false, Option, none, some, List, [], ◌∷◌,
  ◌++◌, ltb, if◌then◌else◌, length, get_or, set, take,
}
use opennan.Prelude.Int.{ℤ, pos, minus_one, ltb_ℤ, sub_ℕ, to_int}
use opennan.Utils.{EtherAddr}

-- `struct buf`.
pub record Buf : Type 0 where
  pub bytes : List ℕ
  pub position : ℕ
  pub start : ℕ
  pub end : ℕ
  pub size : ℕ
  pub owned : Bool
  pub error : ℤ

-- The block that `malloc` returned is `memory`.
unfoldable pub buf_new_owned : List ℕ → ℕ → Buf
buf_new_owned memory size = record {
  bytes = memory;
  position = 0;
  start = 0;
  end = size;
  size = size;
  owned = true;
  error = pos 0;
}

unfoldable pub buf_new_const : List ℕ → ℕ → Buf
buf_new_const data_bytes size = record {
  bytes = data_bytes;
  position = 0;
  start = 0;
  end = size;
  size = size;
  owned = false;
  error = pos 0;
}

-- `buf_new_copy`: the bytes are copied into a new block of their size.
unfoldable pub buf_new_copy : List ℕ → ℕ → Buf
unfolding buf_new_owned
buf_new_copy data_bytes size = buf_new_owned (take size data_bytes) size

unfoldable pub buf_error : Buf → ℤ
buf_error b = b.error

unfoldable pub buf_size : Buf → ℤ
buf_size b = sub_ℕ b.end b.start

unfoldable pub buf_position : Buf → ℕ
buf_position b = b.position

unfoldable pub buf_rest : Buf → ℤ
buf_rest b = sub_ℕ b.end b.position

-- The bytes `at`, `at + 1`, … of a block; outside of it nothing is known, and 0 stands for that.
abbrev pub slice : List ℕ → ℕ → ℕ → List ℕ
slice bytes at zero = []
slice bytes at (suc n) = get_or bytes at 0 ∷ slice bytes (at + 1) n

-- The block after bytes were stored from `at` on.
abbrev pub store : List ℕ → ℕ → List ℕ → List ℕ
store bytes at [] = bytes
store bytes at (x ∷ xs) = store (set bytes at x) (at + 1) xs

abbrev pub fail : Buf → Buf
fail b = record b { error = minus_one }

-- Whether fewer than `n` bytes are left, `n` converted to an `int`.
unfoldable pub too_short : Buf → ℕ → Bool
unfolding buf_rest
too_short b n = ltb_ℤ (buf_rest b) (to_int n)

unfoldable pub buf_advance : Buf → ℕ → ℤ × Buf
buf_advance b n =
    if too_short b n
    then (minus_one, fail b)
    else (to_int n, record b { position = b.position + n })

unfoldable pub buf_strip : Buf → ℕ → ℤ × Buf
unfolding buf_position
buf_strip b n =
    if ltb (buf_position b) n
    then (minus_one, fail b)
    else (to_int n, record b { start = b.start + n })

unfoldable pub buf_take : Buf → ℕ → ℤ × Buf
buf_take b n =
    if too_short b n then (minus_one, fail b) else (to_int n, record b { end = b.end - n })

-- `grown` is the block that `realloc` returned, if it is called.
unfoldable pub buf_resize : Buf → List ℕ → ℕ → Buf
buf_resize b grown size = record b { bytes = if b.owned then grown else b.bytes; size = size }

-- The two byte orders of a number of `n` bytes.
unfoldable pub encode_le : ℕ → ℕ → List ℕ
encode_le zero v = []
encode_le (suc n) v = v % 2 ^ 8 ∷ encode_le n (v / 2 ^ 8)

unfoldable pub encode_be : ℕ → ℕ → List ℕ
encode_be zero v = []
encode_be (suc n) v = encode_be n (v / 2 ^ 8) ++ v % 2 ^ 8 ∷ []

unfoldable pub decode_le : List ℕ → ℕ
decode_le [] = 0
decode_le (x ∷ xs) = x + 2 ^ 8 * decode_le xs

abbrev pub decode_be_from : ℕ → List ℕ → ℕ
decode_be_from acc [] = acc
decode_be_from acc (x ∷ xs) = decode_be_from (acc * 2 ^ 8 + x) xs

unfoldable pub decode_be : List ℕ → ℕ
decode_be xs = decode_be_from 0 xs

-- The macro `write`, `encoded` being the bytes of the value in the order of the type.
unfoldable pub write_encoded : Buf → List ℕ → ℕ × Buf
write_encoded b encoded = if too_short b (length encoded) then (0, fail b) else (
  length encoded,
  record b { bytes = store b.bytes b.position encoded; position = b.position + length encoded },
)

abbrev pub write_u8 : Buf → ℕ → ℕ × Buf
write_u8 b v = write_encoded b (encode_le 1 v)

abbrev pub write_le16 : Buf → ℕ → ℕ × Buf
write_le16 b v = write_encoded b (encode_le 2 v)

abbrev pub write_be16 : Buf → ℕ → ℕ × Buf
write_be16 b v = write_encoded b (encode_be 2 v)

abbrev pub write_le32 : Buf → ℕ → ℕ × Buf
write_le32 b v = write_encoded b (encode_le 4 v)

abbrev pub write_be32 : Buf → ℕ → ℕ × Buf
write_be32 b v = write_encoded b (encode_be 4 v)

abbrev pub write_le64 : Buf → ℕ → ℕ × Buf
write_le64 b v = write_encoded b (encode_le 8 v)

abbrev pub write_be64 : Buf → ℕ → ℕ × Buf
write_be64 b v = write_encoded b (encode_be 8 v)

abbrev pub octets : EtherAddr → List ℕ
octets a = a.octet0 ∷ a.octet1 ∷ a.octet2 ∷ a.octet3 ∷ a.octet4 ∷ a.octet5 ∷ []

unfoldable pub write_bytes : Buf → List ℕ → ℤ × Buf
write_bytes b xs = if too_short b (length xs) then (minus_one, fail b) else (
  to_int (length xs),
  record b { bytes = store b.bytes b.position xs; position = b.position + length xs },
)

abbrev pub write_ether_addr : Buf → EtherAddr → ℤ × Buf
write_ether_addr b a = write_bytes b (octets a)

-- The macro `read` for a type of `n` bytes.
unfoldable pub read_decoded : (List ℕ → ℕ) → ℕ → Buf → ℕ × Option ℕ × Buf
read_decoded decode n b =
    if too_short b n
    then (0, none, fail b)
    else (n, some (decode (slice b.bytes b.position n)), record b { position = b.position + n })

abbrev pub read_u8 : Buf → ℕ × Option ℕ × Buf
read_u8 = read_decoded decode_le 1

abbrev pub read_le16 : Buf → ℕ × Option ℕ × Buf
read_le16 = read_decoded decode_le 2

abbrev pub read_be16 : Buf → ℕ × Option ℕ × Buf
read_be16 = read_decoded decode_be 2

abbrev pub read_le32 : Buf → ℕ × Option ℕ × Buf
read_le32 = read_decoded decode_le 4

abbrev pub read_be32 : Buf → ℕ × Option ℕ × Buf
read_be32 = read_decoded decode_be 4

abbrev pub read_le64 : Buf → ℕ × Option ℕ × Buf
read_le64 = read_decoded decode_le 8

abbrev pub read_be64 : Buf → ℕ × Option ℕ × Buf
read_be64 = read_decoded decode_be 8

-- The position stays where it is.
unfoldable pub read_ether_addr : Buf → ℕ × Option (List ℕ) × Buf
read_ether_addr b =
    if too_short b 6 then (0, none, fail b) else (6, some (slice b.bytes b.position 6), b)

-- `read_bytes` and `read_bytes_copy`: a pointer into the block, or a copy, is the bytes there.
unfoldable pub read_bytes : Buf → ℕ → ℤ × Option (List ℕ) × Buf
read_bytes b n =
    if too_short b n
    then (pos 0, none, fail b)
    else (to_int n, some (slice b.bytes b.position n), record b { position = b.position + n })
