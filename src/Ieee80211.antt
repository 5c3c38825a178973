-- ===== src/Ieee80211.antt =====
-- The IEEE 802.11 headers of src/ieee80211.c. The radiotap header and the iterator over its fields
-- are a library's, `Radiotap`.
pub mod Sample
mod Tests
use opennan.Prelude.{
  ℕ, ◌+◌, ◌-◌, ◌*◌, ◌/◌, ◌%◌, ◌^◌, Bool, true, false, not, ◌&&◌, Option, none, some, List, [], ◌∷◌,
  ◌++◌, length, take, bit_and, bit_or, ◌==◌, ltb, get_or, if◌then◌else◌,
}
use opennan.Prelude.Int.{ℤ, pos, negsuc, minus_one, u16, signed, ltb_ℤ}
use opennan.Utils.{EtherAddr}
use opennan.Wire.{Buf}
use opennan.Wire.Defs.{
  store, slice, octets, encode_le, decode_le, buf_advance, buf_take, buf_rest, buf_position,
  write_encoded, write_u8, write_le32,
}
use opennan.Crc32.{crc32}
use opennan.Rx.Defs.{rx_ok, rx_too_short, rx_unexpected_format}

-- `struct ieee80211_state`.
pub record Ieee80211State : Type 0 where
  pub sequence_number : ℕ
  pub fcs : Bool

unfoldable pub init_state : Ieee80211State
init_state = record { sequence_number = 0; fcs = true }

-- The number before, and the state after the 16-bit increment.
unfoldable pub next_sequence_number : Ieee80211State → ℕ × Ieee80211State
next_sequence_number s =
    (s.sequence_number, record s { sequence_number = u16 (s.sequence_number + 1) })

-- A store through a pointer to a packed struct at the position: no test of the end.
abbrev pub put_at : Buf → ℕ → List ℕ → Buf
put_at b at xs = record b { bytes = store b.bytes at xs }

-- A struct is stored at the position, and the position moved behind it if that is inside.
unfoldable pub put_struct : Buf → List ℕ → Buf
unfolding buf_advance
put_struct b xs = (buf_advance (put_at b b.position xs) (length xs)).1

-- `struct ieee80211_hdr` as its octets.
abbrev pub header_octets : ℕ → EtherAddr → EtherAddr → EtherAddr → ℕ → List ℕ
header_octets frame_control addr1 addr2 addr3 seq_ctrl =
    encode_le 2 frame_control
    ++ encode_le 2 0
    ++ octets addr1
    ++ octets addr2
    ++ octets addr3
    ++ encode_le 2 seq_ctrl

-- `ieee80211_add_nan_header`
unfoldable pub add_nan_header :
    Buf → EtherAddr → EtherAddr → EtherAddr → Ieee80211State → ℕ → Buf × Ieee80211State
unfolding next_sequence_number put_struct
add_nan_header b source destination bssid s type =
    let (number, s') = next_sequence_number s in
    (put_struct b (header_octets type destination source bssid (u16 (number * 2 ^ 4))), s')

-- The size of `struct ieee80211_hdr`.
abbrev pub header_size : ℕ
header_size = 24

-- A field that the iterator stops at: its number, whether it is in the radiotap namespace, and the
-- octets from its argument on.
pub record RadiotapField : Type 0 where
  pub index : ℕ
  pub is_radiotap_ns : Bool
  pub argument : List ℕ

-- What the functions of this file use of the radiotap library: the octets of a header with a length
-- and the bits of the present fields, and its size; the length in a header; numbers and flags; and
-- the fields of a header, with whether the iterator ended because there are no more. No fields at
-- all: the iterator refuses the header.
pub record Radiotap : Type 0 where
  pub octets_of : ℕ → ℕ → List ℕ
  pub size : ℕ
  pub it_len : List ℕ → ℕ
  pub index_flags : ℕ
  pub index_rate : ℕ
  pub index_dbm_antsignal : ℕ
  pub flag_fcs : ℕ
  pub flag_badfcs : ℕ
  pub iterate : List ℕ → Option (List RadiotapField × Bool)

-- One round of the loop over the fields: what it leaves in `*rssi` and `*flags`.
abbrev pub read_field : Radiotap → ℤ × ℕ → RadiotapField → ℤ × ℕ
read_field r (rssi, flags) f =
    if not f.is_radiotap_ns
    then (rssi, flags)
    else if f.index == r.index_flags
    then (rssi, get_or f.argument 0 0)
    else if f.index == r.index_dbm_antsignal
    then (signed (2 ^ 7) (get_or f.argument 0 0), flags)
    else (rssi, flags)

abbrev pub read_fields : Radiotap → ℤ × ℕ → List RadiotapField → ℤ × ℕ
read_fields r known [] = known
read_fields r known (f ∷ fs) = read_fields r (read_field r known f) fs

-- The octets from the position to the end.
abbrev pub remaining : Buf → List ℕ
remaining b = slice b.bytes b.position (b.end - b.position)

-- From the iterator on.
unfoldable pub read_radiotap_fields :
    Radiotap → Buf → ℤ × ℕ → Option (List RadiotapField × Bool) → ℤ × (ℤ × ℕ) × Buf
unfolding buf_advance
read_radiotap_fields r frame known none = (rx_unexpected_format, known, frame)
read_radiotap_fields r frame known (some (fields, ended)) =
    let found = read_fields r known fields in
    let (advanced, frame') = buf_advance frame (r.it_len (remaining frame)) in
    if not ended
    then (rx_unexpected_format, found, frame)
    else if ltb_ℤ advanced (pos 0)
    then (rx_too_short, found, frame')
    else (rx_ok, found, frame')

-- `ieee80211_parse_radiotap_header`, without a timestamp: the result, the RSSI and the flags, which
-- were `known` before.
unfoldable pub parse_radiotap_header : Radiotap → Buf → ℤ × ℕ → ℤ × (ℤ × ℕ) × Buf
unfolding read_radiotap_fields
parse_radiotap_header r frame known =
    read_radiotap_fields r frame known (r.iterate (remaining frame))

-- `ieee80211_parse_fcs`
unfoldable pub parse_fcs : Radiotap → Buf → ℕ → ℤ × Buf
unfolding buf_take
parse_fcs r frame flags =
    if not (bit_and flags r.flag_badfcs == 0)
    then (minus_one, frame)
    else if not (bit_and flags r.flag_fcs == 0)
    then buf_take frame 4
    else (pos 0, frame)

-- `ieee80211_add_radiotap_header`: room for the header, the fields behind it, then the header.
unfoldable pub add_radiotap_header : Radiotap → Buf → Ieee80211State → Buf
unfolding buf_advance write_encoded
add_radiotap_header r b s =
    let (_, b1) = buf_advance b r.size in
    let (n1, b2) = if s.fcs then write_u8 b1 r.flag_fcs else (0, b1) in
    let (n2, b3) = write_u8 b2 2 in
    let (n3, b4) = write_u8 b3 200 in
    let flags_bit = if s.fcs then 2 ^ r.index_flags else 0 in
    let present = bit_or (bit_or flags_bit (2 ^ r.index_rate)) (2 ^ r.index_dbm_antsignal) in
    put_at b4 b.position (r.octets_of (u16 (r.size + n1 + n2 + n3)) present)

-- `ieee80211_add_fcs`: the checksum of everything from the start on.
unfoldable pub add_fcs : Buf → Buf
unfolding buf_position write_encoded crc32
add_fcs b = (write_le32 b (crc32 (slice b.bytes b.start (buf_position b)))).1
