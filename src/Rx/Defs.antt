-- ===== src/Rx/Defs.antt =====
-- The attribute reader and the parsers of src/rx.c. A parser reads from the buffer of an attribute.
use opennan.Prelude.{
  ℕ, zero, suc, ◌+◌, Bool, false, not, Option, none, some, List, ◌==◌, if◌then◌else◌,
}
use opennan.Prelude.Int.{ℤ, pos, negsuc, ltb_ℤ}
use opennan.Wire.{Buf}
use opennan.Wire.Defs.{
  read_u8, read_le16, read_le32, read_le64, read_bytes, read_decoded, buf_error, buf_rest,
  buf_new_const,
}
use opennan.Peer.{Peer}
use opennan.Peer.Defs.{set_master_indication, set_anchor_master_information}

-- The values of `enum RX_RESULT` that the functions here return.
abbrev pub rx_ignore : ℤ
rx_ignore = pos 1

abbrev pub rx_ok : ℤ
rx_ok = pos 0

abbrev pub rx_too_short : ℤ
rx_too_short = negsuc 0

abbrev pub rx_unexpected_format : ℤ
rx_unexpected_format = negsuc 1

-- What the variables of the loop hold: an id, a length, and where the data starts, as its bytes.
pub record Attribute : Type 0 where
  pub id : ℕ
  pub length : ℕ
  pub data_bytes : List ℕ

abbrev pub value_or {ℓ} : {A : Type ℓ} → A → Option A → A
value_or a none = a
value_or a (some b) = b

abbrev pub is_zero : ℤ → Bool
is_zero (pos n) = n == 0
is_zero (negsuc n) = false

-- `nan_attribute_read_next`. A read that fails leaves its variable as it was, in `last`.
unfoldable pub attribute_read_next : Buf → Attribute → ℤ × Attribute × Buf
unfolding read_decoded read_bytes buf_error
attribute_read_next frame last =
    let (_, id, frame1) = read_u8 frame in
    let (_, length, frame2) = read_le16 frame1 in
    let attribute_length = value_or last.length length in
    let (_, found, frame3) = read_bytes frame2 attribute_length in
    let attribute : Attribute = record {
      id = value_or last.id id;
      length = attribute_length;
      data_bytes = value_or last.data_bytes found;
    } in
    (
      if ltb_ℤ (buf_error frame3) (pos 0) then rx_too_short else pos (3 + attribute_length),
      attribute,
      frame3,
    )

-- What follows the loop of NAN_ITERATE_ATTRIBUTES, if it ended by itself.
abbrev pub result_at_end : Buf → ℤ → ℤ
result_at_end frame result =
    if ltb_ℤ result (pos 0)
    then result
    else if ltb_ℤ (pos 0) (buf_rest frame)
    then rx_unexpected_format
    else rx_ok

-- The loop of NAN_ITERATE_ATTRIBUTES on fuel. `handle` is its argument, which sets `result` and
-- changes a state; `none` is the end of the fuel.
module _ {ℓ} {S : Type ℓ} (handle : Attribute → Buf → S → ℤ × S) where
  unfoldable pub iterate_attributes : ℕ → Buf → Attribute → ℤ → S → Option (ℤ × S × Buf)
  unfolding attribute_read_next buf_rest buf_new_const
  iterate_attributes zero frame last result s = none
  iterate_attributes (suc fuel) frame last result s =
      let (length, attribute, frame') = attribute_read_next frame last in
      let (result', s') =
        handle attribute (buf_new_const attribute.data_bytes attribute.length) s in
      let rest = iterate_attributes fuel frame' attribute result' s' in
      if ltb_ℤ (pos 0) length
      then if ltb_ℤ result' (pos 0) then some (result', s', frame') else rest
      else some (result_at_end frame' result, s, frame')

-- A parse that succeeds or leaves the peer alone.
unfoldable pub parse_master_indication_attribute : Buf → Peer → ℤ × Peer
unfolding read_decoded buf_error set_master_indication
parse_master_indication_attribute b p =
    let (_, master_preference, b1) = read_u8 b in
    let (_, random_factor, b2) = read_u8 b1 in
    if not (is_zero (buf_error b2))
    then (rx_too_short, p)
    else (rx_ok, set_master_indication p (value_or 0 master_preference) (value_or 0 random_factor))

unfoldable pub parse_cluster_attribute : Buf → Peer → ℤ × Peer
unfolding read_decoded buf_error set_anchor_master_information
parse_cluster_attribute b p =
    let (_, anchor_master_rank, b1) = read_le64 b in
    let (_, hop_count, b2) = read_u8 b1 in
    let (_, ambtt, b3) = read_le32 b2 in
    if not (is_zero (buf_error b3)) then (rx_too_short, p) else (
      rx_ok,
      set_anchor_master_information p (value_or 0 anchor_master_rank) (value_or 0 ambtt)
          (value_or 0 hop_count),
    )

-- The `switch` of `nan_rx_beacon`; the state is the peer.
unfoldable pub beacon_attribute : Attribute → Buf → Peer → ℤ × Peer
unfolding parse_master_indication_attribute parse_cluster_attribute
beacon_attribute attribute b p =
    if attribute.id == 0
    then parse_master_indication_attribute b p
    else if attribute.id == 1
    then parse_cluster_attribute b p
    else (rx_ignore, p)
