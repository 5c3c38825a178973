-- ===== src/Tx/Beacon.antt =====
-- A whole beacon, from `nan_add_beacon_header` on, against its parsers.
use opennan.Prelude.{
  ℕ, suc, ◌+◌, ◌^◌, ◌≤◌, ◌<◌, ◌≡◌, refl, sym, ap, ◌∙◌, subst, some, [], ◌∷◌, ◌++◌, arith, get_or,
  length-set,
}
use opennan.Prelude.Int.{pos, minus_one, u8}
use opennan.Timer
use opennan.Wire.{Buf}
use opennan.Wire.Defs.{store, encode_le}
use opennan.Wire.Bounds.{IsValid, length-store}
use opennan.Wire.Stored.{store_append}
use opennan.Peer.{Peer}
use opennan.Peer.Defs.{set_master_indication, set_anchor_master_information}
use opennan.Ieee80211.{Radiotap}
use opennan.State.{NanState}
use opennan.Rx.Defs.{Attribute, beacon_attribute, iterate_attributes, rx_ok}
use opennan.Rx.Beacon.{BeaconType, header, parse_beacon_header}
use opennan.Tx.Frames.{
  add_headers, add_beacon_header, add_beacon_attributes, beacon_octets, beacon_interval,
  broadcast_address, beacon_type_bits,
}
use opennan.Tx.Stored.{put_struct_here, FitsWidths}
use opennan.Tx.RoundTrip.{
  with_attributes, mi, cl, add_beacon_attributes_lem, add_beacon_attributes-iterate_attributes,
}
use opennan.Tx.BeaconHeader.{header_read_back, after_header}

synced_time-lt : (s : Timer.TimerState) (now : ℕ) → Timer.get_synced_time_usec s now < 2 ^ 64
unfolding Timer.get_synced_time_usec
synced_time-lt s now = omega arith

-- The buffer behind the radio headers of a beacon.
abbrev pub headed : Radiotap → Buf → NanState → Buf
headed r b s = (add_headers r b s broadcast_address beacon_type_bits).0

-- What was written from the position of a buffer on, as its receiver gets it.
abbrev pub frame_of : Buf → Buf → Buf
frame_of from written = record written { position = from.position; end = written.position }

module _ (r : Radiotap) (b : Buf) (s : NanState) (type : BeaconType) (now : ℕ) where
  abbrev start : Buf
  start = headed r b s

  abbrev time : ℕ
  time = Timer.get_synced_time_usec s.timer now

  abbrev with_beacon_header : Buf
  with_beacon_header = record start {
    bytes = store start.bytes start.position (beacon_octets time (beacon_interval type) 4);
    position = start.position + 18;
  }

  add_beacon_header_lem :
      IsValid start
      → start.position + 18 ≤ start.end
      → add_beacon_header r b s type now ≡ (
        start.position + 13,
        with_beacon_header,
        (add_headers r b s broadcast_address beacon_type_bits).1,
      )
  unfolding add_beacon_header add_headers encode_le
  add_beacon_header_lem v h =
      ap (λ x. (start.position + 13, x, (add_headers r b s broadcast_address beacon_type_bits).1))
        (put_struct_here start (beacon_octets time (beacon_interval type) 4) v h)

  with_beacon_header-IsValid :
      IsValid start → start.position + 39 ≤ start.end → IsValid with_beacon_header
  with_beacon_header-IsValid v h = record {
    inside = omega arith;
    within = omega (
      arith,
      v.within,
      length-store start.bytes start.position (beacon_octets time (beacon_interval type) 4),
    );
    small = v.small;
  }

  -- Whatever the attributes are, the header is read back.
  header_part :
      (s2 : NanState)
      → IsValid start
      → start.position + 39 ≤ start.end
      → start.error ≡ pos 0
      → let frame =
          frame_of start (add_beacon_attributes with_beacon_header s2 (start.position + 13)) in
        parse_beacon_header frame
        ≡ (header type time, record frame { position = start.position + 18 })
  unfolding encode_le
  header_part s2 v h e =
      let v2 = with_beacon_header-IsValid v h in
      let written = with_attributes s2 (start.position + 13) with_beacon_header in
      let frame = frame_of start written in
      let bytes2 =
        store with_beacon_header.bytes (start.position + 18) (mi s2 (start.position + 13)) in
      let bytes3 = store bytes2 (start.position + 18 + 5) (cl s2 (start.position + 13)) in
      let octet = u8 (get_or bytes3 (start.position + 13) 0 + 21) in
      let joined =
        store_append with_beacon_header.bytes (start.position + 18) (start.position + 18 + 5)
          (mi s2 0) (cl s2 0) refl in
      let valid : IsValid frame = record {
        inside = omega arith;
        within = omega (
          arith,
          v2.within,
          h,
          length-store with_beacon_header.bytes (start.position + 18) (mi s2 0),
          length-store bytes2 (start.position + 18 + 5) (cl s2 0),
          length-set bytes3 (start.position + 13) octet,
        );
        small = omega (arith, v.small, h);
      } in
      let read =
        header_read_back start.bytes start.position time octet type (mi s2 0 ++ cl s2 0)
          (omega (arith, v.within)) (synced_time-lt s.timer now) frame
          (ap (λ x. store x (start.position + 13) (octet ∷ [])) joined) refl valid e
          (omega (arith, h)) in
      let moved : after_header frame ≡ start.position + 18 = omega arith in
      subst
        (λ w.
          parse_beacon_header (frame_of start w)
          ≡ (header type time, record (frame_of start w) { position = start.position + 18 }))
        (sym (
          add_beacon_attributes_lem s2 (start.position + 13) with_beacon_header v2
            (omega (arith, h))))
        (read ∙ ap (λ q. (header type time, record frame { position = q })) moved)

-- A beacon, as it is before a checksum is appended, is read back. The buffer behind the radio
-- headers is valid and has no error and room for 39 octets, and the fields have their widths. Then
-- `nan_parse_beacon_header` on what was written finds the type and our synchronised time, and the
-- loop over the attributes ends with RX_OK at the end, whatever was on the stack. The peer is then
-- what the two setters of src/peer.c make of it with our preference and random factor, and with our
-- anchor master rank, transmission time and hop count; with the hop count 0 the second setter
-- stores the low 32 bits of the peer's last timestamp in place of the transmission time.
pub add_beacon-parse_beacon :
    (r : Radiotap) (b : Buf) (s : NanState) (type : BeaconType) (now fuel : ℕ) (stack : Attribute)
    (p : Peer)
    → IsValid (headed r b s)
    → (headed r b s).position + 39 ≤ (headed r b s).end
    → (headed r b s).error ≡ pos 0
    → FitsWidths s.sync
    → let (data_length, b2, s2) = add_beacon_header r b s type now in
      let written = add_beacon_attributes b2 s2 data_length in
      let frame = frame_of (headed r b s) written in
      let body : Buf = record frame { position = b2.position } in
      (parse_beacon_header frame ≡ (header type (Timer.get_synced_time_usec s.timer now), body))
      × (iterate_attributes beacon_attribute (suc (suc (suc fuel))) body stack rx_ok p
          ≡ some (
            rx_ok,
            set_anchor_master_information
                (set_master_indication p s.sync.master_preference s.sync.random_factor)
                s.sync.anchor_master_rank
                s.sync.ambtt
                s.sync.hop_count,
            record written { end = written.position; error = minus_one },
          ))
unfolding add_headers
add_beacon-parse_beacon r b s type now fuel stack p v h e f =
    let start : Buf = headed r b s in
    let s2 = (add_headers r b s broadcast_address beacon_type_bits).1 in
    let b2 = with_beacon_header r b s type now in
    rw (add_beacon_header_lem r b s type now v (omega (arith, h))) (
      header_part r b s type now s2 v h e,
      add_beacon_attributes-iterate_attributes s2 (start.position + 13) b2 fuel stack p
          (with_beacon_header-IsValid r b s type now v h) e (omega (arith, h)) (omega arith) f,
    )
