-- ===== src/Tx/RoundTrip.antt =====
-- What a beacon says of our state is what its receiver notes of us: the attributes that src/tx.c
-- writes against the loop of src/rx.c that reads them.
use opennan.Prelude.{
  ℕ, suc, get_or, length-set, ◌+◌, ◌≤◌, ◌<◌, ◌≡◌, inl, inr, refl, ap, ◌∙◌, some, List, [], ◌∷◌,
  arith,
}
use opennan.Prelude.Int.{pos, minus_one, u8}
use opennan.Wire.{Buf}
use opennan.Wire.Defs.{slice, store, encode_le, buf_rest, decode_le}
use opennan.Wire.Bounds.{IsValid, length-store}
use opennan.Wire.Stored.{slice-store_inside, slice-store_apart}
use opennan.Peer.{Peer}
use opennan.Peer.Defs.{set_master_indication, set_anchor_master_information}
use opennan.Rx.Defs.{Attribute, beacon_attribute, rx_ok}
use opennan.State.{NanState}
use opennan.Tx.Frames.{add_beacon_attributes, add_to_octet}
use opennan.Tx.Attributes.{
  master_indication_octets, cluster_octets, add_master_indication_attribute, add_cluster_attribute,
}
use opennan.Rx.Rounds.{iterate_round, iterate_end}
use opennan.Rx.Defs.{iterate_attributes, result_at_end}
use opennan.Tx.Stored.{
  put_struct_here, FitsWidths, parse_cluster_octets, parse_master_indication_octets, Holds,
  read_next-held, read_next_at_end,
}

module _ (s : NanState) (at : ℕ) where
  abbrev pub mi : List ℕ
  mi = master_indication_octets s.sync.master_preference s.sync.random_factor

  abbrev pub cl : List ℕ
  cl = cluster_octets s.sync.anchor_master_rank s.sync.hop_count s.sync.ambtt

  -- Both attributes are stored one behind the other, and the length is stored at `at`.
  abbrev pub with_attributes : Buf → Buf
  with_attributes b =
      add_to_octet
        (record b {
          bytes = store (store b.bytes b.position mi) (b.position + 5) cl;
          position = b.position + 5 + 16;
        })
        at 21

  pub add_beacon_attributes_lem :
      (b : Buf)
      → IsValid b
      → b.position + 21 ≤ b.end
      → add_beacon_attributes b s at ≡ with_attributes b
  unfolding add_beacon_attributes add_master_indication_attribute add_cluster_attribute encode_le
  add_beacon_attributes_lem b v h =
      let b1 : Buf = record b { bytes = store b.bytes b.position mi; position = b.position + 5 } in
      let v1 : IsValid b1 = record {
        inside = omega arith;
        within = omega (arith, v.within, length-store b.bytes b.position mi);
        small = v.small;
      } in
      rw (put_struct_here b mi v (omega arith), put_struct_here b1 cl v1 (omega arith)) refl

  -- The written buffer, as its receiver gets it.
  abbrev received : Buf → ℕ → Buf
  received b position = record (with_attributes b) {
    position = position;
    end = b.position + 5 + 16;
  }

  received-IsValid :
      (b : Buf) (position : ℕ)
      → IsValid b
      → b.position + 21 ≤ b.end
      → position ≤ b.position + 21
      → IsValid (received b position)
  received-IsValid b position v h k =
      let bytes1 = store b.bytes b.position mi in
      let bytes2 = store bytes1 (b.position + 5) cl in
      record {
        inside = omega (arith, k);
        within = omega (
          arith,
          v.within,
          h,
          length-store b.bytes b.position mi,
          length-store bytes1 (b.position + 5) cl,
          length-set bytes2 at (u8 (get_or bytes2 at 0 + 21)),
        );
        small = omega (arith, v.small);
      }

  module _ (b : Buf) (v : IsValid b) (h : b.position + 21 ≤ b.end) (front : at < b.position) where
    received-Holds-mi : Holds (received b b.position) mi
    unfolding encode_le
    received-Holds-mi i j n e k =
        let bytes1 = store b.bytes b.position mi in
        let bytes2 = store bytes1 (b.position + 5) cl in
        slice-store_apart bytes2 at j n (u8 (get_or bytes2 at 0 + 21) ∷ []) (inr (omega (arith, e)))
        ∙ slice-store_apart bytes1 (b.position + 5) j n cl (inl (omega (arith, e, k)))
        ∙ slice-store_inside b.bytes b.position i j n mi e (omega (arith, v.within)) k

    received-Holds-cl : Holds (received b (b.position + 3 + 2)) cl
    unfolding encode_le
    received-Holds-cl i j n e k =
        let bytes1 = store b.bytes b.position mi in
        let bytes2 = store bytes1 (b.position + 5) cl in
        slice-store_apart bytes2 at j n (u8 (get_or bytes2 at 0 + 21) ∷ []) (inr (omega (arith, e)))
        ∙ slice-store_inside bytes1 (b.position + 5) i j n cl (omega (arith, e))
            (omega (arith, v.within, length-store b.bytes b.position mi)) k

    -- What a peer that heard us notes.
    abbrev noted : Peer → Peer
    noted p =
        set_anchor_master_information
          (set_master_indication p s.sync.master_preference s.sync.random_factor)
          s.sync.anchor_master_rank s.sync.ambtt s.sync.hop_count

    read_both :
        (fuel : ℕ) (stack : Attribute) (p : Peer)
        → b.error ≡ pos 0
        → FitsWidths s.sync
        → iterate_attributes beacon_attribute
            (suc (suc (suc fuel)))
            (received b b.position)
            stack
            rx_ok
            p
          ≡ some (rx_ok, noted p, record (received b (b.position + 5 + 16)) { error = minus_one })
    unfolding encode_le decode_le beacon_attribute buf_rest
    read_both fuel stack p e f =
        let b0 = received b b.position in
        let b1 = received b (b.position + 3 + 2) in
        let b2 = received b (b.position + 3 + 2 + 3 + 13) in
        let a1 : Attribute = record {
          id = decode_le (0 ∷ []);
          length = 2;
          data_bytes = slice mi 3 2;
        } in
        let a2 : Attribute = record {
          id = decode_le (1 ∷ []);
          length = 13;
          data_bytes = slice cl 3 13;
        } in
        let p1 = set_master_indication p s.sync.master_preference s.sync.random_factor in
        let v0 = received-IsValid b b.position v h (omega arith) in
        let v1 = received-IsValid b (b.position + 3 + 2) v h (omega arith) in
        let v2 = received-IsValid b (b.position + 3 + 2 + 3 + 13) v h (omega arith) in
        let ends : b.position + 3 + 2 + 3 + 13 ≡ b.position + 5 + 16 = omega arith in
        let the_end : result_at_end (record b2 { error = minus_one }) rx_ok ≡ rx_ok =
          ground arith in
        iterate_round beacon_attribute (suc (suc fuel)) stack rx_ok p b0 b1 2 a1 p1
          (read_next-held b0 stack mi 2 v0 e received-Holds-mi refl refl (omega (arith, h)))
          (parse_master_indication_octets s.sync p f)
        ∙ iterate_round beacon_attribute (suc fuel) a1 rx_ok p1 b1 b2 13 a2 (noted p)
            (read_next-held b1 a1 cl 13 v1 e received-Holds-cl refl refl (omega (arith, h)))
            (parse_cluster_octets s.sync p1 f)
        ∙ iterate_end beacon_attribute fuel a2 rx_ok (noted p) b2 (record b2 { error = minus_one })
            (read_next_at_end b2 a2 v2 (omega arith) (omega arith) (omega arith))
        ∙ ap (λ z. some (z, noted p, record b2 { error = minus_one })) (the_end)
        ∙ ap (λ q. some (rx_ok, noted p, record (received b q) { error = minus_one })) ends

-- In a valid buffer without an error and with room for 21 octets, where the length of the element
-- lies before the position and the fields have their widths, the attributes that a beacon gets are
-- read back: whatever was on the stack, the loop of the receiver ends with RX_OK at the end of
-- them, and the peer has our preference, random factor, anchor master rank, hop count and
-- transmission time.
pub add_beacon_attributes-iterate_attributes :
    (s : NanState) (at : ℕ) (b : Buf) (fuel : ℕ) (stack : Attribute) (p : Peer)
    → IsValid b
    → b.error ≡ pos 0
    → b.position + 21 ≤ b.end
    → at < b.position
    → FitsWidths s.sync
    → let written = add_beacon_attributes b s at in
      iterate_attributes beacon_attribute
        (suc (suc (suc fuel)))
        (record written { position = b.position; end = written.position })
        stack
        rx_ok
        p
      ≡ some (
        rx_ok,
        set_anchor_master_information
            (set_master_indication p s.sync.master_preference s.sync.random_factor)
            s.sync.anchor_master_rank
            s.sync.ambtt
            s.sync.hop_count,
        record written { end = written.position; error = minus_one },
      )
add_beacon_attributes-iterate_attributes s at b fuel stack p v e h front f =
    rw (add_beacon_attributes_lem s at b v h) (read_both s at b v h front fuel stack p e f)
