-- ===== src/Tx/Stored.antt =====
-- What the writers of src/tx.c store, one attribute at a time, the parsers of src/rx.c read back.
use opennan.Prelude.{ℕ, ◌+◌, ◌^◌, ◌≤◌, ◌<◌, ◌≡◌, refl, sym, ap, ◌∙◌, List, [], ◌∷◌, arith, length}
use opennan.Prelude.Int.{ℤ, pos, minus_one}
use opennan.Wire.{Buf}
use opennan.Wire.Defs.{
  slice, store, encode_le, read_bytes, buf_error, decode_le, buf_advance, buf_new_const,
}
use opennan.Wire.Bounds.{IsValid, too_short-eq, length-store}
use opennan.Wire.RoundTrip.{decode_le-encode_le}
use opennan.Ieee80211.{put_struct}
use opennan.Sync.Defs.{SyncState}
use opennan.Peer.{Peer}
use opennan.Peer.Defs.{set_master_indication, set_anchor_master_information}
use opennan.Rx.Defs.{
  Attribute, attribute_read_next, parse_cluster_attribute, parse_master_indication_attribute, rx_ok,
  rx_too_short,
}
use opennan.Rx.Parsers.{read_next_lem, parse_cluster_lem, parse_master_indication_lem}
use opennan.Rx.Attributes.{read_short}
use opennan.Tx.Attributes.{master_indication_octets, cluster_octets}

-- With room, a struct is stored and the position moved behind it.
pub put_struct_here :
    (b : Buf) (xs : List ℕ)
    → IsValid b
    → b.position + length xs ≤ b.end
    → put_struct b xs
      ≡ record b { bytes = store b.bytes b.position xs; position = b.position + length xs }
unfolding put_struct buf_advance
put_struct_here b xs v h =
    let b' : Buf = record b { bytes = store b.bytes b.position xs } in
    let v' : IsValid b' = record {
      inside = v.inside;
      within = omega (arith, v.within, length-store b.bytes b.position xs);
      small = v.small;
    } in
    let t = too_short-eq {b = b'} (length xs) v' (omega (arith, v.small)) in ground (arith, t)

-- The fields of a master rank, a hop count and a transmission time have their widths.
pub record FitsWidths (s : SyncState) : Type 0 where
  pub preference : s.master_preference < 2 ^ 8
  pub factor : s.random_factor < 2 ^ 8
  pub rank : s.anchor_master_rank < 2 ^ 64
  pub hops : s.hop_count < 2 ^ 8
  pub time : s.ambtt < 2 ^ 32

pub decode_le-octet : (x : ℕ) → decode_le (x ∷ []) ≡ x
unfolding decode_le
decode_le-octet x = omega arith

-- A buffer on its own octets.
const-IsValid : (xs : List ℕ) → length xs < 2 ^ 31 → IsValid (buf_new_const xs (length xs))
unfolding buf_new_const
const-IsValid xs h = record { inside = omega arith; within = omega arith; small = h }

-- The two parsers on the data of the attributes with these fields.
module _ (s : SyncState) (p : Peer) (f : FitsWidths s) where
  abbrev pub cluster_data : List ℕ
  cluster_data = slice (cluster_octets s.anchor_master_rank s.hop_count s.ambtt) 3 13

  abbrev pub master_indication_data : List ℕ
  master_indication_data = slice (master_indication_octets s.master_preference s.random_factor) 3 2

  pub parse_cluster_octets :
      parse_cluster_attribute (buf_new_const cluster_data 13) p
      ≡ (rx_ok, set_anchor_master_information p s.anchor_master_rank s.ambtt s.hop_count)
  unfolding buf_new_const encode_le
  parse_cluster_octets =
      let b = buf_new_const cluster_data 13 in
      (parse_cluster_lem b p (const-IsValid cluster_data (omega arith)) refl).0 (omega arith)
      ∙ ap
          (λ x. (
            rx_ok,
            set_anchor_master_information p x (decode_le (slice b.bytes 9 4))
                (decode_le (slice b.bytes 8 1)),
          ))
          (decode_le-encode_le 8 s.anchor_master_rank f.rank)
      ∙ ap
          (λ x. (
            rx_ok,
            set_anchor_master_information p s.anchor_master_rank x (decode_le (slice b.bytes 8 1)),
          ))
          (decode_le-encode_le 4 s.ambtt f.time)
      ∙ ap (λ x. (rx_ok, set_anchor_master_information p s.anchor_master_rank s.ambtt x))
          (decode_le-octet s.hop_count)

  pub parse_master_indication_octets :
      parse_master_indication_attribute (buf_new_const master_indication_data 2) p
      ≡ (rx_ok, set_master_indication p s.master_preference s.random_factor)
  unfolding buf_new_const encode_le
  parse_master_indication_octets =
      let b = buf_new_const master_indication_data 2 in
      (parse_master_indication_lem b p (const-IsValid master_indication_data (omega arith)) refl).0
        (omega arith)
      ∙ ap (λ x. (rx_ok, set_master_indication p x (decode_le (slice b.bytes 1 1))))
          (decode_le-octet s.master_preference)
      ∙ ap (λ x. (rx_ok, set_master_indication p s.master_preference x))
          (decode_le-octet s.random_factor)

-- The octets from the position on are these.
abbrev pub Holds : Buf → List ℕ → Type 0
Holds b xs = (i j n : ℕ) → j ≡ b.position + i → i + n ≤ length xs → slice b.bytes j n ≡ slice xs i n

-- In a buffer that holds an attribute of `n` octets of data, it is read.
pub read_next-held :
    (b : Buf) (last : Attribute) (xs : List ℕ) (n : ℕ)
    → IsValid b
    → b.error ≡ pos 0
    → Holds b xs
    → length xs ≡ 3 + n
    → decode_le (slice xs 1 2) ≡ n
    → b.position + 3 + n ≤ b.end
    → attribute_read_next b last ≡ (
      pos (3 + n),
      record { id = decode_le (slice xs 0 1); length = n; data_bytes = slice xs 3 n },
      record b { position = b.position + 3 + n },
    )
read_next-held b last xs n v e held l d h =
    let id = held 0 b.position 1 (omega arith) (omega (arith, l)) in
    let size = held 1 (b.position + 1) 2 refl (omega (arith, l)) in
    let content = held 3 (b.position + 3) n refl (omega (arith, l)) in
    let attribute : List ℕ → List ℕ → ℤ × Attribute × Buf = λ x y. (
      pos (3 + n),
      record { id = decode_le x; length = n; data_bytes = y },
      record b { position = b.position + 3 + n },
    ) in
    read_next_lem b last n v e (sym (ap decode_le size ∙ d)) h
    ∙ ap (λ x. attribute x (slice b.bytes (b.position + 3) n)) id
    ∙ ap (attribute (slice xs 0 1)) content

-- At the end of a buffer no attribute is read.
pub read_next_at_end :
    (b : Buf) (last : Attribute)
    → IsValid b
    → b.position ≡ b.end
    → 0 < last.length
    → last.length < 2 ^ 16
    → attribute_read_next b last ≡ (rx_too_short, last, record b { error = minus_one })
unfolding attribute_read_next buf_error read_bytes
read_next_at_end b last v e h k =
    let b' : Buf = record b { error = minus_one } in
    let v' : IsValid b' = record { inside = v.inside; within = v.within; small = v.small } in
    let r1 = read_short decode_le 1 b v (omega arith) (omega (arith, e)) in
    let r2 = read_short decode_le 2 b' v' (omega arith) (omega (arith, e)) in
    let t = too_short-eq {b = b'} last.length v' (omega arith) in rw (r1, r2) (ground (arith, t, e))
