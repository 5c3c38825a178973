-- ===== src/Tx/Attributes.antt =====
-- The writers of attributes of src/tx.c. A packed struct is the list of its octets, bit fields from
-- the lowest bit on; it is stored through a pointer, without a test of the end.
use opennan.Prelude.{
  ℕ, ◌+◌, ◌%◌, ◌^◌, Bool, true, false, not, Option, none, some, List, [], ◌∷◌, ◌++◌, length, take,
  ltb, leb, if◌then◌else◌,
}
use opennan.Prelude.Int.{to_int, ℤ, pos, residue, u8, u16, u64}
use opennan.Timer
use opennan.LinkedList.{list_filter_for_each}
use opennan.Wire.{Buf}
use opennan.Wire.Defs.{encode_le, buf_advance, write_encoded, write_bytes, write_u8, write_le16}
use opennan.Sync.Defs.{SyncState, is_master}
use opennan.Service.Defs.{Service, ServiceState, is_published, should_announce}
use opennan.Ieee80211.{put_at, put_struct}
use opennan.State.{NanState}

unfoldable pub can_send_discovery_beacon : NanState → ℕ → Bool
can_send_discovery_beacon s now =
    if not (is_master s.sync.role)
    then false
    else if not (Timer.initial_scan_done s.timer now)
    then false
    else Timer.can_send_discovery_beacon s.timer now

-- `struct nan_master_indication_attribute` and `struct nan_cluster_attribute`.
abbrev pub master_indication_octets : ℕ → ℕ → List ℕ
master_indication_octets master_preference random_factor =
    0x00 ∷ encode_le 2 2 ++ master_preference ∷ random_factor ∷ []

abbrev pub cluster_octets : ℕ → ℕ → ℕ → List ℕ
cluster_octets anchor_master_rank hop_count ambtt =
    0x01 ∷ encode_le 2 13 ++ encode_le 8 anchor_master_rank ++ hop_count ∷ encode_le 4 ambtt

unfoldable pub add_master_indication_attribute : Buf → SyncState → ℤ × Buf
unfolding put_struct encode_le
add_master_indication_attribute b s =
    (pos 5, put_struct b (master_indication_octets s.master_preference s.random_factor))

unfoldable pub add_cluster_attribute : Buf → SyncState → ℤ × Buf
unfolding put_struct encode_le
add_cluster_attribute b s =
    (pos 16, put_struct b (cluster_octets s.anchor_master_rank s.hop_count s.ambtt))

-- An attribute whose length is not known yet: its id, and three octets.
abbrev pub open_attribute : Buf → ℕ → Buf
open_attribute b id = (buf_advance (put_at b b.position (id ∷ [])) 3).1

-- A `size_t` plus what a writer returns.
abbrev pub add_result : ℕ → ℤ → ℕ
add_result length result = u64 (length + residue (2 ^ 64) result)

-- `header->length = …`: the attribute began at `at`.
abbrev pub close_attribute : Buf → ℕ → ℕ → Buf
close_attribute b at length = put_at b (at + 1) (encode_le 2 (u16 length))

-- A call of a writer, adding what it returns to the length.
abbrev pub write_then : ℕ × Buf → (Buf → ℕ × Buf) → ℕ × Buf
write_then (length, b) write = let (n, b') = write b in (add_result length (pos n), b')

abbrev pub write_bytes_then : ℕ × Buf → List ℕ → ℕ × Buf
write_bytes_then (length, b) xs = let (n, b') = write_bytes b xs in (add_result length n, b')

abbrev pub add_service_id : ℕ × Buf → Service → ℕ × Buf
add_service_id so_far x = write_bytes_then so_far (take 6 x.service_id)

unfoldable pub add_service_id_list_attribute : Buf → ServiceState → ℤ × Buf
unfolding list_filter_for_each should_announce write_bytes buf_advance
add_service_id_list_attribute b s =
    let so_far =
      list_filter_for_each should_announce add_service_id (0, open_attribute b 0x02)
        s.published_services in
    let (length, b') =
      list_filter_for_each should_announce add_service_id so_far s.subscribed_services in
    (to_int (u64 (length + 3)), close_attribute b' b.position length)

-- `struct nan_service_descriptor_control` with a type and `service_info_present`.
abbrev pub service_control_octet : ℕ → Bool → ℕ
service_control_octet control_type info_present =
    control_type % 2 ^ 2 + (if info_present then 2 ^ 4 else 0)

-- The header, the service id and both instance ids, with their length.
unfoldable pub add_descriptor_fields : Buf → Service → ℕ → ℕ × Buf
unfolding write_encoded write_bytes buf_advance
add_descriptor_fields b service requestor_instance_id =
    let so_far0 = write_bytes_then (0, open_attribute b 0x03) (take 6 service.service_id) in
    let so_far1 = write_then so_far0 (λ x. write_u8 x service.instance_id) in
    write_then so_far1 (λ x. write_u8 x requestor_instance_id)

-- The control behind them, and the information if it is there and short: `info` is `none` for NULL.
unfoldable pub add_descriptor_info : ℕ → Option (List ℕ) → ℕ → ℕ × Buf → ℕ × Buf
unfolding write_encoded write_bytes buf_advance
add_descriptor_info control_type info info_length (length2, b2) =
    let (n3, b3) = buf_advance b2 1 in
    let length3 = add_result length2 n3 in
    let control = λ (present : Bool) (x : Buf).
      put_at x b2.position (service_control_octet control_type present ∷ []) in
    elim info as (λ o. ℕ × Buf) [
      | none ↦ (length3, control false b3)
      | some bytes ↦
          if ltb info_length 256
          then write_bytes_then
              (write_then (length3, control true b3) (λ x. write_u8 x (u8 info_length)))
              (take info_length bytes)
          else (length3, control false b3)
    ]

unfoldable pub add_service_descriptor_attribute :
    Buf → Service → ℕ → ℕ → Option (List ℕ) → ℕ → ℤ × Buf
unfolding add_descriptor_fields add_descriptor_info
add_service_descriptor_attribute b service control_type requestor_instance_id info info_length =
    let (length, b') =
      add_descriptor_info control_type info info_length
        (add_descriptor_fields b service requestor_instance_id) in
    (to_int (u64 (length + 3)), close_attribute b' b.position length)

unfoldable pub add_service_descriptor_extension_attribute :
    Buf → Service → Option (List ℕ) → ℕ → ℤ × Buf
unfolding write_encoded write_bytes buf_advance encode_le
add_service_descriptor_extension_attribute b service info info_length =
    let (length0, b0) =
      write_then (0, open_attribute b 0x0e) (λ x. write_u8 x service.instance_id) in
    let (n1, b1) = buf_advance b0 2 in
    let length1 = add_result length0 n1 in
    let control = λ (present : Bool) (x : Buf).
      put_at x b0.position (encode_le 2 (if present then 2 ^ 9 else 0)) in
    let so_far =
      if is_published service.type
      then write_then (length1, control true b1) (λ x. write_u8 x service.service_update_indicator)
      else (length1, control false b1) in
    let (length, b') = elim info as (λ o. ℕ × Buf) [
      | none ↦ so_far
      | some bytes ↦
          if leb 256 info_length
          then write_bytes_then (write_then so_far (λ x. write_le16 x (u16 info_length)))
              (take info_length bytes)
          else so_far
    ] in
    (to_int (u64 (length + 3)), close_attribute b' b.position length)

-- `struct nan_device_capability_attribute`: awake in each window at 2.4 GHz, and nothing else.
unfoldable pub add_device_capability_attribute : Buf → ℤ × Buf
unfolding put_struct encode_le
add_device_capability_attribute b =
    (pos 12, put_struct b (0x0f ∷ encode_le 2 9 ++ 0 ∷ 1 ∷ 0 ∷ 4 ∷ 0 ∷ 0 ∷ 0 ∷ 0 ∷ 0 ∷ []))

-- Sequence id, map id 1, and one committed entry without a time bitmap.
unfoldable pub add_availability_attribute : Buf → ℤ × Buf
unfolding write_encoded write_bytes buf_advance
add_availability_attribute b =
    let so_far0 = write_then (0, open_attribute b 0x12) (λ x. write_u8 x 0) in
    let so_far1 = write_bytes_then so_far0 (1 ∷ 0 ∷ []) in
    let so_far2 = write_then so_far1 (λ x. write_le16 x 5) in
    let so_far3 = write_then so_far2 (λ x. write_le16 x 1) in
    let so_far4 = write_then so_far3 (λ x. write_le16 x 0) in
    let (length, b') = write_then so_far4 (λ x. write_u8 x 0) in
    (to_int (u64 (length + 3)), close_attribute b' b.position length)
