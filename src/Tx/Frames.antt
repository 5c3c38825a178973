-- ===== src/Tx/Frames.antt =====
-- The frames of src/tx.c: beacons, service discovery frames and follow-ups.
use opennan.Prelude.{
  ℕ, ◌+◌, ◌^◌, Option, none, some, List, [], ◌∷◌, ◌++◌, leb, get_or, if◌then◌else◌,
}
use opennan.Prelude.Int.{ℤ, pos, minus_one, ltb_ℤ, residue, u8}
use opennan.Utils.{EtherAddr}
use opennan.CircularBuffer
use opennan.LinkedList.{list_for_each}
use opennan.Timer
use opennan.Wire.{Buf}
use opennan.Wire.Defs.{encode_le, buf_new_owned}
use opennan.Service.Defs.{Service, is_published, get_by_instance_id}
use opennan.Ieee80211.{Radiotap, add_radiotap_header, add_nan_header, add_fcs, put_at, put_struct}
use opennan.Rx.Beacon.{BeaconType, is_sync_beacon}
use opennan.State.{NanState}
use opennan.Tx.Attributes.{
  add_master_indication_attribute, add_cluster_attribute, add_service_descriptor_attribute,
  add_service_descriptor_extension_attribute, add_device_capability_attribute,
  add_availability_attribute,
}

abbrev pub broadcast_address : EtherAddr
broadcast_address = record {
  octet0 = 0xff;
  octet1 = 0xff;
  octet2 = 0xff;
  octet3 = 0xff;
  octet4 = 0xff;
  octet5 = 0xff;
}

-- `IEEE80211_FTYPE_MGMT` with `IEEE80211_STYPE_BEACON` or `IEEE80211_STYPE_ACTION`.
abbrev pub beacon_type_bits : ℕ
beacon_type_bits = 0x80

abbrev pub action_type_bits : ℕ
action_type_bits = 0xd0

-- `struct nan_beacon_frame` as its octets: the length of the element is at offset 13.
abbrev pub beacon_octets : ℕ → ℕ → ℕ → List ℕ
beacon_octets time_stamp beacon_interval element_length =
    encode_le 8 time_stamp
    ++ encode_le 2 beacon_interval
    ++ encode_le 2 0x0420
    ++ 0xdd ∷ element_length ∷ 0x50 ∷ 0x6f ∷ 0x9a ∷ 0x13 ∷ []

abbrev pub beacon_interval : BeaconType → ℕ
beacon_interval type = if is_sync_beacon type then 512 else 100

-- The two headers in front of a frame's body.
unfoldable pub add_headers : Radiotap → Buf → NanState → EtherAddr → ℕ → Buf × NanState
unfolding add_radiotap_header add_nan_header
add_headers r b s destination type =
    let b1 = add_radiotap_header r b s.ieee80211 in
    let (b2, ieee80211) =
      add_nan_header b1 s.interface_address destination s.cluster.cluster_id s.ieee80211 type in
    (b2, record s { ieee80211 = ieee80211 })

-- `nan_add_beacon_header`; `*data_length` is at the position plus 13.
unfoldable pub add_beacon_header : Radiotap → Buf → NanState → BeaconType → ℕ → ℕ × Buf × NanState
unfolding add_headers put_struct encode_le
add_beacon_header r b s type now =
    let (b1, s') = add_headers r b s broadcast_address beacon_type_bits in
    let time = Timer.get_synced_time_usec s.timer now in
    (b1.position + 13, put_struct b1 (beacon_octets time (beacon_interval type) 4), s')

-- `*data_length += …`, an octet.
abbrev pub add_to_octet : Buf → ℕ → ℕ → Buf
add_to_octet b at n = put_at b at (u8 (get_or b.bytes at 0 + n) ∷ [])

-- The body of a beacon after its header: two attributes, whose lengths are counted in an octet.
unfoldable pub add_beacon_attributes : Buf → NanState → ℕ → Buf
unfolding add_master_indication_attribute add_cluster_attribute
add_beacon_attributes b s data_length =
    let (length1, b1) = add_master_indication_attribute b s.sync in
    let (length2, b2) = add_cluster_attribute b1 s.sync in
    add_to_octet b2 data_length (u8 (residue (2 ^ 8) length1 + residue (2 ^ 8) length2))

unfoldable pub build_beacon_frame : Radiotap → Buf → NanState → BeaconType → ℕ → Buf × NanState
unfolding add_beacon_header add_beacon_attributes add_fcs
build_beacon_frame r b s type now =
    let (data_length, b1, s') = add_beacon_header r b s type now in
    let b2 = add_beacon_attributes b1 s' data_length in
    (if s'.ieee80211.fcs then add_fcs b2 else b2, s')

-- `struct nan_service_discovery_frame`: a public vendor specific action.
abbrev pub service_discovery_octets : List ℕ
service_discovery_octets = 0x04 ∷ 0x09 ∷ 0x50 ∷ 0x6f ∷ 0x9a ∷ 0x13 ∷ []

unfoldable pub add_service_discovery_header : Radiotap → Buf → NanState → EtherAddr → Buf × NanState
unfolding add_headers put_struct
add_service_discovery_header r b s destination =
    let (b1, s') = add_headers r b s destination action_type_bits in
    (put_struct b1 service_discovery_octets, s')

-- The body of the loop over the announced services.
abbrev pub control_type_of : Service → ℕ
control_type_of x = if is_published x.type then 0 else 1

unfoldable pub add_announced : Buf → Service → Buf
unfolding add_service_descriptor_attribute add_service_descriptor_extension_attribute
add_announced b x =
    let (_, b1) =
      add_service_descriptor_attribute b x (control_type_of x) 0 x.service_specific_info
        x.service_specific_info_length in
    (add_service_descriptor_extension_attribute b1 x x.service_specific_info
      x.service_specific_info_length).1

unfoldable pub build_service_discovery_frame :
    Radiotap → Buf → NanState → EtherAddr → List Service → Buf × NanState
unfolding add_service_discovery_header add_device_capability_attribute add_availability_attribute
    list_for_each add_announced add_fcs
build_service_discovery_frame r b s destination announced_services =
    let (b1, s') = add_service_discovery_header r b s destination in
    let (_, b2) = add_device_capability_attribute b1 in
    let (_, b3) = add_availability_attribute b2 in
    let b4 = list_for_each add_announced b3 announced_services in
    (if s'.ieee80211.fcs then add_fcs b4 else b4, s')

-- `nan_transmit` from the point where the service is known. `memory` is the block of
-- BUF_MAX_LENGTH octets that `malloc` returned and `ref` the address of the new buffer, which goes
-- into the circular buffer; the buffer is the last component.
unfoldable pub transmit_follow_up :
    Radiotap
    → List ℕ
    → ℕ
    → NanState
    → EtherAddr
    → Service
    → ℕ
    → Option (List ℕ)
    → ℕ
    → ℤ × NanState × Option Buf
unfolding buf_new_owned add_service_discovery_header add_service_descriptor_attribute
    add_service_descriptor_extension_attribute add_fcs CircularBuffer.put
transmit_follow_up r memory ref s destination service requestor_instance_id info info_length =
    let (b1, s') = add_service_discovery_header r (buf_new_owned memory 65535) s destination in
    let (_, b2) =
      add_service_descriptor_attribute b1 service 2 requestor_instance_id info info_length in
    let b3 =
      if leb 256 info_length
      then (add_service_descriptor_extension_attribute b2 service info info_length).1
      else b2 in
    let b4 = if s'.ieee80211.fcs then add_fcs b3 else b3 in
    let (status, buffer) = CircularBuffer.put s'.buffer ref in
    if ltb_ℤ status (pos 0)
    then (minus_one, s', some b4)
    else (pos 0, record s' { buffer = buffer }, some b4)

unfoldable pub transmit :
    Radiotap
    → List ℕ
    → ℕ
    → NanState
    → EtherAddr
    → ℕ
    → ℕ
    → Option (List ℕ)
    → ℕ
    → ℤ × NanState × Option Buf
unfolding get_by_instance_id transmit_follow_up
transmit r memory ref s destination instance_id requestor_instance_id info info_length =
    elim (get_by_instance_id s.services instance_id none) [
      | none ↦ (minus_one, s, none)
      | some service ↦
          transmit_follow_up r memory ref s destination service requestor_instance_id info
            info_length
    ]
