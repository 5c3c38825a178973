-- ===== src/Tx/Tests.antt =====
-- A beacon of a device in its initial state, as it is written and read, and other writers.
use opennan.Prelude.{ℕ, ◌∷◌, ◌≡◌, refl, suc, false, some, none, [], replicate, arith}
use opennan.Prelude.Int.{pos, minus_one}
use opennan.Utils.{EtherAddr}
use opennan.MovingAverage
use opennan.Wire.{Buf}
use opennan.Wire.Defs.{buf_new_owned, encode_le, too_short, buf_new_const}
use opennan.Wire.Bounds.{IsValid}
use opennan.Timer
use opennan.Peer.{Peer}
use opennan.Peer.Defs.{set_master_indication, set_anchor_master_information}
use opennan.Ieee80211.Sample.{radiotap}
use opennan.Sync.Defs.{init, calculate_master_rank}
use opennan.State.{NanState, init_nan_state}
use opennan.Rx.Defs.{attribute_read_next, Attribute, beacon_attribute, iterate_attributes, rx_ok}
use opennan.Rx.Beacon.{sync_beacon, header, parse_beacon_header}
use opennan.Rx.Discovery.{parse_sda}
use opennan.Service.Defs.{published, Service, ServiceDescriptor}
use opennan.LinkedList.{list_add}
use opennan.Tx.DescriptorRoundTrip.{add_service_descriptor-parse_sda}
use opennan.Tx.Attributes.{add_service_descriptor_attribute, add_availability_attribute}
use opennan.Tx.DataPath.{add_data_path_attribute}
use opennan.Tx.Frames.{add_headers, add_beacon_header, add_beacon_attributes}
use opennan.Tx.Stored.{FitsWidths}
use opennan.CircularBuffer
use opennan.CircularBuffer.Inv.{init-IsValid}
use opennan.Tx.Transmit.{Message, Outcome, transmit_all, transmit_all_lem}
use opennan.Tx.Beacon.{headed, frame_of, add_beacon-parse_beacon}

abbrev addr : ℕ → EtherAddr
addr n = record { octet0 = 2; octet1 = 0; octet2 = 0; octet3 = 0; octet4 = 0; octet5 = n }

abbrev state : NanState
state =
    init_nan_state (replicate 16 0) (record { cluster_id = addr 0; cluster_grade = 0 }) 1 2 []
      (addr 3) (pos 6) 1000000

abbrev buffer : Buf
buffer = buf_new_owned (replicate 100 0) 100

-- The availability attribute takes thirteen octets, and a data path attribute of a request one more
-- than its fixed part.
availability : (add_availability_attribute buffer).0 ≡ pos 13
unfolding add_availability_attribute too_short buf_new_owned encode_le
availability = refl

data_path : (add_data_path_attribute buffer 1 (addr 3) 0 0 5 none none 0).0 ≡ pos 15
unfolding add_data_path_attribute too_short buf_new_owned encode_le
data_path = refl

abbrev stack : Attribute
stack = record { id = 7; length = 300; data_bytes = [] }

abbrev block : Peer
block = record {
  ref = 1;
  cluster_id = addr 0;
  addr = addr 0;
  ipv6_addr = [];
  last_update = 0;
  last_timestamp = 0;
  master_preference = 0;
  last_master_preference = 0;
  random_factor = 0;
  anchor_master_rank = 0;
  last_anchor_master_rank = 0;
  ambtt = 0;
  hop_count = 0;
  master_candidate = false;
  rssi_average = (MovingAverage.init 32).0;
  rssi_average_state = (MovingAverage.init 32).1;
  availability_all_slots = false;
  availability_entries = 0;
}

state-FitsWidths : FitsWidths state.sync
unfolding init_nan_state init calculate_master_rank
state-FitsWidths = record {
  preference = omega arith;
  factor = omega arith;
  rank = omega arith;
  hops = omega arith;
  time = omega arith;
}

headed-IsValid : IsValid (headed radiotap buffer state)
unfolding buf_new_owned add_headers too_short init_nan_state encode_le
headed-IsValid = record { inside = omega arith; within = omega arith; small = omega arith }

add_beacon-parse_beacon_example :
    let (data_length, b2, s2) = add_beacon_header radiotap buffer state sync_beacon 2000000 in
    let written = add_beacon_attributes b2 s2 data_length in
    let frame = frame_of (headed radiotap buffer state) written in
    let body : Buf = record frame { position = b2.position } in
    (parse_beacon_header frame
      ≡ (header sync_beacon (Timer.get_synced_time_usec state.timer 2000000), body))
    × (iterate_attributes beacon_attribute (suc (suc (suc 0))) body stack rx_ok block
        ≡ some (
          rx_ok,
          set_anchor_master_information
              (set_master_indication block state.sync.master_preference state.sync.random_factor)
              state.sync.anchor_master_rank
              state.sync.ambtt
              state.sync.hop_count,
          record written { end = written.position; error = minus_one },
        ))
unfolding buf_new_owned add_headers too_short init_nan_state encode_le
add_beacon-parse_beacon_example =
    add_beacon-parse_beacon radiotap buffer state sync_beacon 2000000 0 stack block headed-IsValid
      (omega arith) refl state-FitsWidths

abbrev offered : Service
offered = record {
  ref = 1;
  service_name = [];
  type = published;
  instance_id = 5;
  service_id = [];
  service_specific_info = none;
  service_specific_info_length = 0;
  service_update_indicator = 0;
  time_to_live = pos 1;
  parameter_type = 0;
  flag = false;
}

abbrev raw : ServiceDescriptor
raw = record {
  service_id = [];
  instance_id = 0;
  requestor_instance_id = 0;
  control = 0;
  service_info = none;
  service_info_length = 0;
}

buffer-IsValid : IsValid buffer
unfolding buf_new_owned
buffer-IsValid = record { inside = omega arith; within = omega arith; small = omega arith }

add_service_descriptor-parse_sda_example :
    let service = record offered { service_id = 1 ∷ 2 ∷ 3 ∷ 4 ∷ 5 ∷ 6 ∷ [] } in
    let written = (add_service_descriptor_attribute buffer service 1 9 (some (7 ∷ 8 ∷ [])) 2).1 in
    let read =
      attribute_read_next (record written { position = 0; end = written.position }) stack in
    (read.0 ≡ pos 15)
    × (read.1.id ≡ 3)
    × (parse_sda raw (buf_new_const read.1.data_bytes read.1.length) [] ≡ (
      rx_ok,
      list_add [] (record raw {
        service_id = 1 ∷ 2 ∷ 3 ∷ 4 ∷ 5 ∷ 6 ∷ [];
        instance_id = 5;
        requestor_instance_id = 9;
        control = 17;
        service_info_length = 2;
        service_info = some (7 ∷ 8 ∷ []);
      }),
    ))
unfolding buf_new_owned
add_service_descriptor-parse_sda_example =
    add_service_descriptor-parse_sda buffer offered 1 2 3 4 5 6 1 9 (7 ∷ 8 ∷ []) stack raw []
      buffer-IsValid refl (omega arith) (omega arith) (omega arith) (omega arith)

-- A device with one service, a ring of two, and four follow-ups, the second of which is for a
-- service that the device does not have.
abbrev offering : NanState
offering = record state {
  buffer = CircularBuffer.init (replicate 2 0) 2;
  services = record state.services { published_services = offered ∷ [] };
}

abbrev message : ℕ → ℕ → Message
message id ref = record {
  memory = [];
  ref = ref;
  destination = addr 4;
  instance_id = id;
  requestor_instance_id = 9;
  info = none;
  info_length = 0;
}

transmit_all_lem_example :
    let messages = message 5 11 ∷ message 6 12 ∷ message 5 13 ∷ message 5 14 ∷ [] in
    Outcome offering messages (transmit_all radiotap offering messages)
transmit_all_lem_example =
    transmit_all_lem radiotap (message 5 11 ∷ message 6 12 ∷ message 5 13 ∷ message 5 14 ∷ [])
      offering (init-IsValid (replicate 2 0) 2 refl (omega arith) (omega arith))
