-- ===== src/Rx/Tests.antt =====
-- A sync beacon of a peer with a higher rank, and the theorems at it.
use opennan.Prelude.{
  ℕ, ◌+◌, ◌*◌, ◌^◌, ◌≤◌, replicate, ◌≡◌, ◌≢◌, refl, false, none, some, [], ◌∷◌, arith,
}
use opennan.Prelude.Int.{pos, negsuc, minus_one}
use opennan.Wire.{Buf}
use opennan.Wire.Bounds.{IsValid}
use opennan.Wire.Defs.{decode_le, too_short, buf_new_const}
use opennan.Rx.Defs.{attribute_read_next, iterate_attributes, beacon_attribute, rx_ok}
use opennan.Rx.Attributes.{lone_octet_accepted}
use opennan.Rx.Parsers.{read_next_lem}
use opennan.LinkedList.{list_add}
use opennan.Ieee80211.Sample.{radiotap}
use opennan.Rx.Discovery.{parse_sda}
use opennan.Rx.Frame.{rx}
use opennan.Rx.Entry.{rx_total}
use opennan.State.{NanState, init_nan_state}
use opennan.Rx.Beacon.{Arrival}
use opennan.Rx.Sample.{addr, beacon, stack, block, descriptor, whole_frame-AreOctets, reception}

abbrev frame_at : ℕ → ℕ → Buf
frame_at position end = record {
  bytes = beacon;
  position = position;
  start = 0;
  end = end;
  size = 39;
  owned = false;
  error = pos 0;
}

frame_at-IsValid : (position end : ℕ) → position ≤ end → end ≤ 39 → IsValid (frame_at position end)
frame_at-IsValid position end h k = record { inside = h; within = k; small = omega arith }

arrival : Arrival
arrival = record {
  frame = frame_at 0 39;
  peer_address = addr 9;
  cluster_id = addr 0;
  rssi = negsuc 39;
  now = 2000000;
  block = block;
  stack = stack;
  draw = 77;
}

state : NanState
state =
    init_nan_state (replicate 16 0) (record { cluster_id = addr 0; cluster_grade = 0 }) 1 2 []
      (addr 3) (pos 6) 1000000

-- Both attributes are read.
iterate_beacon :
    iterate_attributes beacon_attribute 3 (frame_at 18 39) stack rx_ok block
    ≡ some (
      rx_ok,
      record block {
        master_preference = 200;
        random_factor = 50;
        anchor_master_rank = 200 * 2 ^ 56 + 50 * 2 ^ 48 + 9 * 2 ^ 40 + 2;
        hop_count = 1;
        ambtt = 67305985;
      },
      record (frame_at 39 39) { error = minus_one },
    )
unfolding iterate_attributes too_short decode_le beacon_attribute
iterate_beacon = refl

read_next_lem_example :
    attribute_read_next (frame_at 18 39) stack
    ≡ (pos 5, record { id = 0; length = 2; data_bytes = 200 ∷ 50 ∷ [] }, frame_at 23 39)
unfolding decode_le
read_next_lem_example =
    read_next_lem (frame_at 18 39) stack 2 (frame_at-IsValid 18 39 (omega arith) (omega arith)) refl
      refl (omega arith)

lone_octet_accepted_example :
    iterate_attributes beacon_attribute 1 (frame_at 23 24) stack rx_ok block
    ≡ some (rx_ok, block, record (frame_at 24 24) { error = minus_one })
lone_octet_accepted_example =
    lone_octet_accepted beacon_attribute 0 (frame_at 23 24) stack rx_ok block
      (frame_at-IsValid 23 24 (omega arith) (omega arith)) refl refl (omega arith) refl

-- A descriptor with service information: the service id, both instance ids, the control, two
-- octets.
descriptor_read :
    parse_sda descriptor
      (buf_new_const (1 ∷ 2 ∷ 3 ∷ 4 ∷ 5 ∷ 6 ∷ 7 ∷ 8 ∷ 18 ∷ 2 ∷ 65 ∷ 66 ∷ []) 12)
      []
    ≡ (
      rx_ok,
      record {
        service_id = 1 ∷ 2 ∷ 3 ∷ 4 ∷ 5 ∷ 6 ∷ [];
        instance_id = 7;
        requestor_instance_id = 8;
        control = 18;
        service_info = some (65 ∷ 66 ∷ []);
        service_info_length = 2;
      }
          ∷ [],
    )
unfolding parse_sda too_short decode_le buf_new_const list_add
descriptor_read = refl

rx_total_example : rx radiotap 72 reception state ≢ none
unfolding decode_le
rx_total_example =
    rx_total 72 reception (omega arith) radiotap state (λ xs. omega arith)
      (record { inside = omega arith; within = omega arith; small = omega arith })
      whole_frame-AreOctets (omega arith)
