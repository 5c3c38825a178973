-- ===== src/Rx/Frame.antt =====
-- Action frames and the entry point of reception, `nan_rx_action` and `nan_rx` of src/rx.c.
use opennan.Prelude.{
  ℕ, ◌+◌, not, Option, none, some, List, [], bit_and, ◌==◌, get_or, if◌then◌else◌,
}
use opennan.Prelude.Int.{ℤ, pos, ltb_ℤ}
use opennan.Utils.{EtherAddr, ether_addr_equal, oui_equal}
use opennan.Wire.{Buf}
use opennan.Wire.Defs.{buf_advance, buf_rest, slice, decode_le}
use opennan.Peer.{Peer, Callback}
use opennan.Peer.Defs
use opennan.Event.{Call}
use opennan.Service.Defs.{ServiceState}
use opennan.Ieee80211.{Radiotap, parse_radiotap_header, parse_fcs, header_size}
use opennan.State.{NanState}
use opennan.Rx.Defs.{Attribute, rx_ok, rx_ignore, rx_too_short, rx_unexpected_format}
use opennan.Rx.Beacon.{Arrival, rx_beacon, rx_ignore_oui, rx_unexpected_type, nan_oui, oui_of}
use opennan.Rx.Beacon as Beacons
use opennan.Rx.Discovery.{Blocks, rx_service_discovery}

abbrev pub rx_ignore_from_self : ℤ
rx_ignore_from_self = pos 2

abbrev pub rx_ignore_failed_crc : ℤ
rx_ignore_failed_crc = pos 4

-- NAN_OUT_TYPE_SERVICE_DISCOVERY and NAN_OUI_TYPE_ACTION.
abbrev pub oui_type_service_discovery : ℕ
oui_type_service_discovery = 0x13

abbrev pub oui_type_action : ℕ
oui_type_action = 0x18

-- The sizes of `struct nan_action_frame` and of `struct nan_service_discovery_frame`.
abbrev pub action_frame_size : ℕ
action_frame_size = 7

abbrev pub service_discovery_frame_size : ℕ
service_discovery_frame_size = 6

-- One call of `nan_rx`: the frame, the clock, and what the stack, `malloc` and `rand` hold. `known`
-- is the RSSI and the flags on the stack.
pub record Reception : Type 0 where
  pub frame : Buf
  pub now : ℕ
  pub known : ℤ × ℕ
  pub stack : Attribute
  pub block : Peer
  pub blocks : Blocks
  pub draw : ℕ

-- The addresses of a header.
pub record Addresses : Type 0 where
  pub destination : EtherAddr
  pub source : EtherAddr
  pub cluster_id : EtherAddr

-- The result, the calls of peer callbacks, the calls of listeners, and the state; `none` is the end
-- of the fuel.
abbrev pub Received : Type 0
Received = Option (ℤ × List Callback × List Call × NanState)

abbrev pub refuse : ℤ → NanState → Received
refuse result s = some (result, [], [], s)

abbrev pub with_services :
    List Callback → NanState → Option (ℤ × List Call × ServiceState) → Received
with_services peer_calls s none = none
with_services peer_calls s (some (result, calls, services)) =
    some (result, peer_calls, calls, record s { services = services })

-- After the peer was looked up, by the type behind the OUI.
unfoldable pub dispatch_action :
    ℕ → Reception → Buf → Addresses → List Callback → NanState → Option Peer → Received
unfolding rx_service_discovery buf_advance
dispatch_action fuel r frame a calls s none = some (rx_ignore, calls, [], s)
dispatch_action fuel r frame a calls s (some peer) =
    let oui_type = get_or frame.bytes (frame.position + 5) 0 in
    let discovered =
      rx_service_discovery fuel r.blocks (buf_advance frame service_discovery_frame_size).1 r.stack
        s.events
        (record { self = s.interface_address; source = peer.addr; destination = a.destination })
        s.services in
    if oui_type == oui_type_service_discovery
    then with_services calls s discovered
    else if not (oui_type == oui_type_action)
    then some (rx_ignore, calls, [], s)
    else some (rx_ok, calls, [], s)

unfoldable pub rx_action : ℕ → Reception → Buf → Addresses → NanState → Received
unfolding buf_rest oui_equal Defs.add Defs.get dispatch_action
rx_action fuel r frame a s =
    let (_, calls, peers) = Defs.add s.peers r.block a.source a.cluster_id r.now in
    let done =
      dispatch_action fuel r frame a calls (record s { peers = peers })
        (Defs.get peers.peers a.source).1 in
    if ltb_ℤ (buf_rest frame) (pos action_frame_size)
    then refuse rx_too_short s
    else if not (oui_equal (oui_of (slice frame.bytes (frame.position + 2) 3)) nan_oui)
    then refuse rx_ignore_oui s
    else done

-- The octets `at`, … of a frame as an address.
abbrev pub address_at : Buf → ℕ → EtherAddr
address_at b at =
    let octet = λ (i : ℕ). get_or b.bytes (b.position + at + i) 0 in
    record {
      octet0 = octet 0;
      octet1 = octet 1;
      octet2 = octet 2;
      octet3 = octet 3;
      octet4 = octet 4;
      octet5 = octet 5;
    }

-- `struct ieee80211_hdr` at the position.
abbrev pub addresses_of : Buf → Addresses
addresses_of b = record {
  destination = address_at b 4;
  source = address_at b 10;
  cluster_id = address_at b 16;
}

abbrev pub without_services : Beacons.Outcome → Received
without_services none = none
without_services (some (result, calls, s)) = some (result, calls, [], s)

-- The arguments of `nan_rx_beacon`.
abbrev pub arrival_of : Reception → ℤ → Buf → Addresses → Arrival
arrival_of r rssi frame a = record {
  frame = frame;
  peer_address = a.source;
  cluster_id = a.cluster_id;
  rssi = rssi;
  now = r.now;
  block = r.block;
  stack = r.stack;
  draw = r.draw;
}

-- The `switch` on the type and the subtype: a beacon or an action frame.
unfoldable pub dispatch_frame : ℕ → Reception → ℤ → Buf → Addresses → ℕ → NanState → Received
unfolding rx_beacon rx_action
dispatch_frame fuel r rssi frame a frame_control s =
    let type = bit_and frame_control 0xfc in
    let beacon = without_services (rx_beacon fuel s (arrival_of r rssi frame a)) in
    let action = rx_action fuel r frame a s in
    if type == 0x80 then beacon else if type == 0xd0 then action else refuse rx_unexpected_type s

-- `nan_rx` after the radio header and the checksum.
unfoldable pub rx_header : ℕ → Reception → ℤ → Buf → NanState → Received
unfolding buf_rest buf_advance ether_addr_equal dispatch_frame
rx_header fuel r rssi frame s =
    let a = addresses_of frame in
    let (advanced, body) = buf_advance frame header_size in
    let done =
      dispatch_frame fuel r rssi body a (decode_le (slice frame.bytes frame.position 2)) s in
    if ltb_ℤ (buf_rest frame) (pos header_size)
    then refuse rx_too_short s
    else if ether_addr_equal a.source s.self_address
    then refuse rx_ignore_from_self s
    else if ltb_ℤ advanced (pos 0)
    then refuse rx_too_short s
    else done

-- `nan_rx`
unfoldable pub rx : Radiotap → ℕ → Reception → NanState → Received
unfolding parse_radiotap_header parse_fcs rx_header
rx radiotap fuel r s =
    let (radio_result, (rssi, flags), frame1) = parse_radiotap_header radiotap r.frame r.known in
    let (fcs_result, frame2) = parse_fcs radiotap frame1 flags in
    let done = rx_header fuel r rssi frame2 s in
    if ltb_ℤ radio_result (pos 0)
    then refuse rx_unexpected_format s
    else if ltb_ℤ fcs_result (pos 0)
    then refuse rx_ignore_failed_crc s
    else done
