-- ===== src/Rx/Keeps.antt =====
-- What `nan_rx` of src/rx.c keeps of the state, given what each of its parts keeps.
use opennan.Prelude.{
  ℕ, ◌+◌, Bool, true, false, not, bit_and, get_or, Option, none, some, List, ◌==◌, if◌then◌else◌,
}
use opennan.Prelude.Int.{ℤ, pos, ltb_ℤ}
use opennan.Wire.{Buf}
use opennan.Wire.Defs.{buf_advance, buf_rest, slice, decode_le}
use opennan.Utils.{ether_addr_equal, oui_equal}
use opennan.Peer.{Peer, Callback}
use opennan.Peer.Defs
use opennan.Event.{Call}
use opennan.Service.Defs.{ServiceState}
use opennan.Ieee80211.{Radiotap, parse_radiotap_header, parse_fcs, header_size}
use opennan.State.{NanState}
use opennan.Rx.Beacon as Beacons
use opennan.Rx.Beacon.{Arrival, oui_of, nan_oui, rx_beacon}
use opennan.Rx.Frame.{
  Reception, Received, Addresses, oui_type_service_discovery, oui_type_action, action_frame_size,
  with_services, without_services, dispatch_action, rx_action, addresses_of, arrival_of,
  dispatch_frame, rx_header, rx,
}

module _ (P : NanState → Type 0) where
  -- The state after a beacon, if there is one.
  abbrev pub AfterBeacon : Beacons.Outcome → Type 0
  AfterBeacon none = Unit {0}
  AfterBeacon (some (result, calls, s)) = P s

  abbrev pub After : Received → Type 0
  After none = Unit {0}
  After (some (result, calls, events, s)) = P s

  either-After : (c : Bool) (x y : Received) → After x → After y → After (if c then x else y)
  either-After true x y hx hy = hx
  either-After false x y hx hy = hy

  without_services-After : (o : Beacons.Outcome) → AfterBeacon o → After (without_services o)
  without_services-After none h = tt
  without_services-After (some (result, calls, s)) h = h

-- `Before` is what holds of the state when the frame arrives, `P` what holds afterwards.
pub record Keeps (fuel : ℕ) (r : Reception) (Before P : NanState → Type 0) : Type 0 where
  pub refused_frame : (s : NanState) → Before s → P s
  pub services_changed :
      (s : NanState) (services : ServiceState) → P s → P (record s { services = services })
  pub peer_added :
      (s : NanState) (a : Addresses)
      → Before s
      → P (record s { peers = (Defs.add s.peers r.block a.source a.cluster_id r.now).2 })
  pub beacon_received :
      (s : NanState) (rssi : ℤ) (frame : Buf) (a : Addresses)
      → Before s
      → AfterBeacon P (rx_beacon fuel s (arrival_of r rssi frame a))

module _ {fuel : ℕ} {r : Reception} {Before P : NanState → Type 0} (k : Keeps fuel r Before P) where
  with_services-After :
      (calls : List Callback) (s : NanState) (o : Option (ℤ × List Call × ServiceState))
      → P s
      → After P (with_services calls s o)
  with_services-After calls s none h = tt
  with_services-After calls s (some (result, more, services)) h = k.services_changed s services h

  dispatch_action-After :
      (frame : Buf) (a : Addresses) (calls : List Callback) (s : NanState) (p : Option Peer)
      → P s
      → After P (dispatch_action fuel r frame a calls s p)
  unfolding dispatch_action
  dispatch_action-After frame a calls s none h = h
  dispatch_action-After frame a calls s (some peer) h =
      let oui_type = get_or frame.bytes (frame.position + 5) 0 in
      either-After P (oui_type == oui_type_service_discovery) _ _ (with_services-After calls s _ h)
        (either-After P (not (oui_type == oui_type_action)) _ _ h h)

  rx_action-After :
      (frame : Buf) (a : Addresses) (s : NanState) → Before s → After P (rx_action fuel r frame a s)
  unfolding rx_action
  rx_action-After frame a s h =
      either-After P (ltb_ℤ (buf_rest frame) (pos action_frame_size)) _ _ (k.refused_frame s h) (
        either-After P (not (oui_equal (oui_of (slice frame.bytes (frame.position + 2) 3)) nan_oui))
          _ _ (k.refused_frame s h) (dispatch_action-After frame a _ _ _ (k.peer_added s a h)))

  dispatch_frame-After :
      (rssi : ℤ) (frame : Buf) (a : Addresses) (frame_control : ℕ) (s : NanState)
      → Before s
      → After P (dispatch_frame fuel r rssi frame a frame_control s)
  unfolding dispatch_frame
  dispatch_frame-After rssi frame a frame_control s h =
      either-After P (bit_and frame_control 0xfc == 0x80) _ _
        (without_services-After P _ (k.beacon_received s rssi frame a h))
        (either-After P (bit_and frame_control 0xfc == 0xd0) _ _ (rx_action-After frame a s h)
          (k.refused_frame s h))

  rx_header-After :
      (rssi : ℤ) (frame : Buf) (s : NanState) → Before s → After P (rx_header fuel r rssi frame s)
  unfolding rx_header
  rx_header-After rssi frame s h =
      let (advanced, body) = buf_advance frame header_size in
      either-After P (ltb_ℤ (buf_rest frame) (pos header_size)) _ _ (k.refused_frame s h) (
        either-After P (ether_addr_equal (addresses_of frame).source s.self_address) _ _
          (k.refused_frame s h)
          (either-After P (ltb_ℤ advanced (pos 0)) _ _ (k.refused_frame s h) (
            dispatch_frame-After rssi body (addresses_of frame)
              (decode_le (slice frame.bytes frame.position 2)) s h)))

  -- Whatever frame arrives.
  pub rx-After : (radiotap : Radiotap) (s : NanState) → Before s → After P (rx radiotap fuel r s)
  unfolding rx
  rx-After radiotap s h =
      let (radio_result, (rssi, flags), frame1) = parse_radiotap_header radiotap r.frame r.known in
      let (fcs_result, frame2) = parse_fcs radiotap frame1 flags in
      either-After P (ltb_ℤ radio_result (pos 0)) _ _ (k.refused_frame s h) (
        either-After P (ltb_ℤ fcs_result (pos 0)) _ _ (k.refused_frame s h)
          (rx_header-After rssi frame2 s h))
