-- ===== src/Rx/Entry.antt =====
-- `nan_rx` as a whole returns.
use opennan.Prelude.{
  ℕ, ◌+◌, ◌^◌, ◌<◌, ◌≢◌, refl, sym, subst, Bool, true, false, Option, none, some, List, arith,
  if◌then◌else◌,
}
use mathlib.Core.Option.{none-ne-some}
use opennan.Prelude.Int.{ℤ, pos, ltb_ℤ}
use opennan.Wire.{Buf}
use opennan.Wire.Defs.{buf_advance, slice, decode_le}
use opennan.Wire.Bounds.{IsValid}
use opennan.Peer.{Peer, Callback}
use opennan.Peer.Defs
use opennan.Event.{Call, EventState}
use opennan.Service.Defs.{ServiceState}
use opennan.Ieee80211.{Radiotap, parse_radiotap_header, parse_fcs, header_size}
use opennan.State.{NanState}
use opennan.Rx.Defs.{Attribute}
use opennan.Rx.Attributes.{AreOctets, iterate_attributes_total}
use opennan.Rx.Beacon as Beacons
use opennan.Rx.Safety.{rx_beacon_total}
use opennan.Rx.Discovery.{
  Blocks, Found, Parties, discovery_attribute, handle_found, rx_service_discovery,
}
use opennan.Rx.Frame.{
  Reception, Addresses, refuse, with_services, without_services, dispatch_action, rx_action,
  addresses_of, arrival_of, dispatch_frame, rx_header, rx,
}
use opennan.Rx.Parts.{
  Within, Within-compose, Within-buf_advance, LengthIsSmall, Within-read_radiotap_fields,
  Within-parse_fcs,
}

handle_found_total :
    (events : EventState) (p : Parties) (services : ServiceState) (o : Option (ℤ × Found × Buf))
    → o ≢ none
    → handle_found events p services o ≢ none
unfolding handle_found
handle_found_total events p services none h = absurd (h refl)
handle_found_total events p services (some (result, (descriptors, extensions), frame)) h =
    λ e. none-ne-some _ (sym e)

with_services_total :
    (calls : List Callback) (s : NanState) (o : Option (ℤ × List Call × ServiceState))
    → o ≢ none
    → with_services calls s o ≢ none
with_services_total calls s none h = absurd (h refl)
with_services_total calls s (some (result, more, services)) h = λ e. none-ne-some _ (sym e)

without_services_total : (o : Beacons.Outcome) → o ≢ none → without_services o ≢ none
without_services_total none h = absurd (h refl)
without_services_total (some (result, calls, s)) h = λ e. none-ne-some _ (sym e)

refuse_total : (result : ℤ) (s : NanState) → refuse result s ≢ none
refuse_total result s = λ e. none-ne-some _ (sym e)

if_total {ℓ} :
    {A : Type ℓ} (c : Bool) (x y : Option A) → x ≢ none → y ≢ none → (if c then x else y) ≢ none
if_total true x y hx hy = hx
if_total false x y hx hy = hy

-- The frame that the handlers of a frame's body get.
module _ (fuel : ℕ) (frame : Buf) (valid : IsValid frame) (octets : AreOctets frame.bytes)
    (enough : frame.end < frame.position + fuel) where
  rx_service_discovery_total :
      (blocks : Blocks) (stack : Attribute) (events : EventState) (p : Parties)
      (services : ServiceState)
      → stack.length < 2 ^ 16
      → rx_service_discovery fuel blocks frame stack events p services ≢ none
  unfolding rx_service_discovery
  rx_service_discovery_total blocks stack events p services l =
      handle_found_total events p services _ (
        iterate_attributes_total (discovery_attribute blocks) fuel frame stack _ _ valid octets l
          enough)

-- A handler gets a part of the frame.
module _ (fuel : ℕ) (r : Reception) (small : r.stack.length < 2 ^ 16) where
  abbrev Enough : Buf → Type 0
  Enough b = IsValid b × AreOctets b.bytes × (b.end < b.position + fuel)

  part-Enough : {b b' : Buf} → Enough b → Within b b' → Enough b'
  part-Enough (v, o, f) w =
      (w.valid, subst AreOctets (sym w.same_bytes) o, omega (arith, f, w.forward, w.shorter))

  dispatch_action_total :
      (frame : Buf) (a : Addresses) (calls : List Callback) (s : NanState) (p : Option Peer)
      → Enough frame
      → dispatch_action fuel r frame a calls s p ≢ none
  unfolding dispatch_action
  dispatch_action_total frame a calls s none e = λ f. none-ne-some _ (sym f)
  dispatch_action_total frame a calls s (some peer) e =
      let (v, o, f) = part-Enough e (Within-buf_advance frame 6 e.0 (omega arith)) in
      let p : Parties = record {
        self = s.interface_address;
        source = peer.addr;
        destination = a.destination;
      } in
      let found =
        rx_service_discovery_total fuel _ v o f r.blocks r.stack s.events p s.services small in
      ground (arith, with_services_total calls s _ found)

  rx_action_total :
      (frame : Buf) (a : Addresses) (s : NanState)
      → Enough frame
      → rx_action fuel r frame a s ≢ none
  unfolding rx_action
  rx_action_total frame a s e =
      let (status, calls, peers) = Defs.add s.peers r.block a.source a.cluster_id r.now in
      let s' : NanState = record s { peers = peers } in
      ground (arith, dispatch_action_total frame a calls s' (Defs.get peers.peers a.source).1 e)

  dispatch_frame_total :
      (rssi : ℤ) (frame : Buf) (a : Addresses) (frame_control : ℕ) (s : NanState)
      → Enough frame
      → dispatch_frame fuel r rssi frame a frame_control s ≢ none
  unfolding dispatch_frame
  dispatch_frame_total rssi frame a frame_control s e =
      let beacon =
        without_services_total _
          (rx_beacon_total fuel s (arrival_of r rssi frame a) e.0 e.1 small e.2) in
      ground (arith, beacon, rx_action_total frame a s e)

  rx_header_total :
      (rssi : ℤ) (frame : Buf) (s : NanState) → Enough frame → rx_header fuel r rssi frame s ≢ none
  unfolding rx_header
  rx_header_total rssi frame s e =
      let e' = part-Enough e (Within-buf_advance frame 24 e.0 (omega arith)) in
      let frame_control = decode_le (slice frame.bytes frame.position 2) in
      let (advanced, body) = buf_advance frame header_size in
      ground (arith, dispatch_frame_total rssi body (addresses_of frame) frame_control s e')

  -- In a valid frame of octets, where the length in a radiotap header has 16 bits and what is on
  -- the stack too, fuel for one round more than the frame has octets left is enough for `nan_rx` to
  -- return, whatever kind of frame it is and whatever the state holds.
  pub rx_total :
      (radiotap : Radiotap) (s : NanState)
      → LengthIsSmall radiotap
      → IsValid r.frame
      → AreOctets r.frame.bytes
      → r.frame.end < r.frame.position + fuel
      → rx radiotap fuel r s ≢ none
  unfolding rx parse_radiotap_header
  rx_total radiotap s l v o f =
      let w = Within-read_radiotap_fields radiotap r.frame r.known _ v l in
      let w' = Within-parse_fcs radiotap _ _ w.valid in
      let (radio_result, (rssi, flags), frame1) = parse_radiotap_header radiotap r.frame r.known in
      let (fcs_result, frame2) = parse_fcs radiotap frame1 flags in
      let found = rx_header_total rssi frame2 s (part-Enough (v, o, f) (Within-compose w w')) in
      if_total (ltb_ℤ radio_result (pos 0)) _ _ (refuse_total _ s)
        (if_total (ltb_ℤ fcs_result (pos 0)) _ _ (refuse_total _ s) found)
