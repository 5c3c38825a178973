-- ===== src/Daemon/Windows.antt =====
-- The handlers of the daemon together, and the discovery window.
use opennan.Prelude.{
  ℕ, ◌<◌, ◌≡◌, refl, sym, subst, ap, ap₂, ◌∙◌, Bool, true, false, Option, some, List, [], ◌∷◌, ◌++◌,
  map, ltb, arith, if◌then◌else◌,
}
use mathlib.Core.List.{append-nil}
use opennan.Prelude.Int.{pos, ltb_ℤ}
use opennan.Utils.{EtherAddr}
use opennan.Wire.{Buf}
use opennan.Wire.Defs.{buf_new_owned, buf_error, slice, buf_position}
use opennan.CircularBuffer.{CircularBuf, size}
use opennan.CircularBuffer.Inv.{IsValid}
use opennan.CircularBuffer.Items.{contents}
use opennan.LinkedList.{list_init, list_len}
use opennan.Timer
use opennan.Service.Defs.{Service, get_services_to_announce}
use opennan.Ieee80211.{Radiotap, Ieee80211State}
use opennan.State.{NanState}
use opennan.Rx.Beacon.{BeaconType, sync_beacon}
use opennan.Tx.Frames.{
  build_beacon_frame, build_service_discovery_frame, add_beacon_header, add_headers,
  add_service_discovery_header,
}
use opennan.Daemon.{
  nan_network_id, services_at, schedule, then_discover, wlan_send, buf_max_length, Daemon, Handled,
  send_beacon, send_buffered_frames, send_service_discovery_frame, handle_discovery_window,
  is_window,
}
use opennan.Daemon.Frames.{payload, send_buffered_frames_lem}

-- Building a frame counts its sequence number, and changes no other part of the state.
abbrev pub WithHeader : NanState → NanState → Type 0
WithHeader s s' = s' ≡ record s { ieee80211 = s'.ieee80211 }

build_beacon_frame_keeps :
    (r : Radiotap) (b : Buf) (s : NanState) (type : BeaconType) (now : ℕ)
    → WithHeader s (build_beacon_frame r b s type now).1
unfolding build_beacon_frame add_beacon_header add_headers
build_beacon_frame_keeps r b s type now = refl

build_service_discovery_frame_keeps :
    (r : Radiotap) (b : Buf) (s : NanState) (destination : EtherAddr) (announced : List Service)
    → WithHeader s (build_service_discovery_frame r b s destination announced).1
unfolding build_service_discovery_frame add_service_discovery_header add_headers
build_service_discovery_frame_keeps r b s destination announced = refl

sent_or_not :
    (c : Bool) (d : Daemon) (b : Buf) → (if c then d else wlan_send d b).nan_state ≡ d.nan_state
sent_or_not true d b = refl
sent_or_not false d b = refl

pub send_beacon_keeps :
    (r : Radiotap) (memory : List ℕ) (d : Daemon) (type : BeaconType) (now : ℕ)
    → WithHeader d.nan_state (send_beacon r memory d type now).nan_state
unfolding send_beacon build_beacon_frame add_beacon_header add_headers
send_beacon_keeps r memory d type now =
    let built = build_beacon_frame r (buf_new_owned memory buf_max_length) d.nan_state type now in
    let d' : Daemon = record d { nan_state = built.1 } in
    let same = sent_or_not (ltb_ℤ (buf_error built.0) (pos 0)) d' built.0 in
    subst (WithHeader d.nan_state) (sym same)
      (build_beacon_frame_keeps r (buf_new_owned memory buf_max_length) d.nan_state type now)

-- What sending changes neither of.
pub record SameCore (s s' : NanState) : Type 0 where
  pub same_sync : s'.sync ≡ s.sync
  pub same_peers : s'.peers ≡ s.peers
  pub same_buffer : s'.buffer ≡ s.buffer

core_of_header : (s s' : NanState) → WithHeader s s' → SameCore s s'
core_of_header s s' e = record {
  same_sync = ap (λ x. x.sync) e;
  same_peers = ap (λ x. x.peers) e;
  same_buffer = ap (λ x. x.buffer) e;
}

either_core :
    (c : Bool) (s : NanState) (x y : Daemon)
    → SameCore s x.nan_state
    → SameCore s y.nan_state
    → SameCore s (if c then x else y).nan_state
either_core true s x y hx hy = hx
either_core false s x y hx hy = hy

pub send_service_discovery_frame_core :
    (r : Radiotap) (memory : List ℕ) (d : Daemon)
    → SameCore d.nan_state (send_service_discovery_frame r memory d).nan_state
unfolding send_service_discovery_frame build_service_discovery_frame add_service_discovery_header
    add_headers
send_service_discovery_frame_core r memory d =
    either_core (ltb 0 (list_len (get_services_to_announce d.nan_state.services list_init)))
      d.nan_state _ d (record { same_sync = refl; same_peers = refl; same_buffer = refl })
      (record { same_sync = refl; same_peers = refl; same_buffer = refl })

-- The octets that go out for a buffer.
abbrev pub octets : Buf → List ℕ
octets b = slice b.bytes b.start (buf_position b)

-- The sync beacon, if it was built without an error.
abbrev pub beacon_frames : Radiotap → List ℕ → NanState → ℕ → List (List ℕ)
beacon_frames r memory s now =
    let (b, s') = build_beacon_frame r (buf_new_owned memory buf_max_length) s sync_beacon now in
    if ltb_ℤ (buf_error b) (pos 0) then [] else octets b ∷ []

-- A service discovery frame for the network with the services that are to be announced, if there
-- are any.
abbrev pub service_frames : Radiotap → List ℕ → NanState → List (List ℕ)
service_frames r memory s =
    let announced = get_services_to_announce s.services list_init in
    let (b, s') =
      build_service_discovery_frame r (buf_new_owned memory buf_max_length) s nan_network_id
        (services_at s.services announced) in
    if ltb 0 (list_len announced) then octets b ∷ [] else []

sent_if :
    (c : Bool) (d x : Daemon) (last : List ℕ)
    → x.sent ≡ d.sent ++ last ∷ []
    → (if c then x else d).sent ≡ d.sent ++ (if c then last ∷ [] else [])
sent_if true d x last e = e
sent_if false d x last e = sym (append-nil d.sent)

sent_unless :
    (c : Bool) (d x : Daemon) (last : List ℕ)
    → x.sent ≡ d.sent ++ last ∷ []
    → (if c then d else x).sent ≡ d.sent ++ (if c then [] else last ∷ [])
sent_unless true d x last e = sym (append-nil d.sent)
sent_unless false d x last e = e

send_service_discovery_frame_sent :
    (r : Radiotap) (memory : List ℕ) (d : Daemon)
    → (send_service_discovery_frame r memory d).sent ≡ d.sent ++ service_frames r memory d.nan_state
unfolding send_service_discovery_frame
send_service_discovery_frame_sent r memory d =
    sent_if (ltb 0 (list_len (get_services_to_announce d.nan_state.services list_init))) d _ _ refl

send_beacon_sent :
    (r : Radiotap) (memory : List ℕ) (d : Daemon) (now : ℕ)
    → (send_beacon r memory d sync_beacon now).sent
      ≡ d.sent ++ beacon_frames r memory d.nan_state now
unfolding send_beacon
send_beacon_sent r memory d now =
    let built =
      build_beacon_frame r (buf_new_owned memory buf_max_length) d.nan_state sync_beacon now in
    let d' : Daemon = record d { nan_state = built.1 } in
    sent_unless (ltb_ℤ (buf_error built.0) (pos 0)) d' (wlan_send d' built.0) (octets built.0) refl

send_beacon_heap :
    (r : Radiotap) (memory : List ℕ) (d : Daemon) (type : BeaconType) (now : ℕ)
    → (send_beacon r memory d type now).heap ≡ d.heap
unfolding send_beacon
send_beacon_heap r memory d type now =
    let built = build_beacon_frame r (buf_new_owned memory buf_max_length) d.nan_state type now in
    let d' : Daemon = record d { nan_state = built.1 } in
    same_heap (ltb_ℤ (buf_error built.0) (pos 0)) d' built.0
  where
    same_heap : (c : Bool) (d : Daemon) (b : Buf) → (if c then d else wlan_send d b).heap ≡ d.heap
    same_heap true d b = refl
    same_heap false d b = refl

-- What the handler of a discovery window leaves: the sync beacon is sent first, then the frames
-- that waited, oldest first, and then the service discovery frame, for the state with an empty ring
-- and another sequence number.
pub record WindowDone (r : Radiotap) (m1 m2 : List ℕ) (now : ℕ) (d : Daemon) (h : Handled)
    : Type 0 where
  pub counter : Ieee80211State
  pub order :
      h.daemon.sent
      ≡ d.sent
        ++ beacon_frames r m1 d.nan_state now
        ++ map (payload d.heap) (contents d.nan_state.buffer)
        ++ service_frames r m2
            (record d.nan_state { ieee80211 = counter; buffer = h.daemon.nan_state.buffer })
  pub same_sync : h.daemon.nan_state.sync ≡ d.nan_state.sync
  pub valid : IsValid h.daemon.nan_state.buffer
  pub emptied : contents h.daemon.nan_state.buffer ≡ []

-- The state between the frames that waited and the service discovery frame.
emptied_state :
    (s s1 s2 : NanState) (buffer : CircularBuf)
    → WithHeader s s1
    → s2 ≡ record s1 { buffer = s2.buffer }
    → buffer ≡ s2.buffer
    → s2 ≡ record s { ieee80211 = s1.ieee80211; buffer = buffer }
emptied_state s s1 s2 buffer h k e =
    k
    ∙ ap {A = NanState} (λ x. record x { buffer = s2.buffer }) h
    ∙ ap {A = CircularBuf} (λ b. record s { ieee80211 = s1.ieee80211; buffer = b }) (sym e)

in_window :
    (r : Radiotap) (fuel : ℕ) (m1 m2 : List ℕ) (d : Daemon) (now later : ℕ)
    → IsValid d.nan_state.buffer
    → size d.nan_state.buffer < fuel
    → (h : Handled) × (schedule later
          (then_discover r m2 (send_buffered_frames fuel (send_beacon r m1 d sync_beacon now) 0))
        ≡ some h)
      × WindowDone r m1 m2 now d h
in_window r fuel m1 m2 d now later v f =
    let d1 : Daemon = send_beacon r m1 d sync_beacon now in
    let c = core_of_header d.nan_state d1.nan_state (send_beacon_keeps r m1 d sync_beacon now) in
    let (d2, found, all) =
      send_buffered_frames_lem fuel d1 0 (subst IsValid (sym c.same_buffer) v)
        (subst (λ x. size x < fuel) (sym c.same_buffer) f) in
    let d3 : Daemon = send_service_discovery_frame r m2 d2 in
    let c3 = send_service_discovery_frame_core r m2 d2 in
    let rest : d2.nan_state
        ≡ record d.nan_state { ieee80211 = d1.nan_state.ieee80211; buffer = d3.nan_state.buffer } =
      emptied_state d.nan_state d1.nan_state d2.nan_state d3.nan_state.buffer
        (send_beacon_keeps r m1 d sync_beacon now) all.same_rest c3.same_buffer in
    (
      record {
        daemon = d3;
        again = Timer.next_dw_usec d3.nan_state.timer later;
        window_end = some (Timer.dw_end_usec d3.nan_state.timer later);
      },
      ap (λ o. schedule later (then_discover r m2 o)) found,
      record {
        counter = d1.nan_state.ieee80211;
        order =
            send_service_discovery_frame_sent r m2 d2
            ∙ ap (λ x. x ++ service_frames r m2 d2.nan_state) all.sent
            ∙ ap₂
                (λ heap x.
                  d1.sent ++ map (payload heap) (contents x) ++ service_frames r m2 d2.nan_state)
                (send_beacon_heap r m1 d sync_beacon now) c.same_buffer
            ∙ ap₂
                (λ xs s.
                  xs ++ map (payload d.heap) (contents d.nan_state.buffer) ++ service_frames r m2 s)
                (send_beacon_sent r m1 d now) rest;
        same_sync = c3.same_sync ∙ all.same_sync ∙ c.same_sync;
        valid = subst IsValid (sym c3.same_buffer) all.valid;
        emptied = ap contents c3.same_buffer ∙ all.empty;
      },
    )

window_cases :
    (c : Bool) (x : Option Handled) (h0 : Handled) (r : Radiotap) (m1 m2 : List ℕ) (now : ℕ)
    (d : Daemon)
    → IsValid d.nan_state.buffer
    → h0.daemon ≡ d
    → ((h : Handled) × (x ≡ some h) × WindowDone r m1 m2 now d h)
    → (h : Handled) × ((if c then x else some h0) ≡ some h)
      × (c ≡ true → WindowDone r m1 m2 now d h)
      × (c ≡ false → h.daemon ≡ d)
window_cases true x h0 r m1 m2 now d v e (h, found, done) = (h, found, λ t. done, λ t. ground arith)
window_cases false x h0 r m1 m2 now d v e (h, found, done) = (h0, refl, λ t. ground arith, λ t. e)

-- With a valid circular buffer, and fuel for one round more than it holds frames, the handler of a
-- discovery window returns. In a window and after the initial scan it has sent, in this order: the
-- sync beacon, unless building it left an error; all frames that waited, oldest first; and one
-- service discovery frame with the services to be announced, if there are any. The circular buffer
-- is left valid and empty, and the synchronisation state as it was. At any other time it changes
-- nothing.
pub handle_discovery_window_lem :
    (r : Radiotap) (fuel : ℕ) (m1 m2 : List ℕ) (d : Daemon) (now later : ℕ)
    → IsValid d.nan_state.buffer
    → size d.nan_state.buffer < fuel
    → (h : Handled) × (handle_discovery_window r fuel m1 m2 d now later ≡ some h)
      × (is_window d.nan_state now ≡ true → WindowDone r m1 m2 now d h)
      × (is_window d.nan_state now ≡ false → h.daemon ≡ d)
unfolding handle_discovery_window
handle_discovery_window_lem r fuel m1 m2 d now later v f =
    window_cases (is_window d.nan_state now) _ _ r m1 m2 now d v refl
      (in_window r fuel m1 m2 d now later v f)
