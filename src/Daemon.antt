-- ===== src/Daemon.antt =====
-- The timer handlers of daemon/core.c: what is sent, and when they run again. `wlan_send` is
-- recorded: its return value is only logged. The event loop calls the handlers with the present
-- time.
use opennan.Prelude.{
  ℕ, zero, suc, ◌+◌, Bool, true, false, not, ◌||◌, Option, none, some, List, [], ◌∷◌, ◌++◌, ltb,
  ◌==◌, if◌then◌else◌,
}
use opennan.Prelude.Int.{ℤ, pos, negsuc, ltb_ℤ}
use opennan.Utils.{EtherAddr}
use opennan.LinkedList.{list_init, list_len, list_find}
use opennan.CircularBuffer
use opennan.Wire.{Buf}
use opennan.Wire.Defs.{slice, buf_new_owned, buf_new_const, buf_error, buf_position}
use opennan.Timer
use opennan.Peer.{Callback}
use opennan.Peer.Defs as Peers
use opennan.Peer.Defs.{Cleaned, cleaned, null_callback, unfinished}
use opennan.Sync.Defs.{master_election, check_anchor_master_expiration}
use opennan.Service.Defs.{
  Service, ServiceState, get_services_to_announce, update_announced_services,
}
use opennan.Ieee80211.{Radiotap}
use opennan.State.{NanState}
use opennan.Rx.Beacon.{BeaconType, discovery_beacon, sync_beacon}
use opennan.Rx.Frame.{Reception, Received, rx}
use opennan.Tx.Attributes.{can_send_discovery_beacon}
use opennan.Tx.Frames.{build_beacon_frame, build_service_discovery_frame}
pub mod Host
pub mod HostFrames
pub mod Startup
pub mod Channels
pub mod Frames
pub mod Windows
pub mod Runs
pub mod Sending
pub mod Invariant
pub mod PeerTable
mod Tests

-- `struct daemon_state`, without the handles of the system: the buffer at each address, which the
-- circular buffer points to, and the frames that were sent, oldest first.
pub record Daemon : Type 0 where
  pub nan_state : NanState
  pub heap : ℕ → Buf
  pub sent : List (List ℕ)

-- `wlan_send` of what a buffer holds.
abbrev pub wlan_send : Daemon → Buf → Daemon
wlan_send d b = record d { sent = d.sent ++ slice b.bytes b.start (buf_position b) ∷ [] }

-- BUF_MAX_LENGTH
abbrev pub buf_max_length : ℕ
buf_max_length = 65535

abbrev pub nan_network_id : EtherAddr
nan_network_id = record {
  octet0 = 0x51;
  octet1 = 0x6f;
  octet2 = 0x9a;
  octet3 = 0x01;
  octet4 = 0x00;
  octet5 = 0x00;
}

-- `memory` is the block of the new buffer.
unfoldable pub send_beacon : Radiotap → List ℕ → Daemon → BeaconType → ℕ → Daemon
unfolding build_beacon_frame buf_new_owned buf_error buf_position
send_beacon r memory d type now =
    let (b, nan_state) =
      build_beacon_frame r (buf_new_owned memory buf_max_length) d.nan_state type now in
    let d' = record d { nan_state = nan_state } in
    if ltb_ℤ (buf_error b) (pos 0) then d' else wlan_send d' b

-- The state, and in how many microseconds the handler runs again.
unfoldable pub send_discovery_beacon : Radiotap → List ℕ → Daemon → ℕ → Daemon × ℕ
unfolding can_send_discovery_beacon send_beacon Timer.set_last_discovery_beacon_usec
    Timer.next_discovery_beacon_usec
send_discovery_beacon r memory d now =
    let sent = send_beacon r memory d discovery_beacon now in
    let stamped = record sent {
      nan_state = record sent.nan_state {
        timer = Timer.set_last_discovery_beacon_usec sent.nan_state.timer now;
      };
    } in
    let d' = if can_send_discovery_beacon d.nan_state now then stamped else d in
    (d', Timer.next_discovery_beacon_usec d'.nan_state.timer now)

abbrev pub is_minus_one : ℤ → Bool
is_minus_one (pos n) = false
is_minus_one (negsuc n) = n == 0

-- The loop on fuel; `buf` is the pointer that the round before left. `none` is the end of the fuel.
unfoldable pub send_buffered_frames : ℕ → Daemon → ℕ → Option Daemon
unfolding CircularBuffer.get buf_position
send_buffered_frames zero d buf = none
send_buffered_frames (suc fuel) d buf =
    let (status, buf', buffer) = CircularBuffer.get d.nan_state.buffer buf false in
    let d' = record d { nan_state = record d.nan_state { buffer = buffer } } in
    let rest = send_buffered_frames fuel (wlan_send d' (d.heap buf')) buf' in
    if is_minus_one status then some d' else rest

-- The services that a list of pointers stands for.
abbrev pub service_at : ServiceState → ℕ → List Service
service_at s ref =
    elim (list_find (λ x. x.ref == ref) (s.published_services ++ s.subscribed_services)) [
      | none ↦ []
      | some x ↦ x ∷ []
    ]

abbrev pub services_at : ServiceState → List ℕ → List Service
services_at s [] = []
services_at s (ref ∷ refs) = service_at s ref ++ services_at s refs

unfoldable pub send_service_discovery_frame : Radiotap → List ℕ → Daemon → Daemon
unfolding get_services_to_announce list_init list_len list_find build_service_discovery_frame
    buf_new_owned update_announced_services buf_position
send_service_discovery_frame r memory d =
    let announced = get_services_to_announce d.nan_state.services list_init in
    let (b, nan_state) =
      build_service_discovery_frame r (buf_new_owned memory buf_max_length) d.nan_state
        nan_network_id (services_at d.nan_state.services announced) in
    let sent = wlan_send (record d { nan_state = nan_state }) b in
    if ltb 0 (list_len announced)
    then record sent {
      nan_state = record nan_state {
        services = update_announced_services nan_state.services announced;
      };
    }
    else d

-- What the handler of a discovery window leaves: the state, in how many microseconds it runs again,
-- and in how many the handler of its end runs, if that is scheduled.
pub record Handled : Type 0 where
  pub daemon : Daemon
  pub again : ℕ
  pub window_end : Option ℕ

-- Whether the handler goes on: in a window, after the initial scan.
abbrev pub is_window : NanState → ℕ → Bool
is_window s now = not (not (Timer.in_dw s.timer now) || not (Timer.initial_scan_done s.timer now))

-- After the three kinds of frames were sent; `later` is the time then.
abbrev pub schedule : ℕ → Option Daemon → Option Handled
schedule later none = none
schedule later (some d) = some (record {
  daemon = d;
  again = Timer.next_dw_usec d.nan_state.timer later;
  window_end = some (Timer.dw_end_usec d.nan_state.timer later);
})

abbrev pub then_discover : Radiotap → List ℕ → Option Daemon → Option Daemon
then_discover r memory none = none
then_discover r memory (some d) = some (send_service_discovery_frame r memory d)

-- The blocks of the two new buffers, and the clock when the handler starts and later.
unfoldable pub handle_discovery_window :
    Radiotap → ℕ → List ℕ → List ℕ → Daemon → ℕ → ℕ → Option Handled
unfolding send_beacon send_buffered_frames send_service_discovery_frame Timer.in_dw
    Timer.initial_scan_done Timer.next_dw_usec Timer.dw_end_usec
handle_discovery_window r fuel beacon_memory discovery_memory d now later =
    let beaconed = send_beacon r beacon_memory d sync_beacon now in
    let buffered = send_buffered_frames fuel beaconed 0 in
    let done = schedule later (then_discover r discovery_memory buffered) in
    if is_window d.nan_state now
    then done
    else some
        (record { daemon = d; again = Timer.next_dw_usec d.nan_state.timer now; window_end = none })

unfoldable pub handle_discovery_window_end : Daemon → ℕ → Daemon
unfolding master_election check_anchor_master_expiration
handle_discovery_window_end d now =
    let elected = master_election d.nan_state.sync d.nan_state.peers.peers now in
    record d { nan_state = record d.nan_state { sync = check_anchor_master_expiration elected } }

-- The calls of the callback, in order; `none` is a call of NULL or the end of the fuel.
unfoldable pub clean_peers : ℕ → Daemon → ℕ → Option (List Callback × Daemon)
unfolding Peers.clean
clean_peers fuel d now =
    elim (Peers.clean fuel d.nan_state.peers now) as (λ o. Option (List Callback × Daemon)) [
      | cleaned calls peers ↦
          some (calls, record d { nan_state = record d.nan_state { peers = peers } })
      | null_callback ↦ none
      | unfinished ↦ none
    ]

-- `nan_receive_frame`: a frame of `length` octets. What is logged or dumped does not come back.
unfoldable pub receive_frame : Radiotap → ℕ → Reception → List ℕ → ℕ → Daemon → Received
unfolding buf_new_const rx
receive_frame radiotap fuel r bytes length d =
    rx radiotap fuel (record r { frame = buf_new_const bytes length }) d.nan_state
