-- ===== src/Daemon/Sending.antt =====
-- The handlers of the daemon that send frames keep what depends on the synchronisation and the
-- peers.
use opennan.Prelude.{
  ℕ, zero, suc, refl, ap, Bool, true, false, Option, some, none, List, if◌then◌else◌,
}
use opennan.CircularBuffer
use opennan.Ieee80211.{Radiotap}
use opennan.State.{NanState}
use opennan.Rx.Beacon.{BeaconType, discovery_beacon, sync_beacon}
use opennan.Tx.Attributes.{can_send_discovery_beacon}
use opennan.Daemon.{
  Daemon, Handled, send_beacon, send_discovery_beacon, send_buffered_frames, schedule,
  then_discover, handle_discovery_window, is_window, is_minus_one, wlan_send,
}
use opennan.Daemon.Windows.{send_beacon_keeps, send_service_discovery_frame_core}
use opennan.Cmd.Soundness.{Same}

module _ (P : NanState → Type 0) (sent : (s s' : NanState) → Same s s' → P s → P s') where
  abbrev pub AfterDaemon : Option Daemon → Type 0
  AfterDaemon none = Unit {0}
  AfterDaemon (some d) = P d.nan_state

  abbrev pub AfterHandled : Option Handled → Type 0
  AfterHandled none = Unit {0}
  AfterHandled (some h) = P h.daemon.nan_state

  either_daemon :
      (c : Bool) (d : Daemon) (o : Option Daemon)
      → P d.nan_state
      → AfterDaemon o
      → AfterDaemon (if c then some d else o)
  either_daemon true d o h k = h
  either_daemon false d o h k = k

  send_buffered_frames-AfterDaemon :
      (fuel : ℕ) (d : Daemon) (buf : ℕ)
      → P d.nan_state
      → AfterDaemon (send_buffered_frames fuel d buf)
  unfolding send_buffered_frames
  send_buffered_frames-AfterDaemon zero d buf h = tt
  send_buffered_frames-AfterDaemon (suc fuel) d buf h =
      let (status, buf', buffer) = CircularBuffer.get d.nan_state.buffer buf false in
      let d' : Daemon = record d { nan_state = record d.nan_state { buffer = buffer } } in
      either_daemon (is_minus_one status) d' _ (sent _ _ (refl, refl) h) (
        send_buffered_frames-AfterDaemon fuel (wlan_send d' (d.heap buf')) buf'
          (sent _ _ (refl, refl) h))

  schedule-AfterHandled :
      (r : Radiotap) (memory : List ℕ) (later : ℕ) (o : Option Daemon)
      → AfterDaemon o
      → AfterHandled (schedule later (then_discover r memory o))
  schedule-AfterHandled r memory later none h = tt
  schedule-AfterHandled r memory later (some d) h =
      let core = send_service_discovery_frame_core r memory d in
      sent _ _ (core.same_sync, core.same_peers) h

  either_handled :
      (c : Bool) (o : Option Handled) (x : Handled)
      → AfterHandled o
      → P x.daemon.nan_state
      → AfterHandled (if c then o else some x)
  either_handled true o x h k = h
  either_handled false o x h k = k

  send_beacon-After :
      (r : Radiotap) (memory : List ℕ) (d : Daemon) (type : BeaconType) (now : ℕ)
      → P d.nan_state
      → P (send_beacon r memory d type now).nan_state
  send_beacon-After r memory d type now h =
      let keeps = send_beacon_keeps r memory d type now in
      sent _ _ (ap (λ x. x.sync) keeps, ap (λ x. x.peers) keeps) h

  pub handle_discovery_window-AfterHandled :
      (r : Radiotap) (fuel : ℕ) (m1 m2 : List ℕ) (d : Daemon) (now later : ℕ)
      → P d.nan_state
      → AfterHandled (handle_discovery_window r fuel m1 m2 d now later)
  unfolding handle_discovery_window
  handle_discovery_window-AfterHandled r fuel m1 m2 d now later h =
      either_handled (is_window d.nan_state now) _ _
        (schedule-AfterHandled r m2 later _
          (send_buffered_frames-AfterDaemon fuel _ 0 (send_beacon-After r m1 d sync_beacon now h)))
        h

  either_after :
      (c : Bool) (x y : Daemon) → P x.nan_state → P y.nan_state → P (if c then x else y).nan_state
  either_after true x y h k = h
  either_after false x y h k = k

  pub send_discovery_beacon-After :
      (r : Radiotap) (memory : List ℕ) (d : Daemon) (now : ℕ)
      → P d.nan_state
      → P (send_discovery_beacon r memory d now).0.nan_state
  unfolding send_discovery_beacon
  send_discovery_beacon-After r memory d now h =
      either_after (can_send_discovery_beacon d.nan_state now) _ d
        (sent _ _ (refl, refl) (send_beacon-After r memory d discovery_beacon now h)) h
