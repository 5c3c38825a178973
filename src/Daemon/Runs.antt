-- ===== src/Daemon/Runs.antt =====
-- The runs of the daemon's handlers, in any order.
use opennan.Prelude.{ℕ, ◌≡◌, Option, some, List}
use opennan.Prelude.Int.{ℤ}
use opennan.Utils.{EtherAddr}
use opennan.Peer.{Callback}
use opennan.Event.{Call, DiscoveryResult, Receive}
use opennan.Ieee80211.{Radiotap}
use opennan.State.{NanState}
use opennan.Rx.Frame.{Reception}
use opennan.Cmd.Defs.{Context, Output}
use opennan.Cmd.Terminal.{
  Terminal, handled, stdin_ready, handle_event_receive, handle_event_discovery_result,
}
use opennan.Daemon.Startup.{Environment, started_state}
use opennan.Daemon.{
  Daemon, Handled, send_discovery_beacon, handle_discovery_window, handle_discovery_window_end,
  clean_peers, receive_frame,
}

-- One run of a handler.
pub data Run (d : Daemon) : Daemon → Type 0 where
  discovery_beacon_sent :
      (r : Radiotap) (memory : List ℕ) (now : ℕ) → Run d (send_discovery_beacon r memory d now).0
  window :
      (r : Radiotap) (fuel : ℕ) (m1 m2 : List ℕ) (now later : ℕ) (h : Handled)
      → handle_discovery_window r fuel m1 m2 d now later ≡ some h
      → Run d h.daemon
  window_end : (now : ℕ) → Run d (handle_discovery_window_end d now)
  cleaned_up :
      (fuel now : ℕ) (calls : List Callback) (d' : Daemon)
      → clean_peers fuel d now ≡ some (calls, d')
      → Run d d'
  received :
      (radiotap : Radiotap) (fuel : ℕ) (r : Reception) (bytes : List ℕ) (length : ℕ) (result : ℤ)
      (calls : List Callback) (events : List Call) (s : NanState)
      → receive_frame radiotap fuel r bytes length d ≡ some (result, calls, events, s)
      → Run d (record d { nan_state = s })
  command :
      (c : Context) (last_cmd : Option (List ℕ)) (buf : List ℕ) (output : Output) (t : Terminal)
      → stdin_ready c (record { nan_state = d.nan_state; last_cmd = last_cmd }) buf
        ≡ some (handled output t)
      → Run d (record d { nan_state = t.nan_state })
  discovered :
      (c : Context) (r : Radiotap) (memory : List ℕ) (ref : ℕ) (event : DiscoveryResult)
      → Run d (record d {
        nan_state = (handle_event_discovery_result c r memory ref d.nan_state event).0;
      })
  replied :
      (c : Context) (event : Receive)
      → Run d (record d { nan_state = handle_event_receive c d.nan_state event })

-- The states that the daemon gets into from the event loop's beginning on.
pub data Reach (address : EtherAddr) : Daemon → Type 0 where
  start :
      (e : Environment) (channel : ℤ) (d : Daemon)
      → d.nan_state ≡ started_state e address channel
      → Reach address d
  next : {d d' : Daemon} → Reach address d → Run d d' → Reach address d'
