-- ===== src/Daemon/Tests.antt =====
-- A daemon with two frames that wait, and the theorems at it.
use opennan.Prelude.{
  length, Option, ℕ, none, ◌≡◌, ◌≢◌, List, bit_and, ◌==◌, length-replicate, refl, true, false, some,
  [], ◌∷◌, replicate, arith,
}
use opennan.Prelude.Int.{ℤ, pos}
use opennan.Utils.{EtherAddr}
use opennan.CircularBuffer.{CircularBuf, size}
use opennan.CircularBuffer.Inv.{IsValid}
use opennan.CircularBuffer.Items.{contents}
use opennan.Timer
use opennan.Wire.{Buf}
use opennan.Sync.Invariant.{IsSound}
use opennan.Ieee80211.Sample.{radiotap}
use opennan.State.{NanState, init_nan_state}
use opennan.Daemon.{
  Daemon, Handled, send_buffered_frames, handle_discovery_window, handle_discovery_window_end,
  is_window, receive_frame, clean_peers,
}
use opennan.Peer.Defs.{get, set_callbacks, set_beacon_information, is_stale, same, remove}
use opennan.Rx.Defs.{beacon_attribute}
use opennan.Timer.{time_difference_dw}
use opennan.Sync.Defs.{
  update_master_preference, redraw, check_master_candidate, calculate_master_rank,
}
use opennan.Cmd.Text.{codes}
use opennan.Io.{IoState, host_send}
use opennan.Io.Sample.{system, blank}
use opennan.Daemon.Host.{host_device_ready, address_of, multicast, to_self}
use opennan.Daemon.HostFrames.{by_peer, host_device_ready_lem}
use opennan.Daemon.Startup.{Environment, started_state, channel, run}
use opennan.Daemon.Channels.{run-same}
use opennan.Daemon.Frames.{SentAll, send_buffered_frames_lem}
use opennan.Daemon.Windows.{WindowDone, handle_discovery_window_lem}
use opennan.Daemon.Invariant.{reach_daemon-IsSound}
use opennan.Daemon.Runs.{Reach, Run}
use opennan.Daemon.PeerTable.{ReachFresh, ReachFresh-HasTable}
use opennan.Event.{Call}
use opennan.Peer.{Callback}
use opennan.Wire.Defs.{buf_new_const, decode_le, too_short}
use opennan.Rx.Entry.{rx_total}
use opennan.Rx.Frame.{Received}
use opennan.Rx.Sample.{reception, whole_frame, whole_frame-AreOctets}
use opennan.Rx.Table.{HasTable}

abbrev addr : EtherAddr
addr = record { octet0 = 2; octet1 = 0; octet2 = 0; octet3 = 0; octet4 = 0; octet5 = 3 }

abbrev environment : Environment
environment = record {
  storage = replicate 16 0;
  cluster = record { cluster_id = addr; cluster_grade = 0 };
  draw4 = 1;
  draw5 = 2;
  gethostname = pos 0;
  hostname = [];
  now = 1000000;
  neighbor_add = 500;
  neighbor_remove = 501;
  io_state = 600;
}

abbrev initial : NanState
initial = started_state environment addr (pos 6)

-- The frames at the addresses 1 and 2.
abbrev ring : CircularBuf
ring = record { buffer = 1 ∷ 2 ∷ 0 ∷ []; head = 2; tail = 0; capacity = 3; full = false }

abbrev heap : ℕ → Buf
heap ref = record {
  bytes = ref ∷ 7 ∷ 8 ∷ [];
  position = 2;
  start = 0;
  end = 3;
  size = 3;
  owned = true;
  error = pos 0;
}

abbrev first : Daemon
first = record { nan_state = initial; heap = heap; sent = [] }

abbrev waiting : Daemon
waiting = record { nan_state = record initial { buffer = ring }; heap = heap; sent = [] }

ring-IsValid : IsValid ring
ring-IsValid = ground arith

-- Both are sent, in order.
both_sent :
    send_buffered_frames 3 waiting 0
    ≡ some (record waiting {
      nan_state = record initial { buffer = record ring { tail = 2 } };
      sent = (1 ∷ 7 ∷ []) ∷ (2 ∷ 7 ∷ []) ∷ [];
    })
unfolding send_buffered_frames
both_sent = refl

send_buffered_frames_lem_example :
    (d' : Daemon) × (send_buffered_frames 3 waiting 0 ≡ some d')
    × SentAll waiting d' (contents ring)
unfolding size
send_buffered_frames_lem_example = send_buffered_frames_lem 3 waiting 0 ring-IsValid (omega arith)

-- 200 seconds after the start, in the sixth time unit of a window.
in_window : is_window waiting.nan_state 200758848 ≡ true
unfolding init_nan_state Timer.in_dw Timer.initial_scan_done Timer.init
in_window = refl

handle_discovery_window_lem_example :
    (h : Handled) × (handle_discovery_window radiotap 3 [] [] waiting 200758848 200758848 ≡ some h)
    × (is_window waiting.nan_state 200758848 ≡ true → WindowDone radiotap [] [] 200758848 waiting h)
    × (is_window waiting.nan_state 200758848 ≡ false → h.daemon ≡ waiting)
unfolding size
handle_discovery_window_lem_example =
    handle_discovery_window_lem radiotap 3 [] [] waiting 200758848 200758848 ring-IsValid
      (omega arith)

reach_daemon-IsSound_example : IsSound (handle_discovery_window_end first 2000000).nan_state.sync
reach_daemon-IsSound_example =
    reach_daemon-IsSound {address = addr} {d = handle_discovery_window_end first 2000000}
      (Reach.next (Reach.start environment (pos 6) first refl) (Run.window_end 2000000))

-- What a call that returns has returned.
abbrev parts : Received → ℤ × List Callback × List Call × NanState
parts none = (pos 0, [], [], initial)
parts (some x) = x

is_parts : (o : Received) → o ≢ none → o ≡ some (parts o)
is_parts none h = absurd (h refl)
is_parts (some x) h = refl

-- After a beacon of another device.
abbrev beacon_received : Received
beacon_received = receive_frame radiotap 72 reception whole_frame 71 first

abbrev with_peer : Daemon
with_peer = record first { nan_state = (parts beacon_received).3 }

beacon_returns : beacon_received ≢ none
unfolding receive_frame buf_new_const
beacon_returns =
    rx_total 72 (record reception { frame = buf_new_const whole_frame 71 }) (omega arith) radiotap
      initial (λ xs. omega arith)
      (record { inside = omega arith; within = omega arith; small = omega arith })
      whole_frame-AreOctets (omega arith)

with_peer-ReachFresh : ReachFresh addr with_peer
unfolding init_nan_state set_callbacks
with_peer-ReachFresh =
    ReachFresh.further (ReachFresh.begin environment (pos 6) first refl)
      (Run.received radiotap 72 reception whole_frame 71 (parts beacon_received).0
        (parts beacon_received).1 (parts beacon_received).2 (parts beacon_received).3
        (is_parts beacon_received beacon_returns))
      tt

-- Long after the beacon the peer is outdated: it is removed, and the callback is called for it.
abbrev cleaning : Option (List Callback × Daemon)
cleaning = clean_peers 2 with_peer 20000000

abbrev calls_of : Option (List Callback × Daemon) → List Callback
calls_of none = []
calls_of (some (calls, d)) = calls

abbrev daemon_of : Option (List Callback × Daemon) → Daemon
daemon_of none = first
daemon_of (some (calls, d)) = d

one_call : length (calls_of cleaning) ≡ 1
unfolding receive_frame buf_new_const init_nan_state set_callbacks clean_peers decode_le too_short
    beacon_attribute update_master_preference set_beacon_information time_difference_dw redraw
    check_master_candidate calculate_master_rank is_stale same remove
one_call = refl

cleaning_parts :
    (o : Option (List Callback × Daemon))
    → length (calls_of o) ≡ 1
    → o ≡ some (calls_of o, daemon_of o)
cleaning_parts none h = absurd (ground (arith, h))
cleaning_parts (some (calls, d)) h = refl

ReachFresh-HasTable_example : HasTable (daemon_of cleaning).nan_state
ReachFresh-HasTable_example = ReachFresh-HasTable {address = addr} {d = daemon_of cleaning} (
    ReachFresh.further with_peer-ReachFresh
      (Run.cleaned_up 2 20000000 (calls_of cleaning) (daemon_of cleaning)
        (cleaning_parts cleaning one_call))
      tt)

-- A frame of the host device for our own address, and one for another.
abbrev open_io : IoState
open_io = record blank { host_fd = pos 5 }

abbrev own_frame : List ℕ
own_frame = 2 ∷ 0 ∷ 0 ∷ 0 ∷ 0 ∷ 3 ∷ 9 ∷ []

host_device_ready_lem_example :
    let a = address_of own_frame in
    let result =
      host_device_ready (replicate 1518 0) [] (pos 7, own_frame) (λ xs. pos 7) open_io initial in
    ((bit_and a.octet0 1 == 1) ≡ true → result ≡ multicast)
    × ((bit_and a.octet0 1 == 1) ≡ false
        → initial.self_address ≡ a
        → result ≡ to_self (host_send (λ xs. pos 7) open_io own_frame))
    × ((bit_and a.octet0 1 == 1) ≡ false
        → initial.self_address ≢ a
        → result ≡ by_peer (get initial.peers.peers a).1)
host_device_ready_lem_example =
    host_device_ready_lem (replicate 1518 0) [] own_frame (λ xs. pos 7) open_io initial refl
      (omega arith) (omega arith) (omega (arith, length-replicate {A = ℕ} 1518 0))

run-same_example :
    run system environment true blank (channel (codes "44") ∷ []) (codes "wlan0" ∷ [])
    ≡ run system environment false blank (channel (codes "44") ∷ []) (codes "wlan0" ∷ [])
run-same_example =
    run-same system environment blank (channel (codes "44") ∷ []) (codes "wlan0" ∷ [])
