-- ===== src/Daemon/Invariant.antt =====
-- What no handler of the daemon breaks, in any order of their runs.
use opennan.Prelude.{ℕ, ◌≡◌, sym, subst, some, List, arith}
use opennan.Utils.{EtherAddr}
use opennan.Wire.Defs.{buf_new_const}
use opennan.Peer.{Peer, Callback}
use opennan.Sync.Defs.{init, master_election}
use opennan.Sync.Invariant.{IsSound, Step, Step-IsSound}
use opennan.State.{NanState, init_nan_state}
use opennan.Rx.Frame.{Reception}
use opennan.Rx.Keeps.{After}
use opennan.Rx.Soundness.{SoundSync, rx-SoundSync}
use opennan.Cmd.Soundness.{
  SoundLine, stdin_ready-SoundLine, handle_event_receive-Same, handle_event_discovery_result-Same,
}
use opennan.Daemon.{Daemon, handle_discovery_window_end, clean_peers, receive_frame}
use opennan.Cmd.Soundness.{Same}
use opennan.Daemon.Runs.{
  Run, discovery_beacon_sent, window, window_end, cleaned_up, received, command, discovered,
  replied, Reach, start, next,
}
use opennan.Daemon.Sending.{
  AfterHandled, handle_discovery_window-AfterHandled, send_discovery_beacon-After,
}

Same-sync : (s s' : NanState) → Same s s' → SoundSync s → SoundSync s'
Same-sync s s' e h = subst IsSound (sym e.0) h

abbrev Anything : List Peer → Type 0
Anything xs = Unit {0}

clean_peers-Same-sync :
    (fuel : ℕ) (d : Daemon) (now : ℕ) (calls : List Callback) (d' : Daemon)
    → clean_peers fuel d now ≡ some (calls, d')
    → d'.nan_state.sync ≡ d.nan_state.sync
unfolding clean_peers
clean_peers-Same-sync fuel d now calls d' e = ground (arith, e)

Run-IsSound : {d d' : Daemon} → Run d d' → IsSound d.nan_state.sync → IsSound d'.nan_state.sync
unfolding handle_discovery_window_end receive_frame
Run-IsSound {d} (discovery_beacon_sent r memory now) h =
    send_discovery_beacon-After SoundSync Same-sync r memory d now h
Run-IsSound {d} (window r fuel m1 m2 now later x e) h =
    subst (AfterHandled SoundSync Same-sync) e
      (handle_discovery_window-AfterHandled SoundSync Same-sync r fuel m1 m2 d now later h)
Run-IsSound {d} (window_end now) h =
    Step-IsSound {s = master_election d.nan_state.sync d.nan_state.peers.peers now} Step.window_end
      (Step-IsSound {s = d.nan_state.sync} (Step.election d.nan_state.peers.peers now) h)
Run-IsSound {d} (cleaned_up fuel now calls d' e) h =
    subst IsSound (sym (clean_peers-Same-sync fuel d now calls d' e)) h
Run-IsSound {d} (received radiotap fuel r bytes length result calls events s e) h =
    let r' : Reception = record r { frame = buf_new_const bytes length } in
    subst (After SoundSync) e (rx-SoundSync fuel r' radiotap d.nan_state h)
Run-IsSound {d} (command c last_cmd buf output t e) h =
    (subst (SoundLine Anything) e (
      stdin_ready-SoundLine Anything (λ c xs t. t) c
        (record { nan_state = d.nan_state; last_cmd = last_cmd }) (h, tt) buf)).0
Run-IsSound {d} (discovered c r memory ref event) h =
    subst IsSound (sym (handle_event_discovery_result-Same c r memory ref d.nan_state event).0) h
Run-IsSound {d} (replied c event) h =
    subst IsSound (sym (handle_event_receive-Same c d.nan_state event).0) h

-- Whatever frames a device receives, whatever commands are typed, and in whatever order its timers
-- and the listeners of its terminal run, from the state that `nan_init` leaves on, with its
-- callbacks for peers: our own master rank never rises above the rank of the anchor master that we
-- follow.
pub reach_daemon-IsSound :
    {address : EtherAddr} {d : Daemon} → Reach address d → IsSound d.nan_state.sync
unfolding init_nan_state init
reach_daemon-IsSound (start e channel d h) = subst (λ x. IsSound x.sync) (sym h) (omega arith)
reach_daemon-IsSound (next r run) = Run-IsSound run (reach_daemon-IsSound r)
