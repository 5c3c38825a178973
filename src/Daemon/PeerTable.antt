-- ===== src/Daemon/PeerTable.antt =====
-- The table of peers, whatever the handlers of the daemon do to it and in whatever order.
use opennan.Prelude.{ℕ, ◌≡◌, sym, subst, Option, some, none, List}
use opennan.Prelude.Int.{ℤ}
use opennan.Utils.{EtherAddr}
use opennan.Wire.Defs.{buf_new_const}
use opennan.Peer.{Peer, Callback}
use opennan.Sync.Invariant.{IsSound}
use opennan.State.{NanState, init_nan_state}
use opennan.Rx.Frame.{Reception}
use opennan.Rx.Keeps.{After}
use opennan.Rx.Table.{HasTable, IsFresh, rx-HasTable}
use opennan.Peer.Lookup.{IsTable}
use opennan.Peer.Defs.{Cleaned, cleaned, null_callback, unfinished, clean}
use opennan.Peer.Removal.{IsTable-list_remove, TableAfter, clean-TableAfter}
use opennan.Cmd.Soundness.{
  SoundLine, stdin_ready-SoundLine, handle_event_receive-Same, handle_event_discovery_result-Same,
}
use opennan.Daemon.{Daemon, handle_discovery_window_end, clean_peers, receive_frame}
use opennan.Cmd.Soundness.{Same}
use opennan.Daemon.Startup.{Environment, started_state}
use opennan.Daemon.Runs.{
  Run, discovery_beacon_sent, window, window_end, cleaned_up, received, command, discovered,
  replied, Reach, start, next,
}
use opennan.Daemon.Invariant.{reach_daemon-IsSound}
use opennan.Daemon.Sending.{
  AfterHandled, handle_discovery_window-AfterHandled, send_discovery_beacon-After,
}

-- A block for a peer that arrives with a frame is none of those that peers have.
abbrev pub HasFreshBlock : {d d' : Daemon} → Run d d' → Type 0
HasFreshBlock {d} (received radiotap fuel r bytes length result calls events s e) =
    IsFresh r.block d.nan_state.peers.peers
HasFreshBlock _ = Unit {0}

-- The states that the daemon gets into if `malloc` never returns a block that a peer has.
pub data ReachFresh (address : EtherAddr) : Daemon → Type 0 where
  begin :
      (e : Environment) (channel : ℤ) (d : Daemon)
      → d.nan_state ≡ started_state e address channel
      → ReachFresh address d
  further :
      {d d' : Daemon}
      → ReachFresh address d
      → (run : Run d d') → HasFreshBlock run
      → ReachFresh address d'

Same-table : (s s' : NanState) → Same s s' → HasTable s → HasTable s'
Same-table s s' e h = subst (λ x. IsTable x.peers) (sym e.1) h

abbrev TableCleaned : Option (List Callback × Daemon) → Type 0
TableCleaned none = Unit {0}
TableCleaned (some (calls, d)) = HasTable d.nan_state

clean_peers-TableCleaned :
    (fuel : ℕ) (d : Daemon) (now : ℕ) → HasTable d.nan_state → TableCleaned (clean_peers fuel d now)
unfolding clean_peers
clean_peers-TableCleaned fuel d now h =
    by_outcome (clean fuel d.nan_state.peers now) (clean-TableAfter fuel d.nan_state.peers now h)
  where
    by_outcome :
        (x : Cleaned)
        → TableAfter x
        → TableCleaned (elim x as (λ o. Option (List Callback × Daemon)) [
          | cleaned calls peers ↦
              some (calls, record d { nan_state = record d.nan_state { peers = peers } })
          | null_callback ↦ none
          | unfinished ↦ none
        ])
    by_outcome (cleaned calls s) t = t
    by_outcome null_callback t = tt
    by_outcome unfinished t = tt

Run-HasTable :
    {d d' : Daemon}
    → (run : Run d d') → HasFreshBlock run
    → IsSound d.nan_state.sync
    → HasTable d.nan_state
    → HasTable d'.nan_state
unfolding handle_discovery_window_end receive_frame
Run-HasTable {d} (discovery_beacon_sent r memory now) f sound h =
    send_discovery_beacon-After HasTable Same-table r memory d now h
Run-HasTable {d} (window r fuel m1 m2 now later x e) f sound h =
    subst (AfterHandled HasTable Same-table) e
      (handle_discovery_window-AfterHandled HasTable Same-table r fuel m1 m2 d now later h)
Run-HasTable {d} (window_end now) f sound h = h
Run-HasTable {d} (cleaned_up fuel now calls d' e) f sound h =
    subst TableCleaned e (clean_peers-TableCleaned fuel d now h)
Run-HasTable {d} (received radiotap fuel r bytes length result calls events s e) f sound h =
    let r' : Reception = record r { frame = buf_new_const bytes length } in
    subst (After HasTable) e (rx-HasTable fuel r' radiotap d.nan_state h f)
Run-HasTable {d} (command c last_cmd buf output t e) f sound h =
    (subst (SoundLine IsTable) e (
      stdin_ready-SoundLine IsTable IsTable-list_remove c
        (record { nan_state = d.nan_state; last_cmd = last_cmd }) (sound, h) buf)).1
Run-HasTable {d} (discovered c r memory ref event) f sound h =
    subst (λ x. IsTable x.peers)
      (sym (handle_event_discovery_result-Same c r memory ref d.nan_state event).1) h
Run-HasTable {d} (replied c event) f sound h =
    subst (λ x. IsTable x.peers) (sym (handle_event_receive-Same c d.nan_state event).1) h

without_blocks : {address : EtherAddr} {d : Daemon} → ReachFresh address d → Reach address d
without_blocks (begin e channel d h) = start e channel d h
without_blocks (further r run f) = next (without_blocks r) run

-- Whatever frames a device receives, whatever commands are typed, and in whatever order its timers
-- and the listeners of its terminal run, from the state that `nan_init` leaves on, with its
-- callbacks for peers: if `malloc` returns no block that a peer still has, no address and no block
-- stands twice among the peers.
pub ReachFresh-HasTable :
    {address : EtherAddr} {d : Daemon} → ReachFresh address d → HasTable d.nan_state
unfolding init_nan_state opennan.Peer.Defs.init opennan.Peer.Defs.set_callbacks
ReachFresh-HasTable (begin e channel d h) = subst HasTable (sym h) tt
ReachFresh-HasTable (further r run f) =
    Run-HasTable run f (reach_daemon-IsSound (without_blocks r)) (ReachFresh-HasTable r)
