-- ===== src/Sync/Invariant.antt =====
-- Our own master rank never exceeds the rank of the anchor master.
use opennan.Prelude.{refl, ℕ, ◌≤◌, Option, none, List, arith}
use opennan.Utils.{EtherAddr}
use opennan.Timer.{time_difference_dw}
use opennan.Peer.{Peer}
use opennan.Sync.Defs.{
  SyncState, init, master_election, anchor_master_selection, check_anchor_master_expiration,
  update_master_rank, update_master_preference, redraw, set_anchor_master_other,
  set_anchor_master_self, refresh_anchor_master,
}
use opennan.Sync.Selection.{Change, selection-Change}

abbrev pub IsSound : SyncState → Type 0
IsSound s = s.master_rank ≤ s.anchor_master_rank

-- A beacon of a peer, the end of a window, a new interface address, and a new preference.
pub data Step (s : SyncState) : SyncState → Type 0 where
  beacon : (p : Peer) (tu : ℕ) → Step s (anchor_master_selection s p tu)
  election : (peers : List Peer) (now : ℕ) → Step s (master_election s peers now)
  window_end : Step s (check_anchor_master_expiration s)
  new_address : (a : Option EtherAddr) → Step s (update_master_rank s a).1
  preference : (p : Peer) (now draw : ℕ) → Step s (update_master_preference s p now draw).1

pub data Reach (a : EtherAddr) : SyncState → Type 0 where
  start : Reach a (init a)
  next : {s t : SyncState} → Reach a s → Step s t → Reach a t

Change-IsSound : {s s' : SyncState} (p : Peer) (tu : ℕ) → Change s p tu s' → IsSound s → IsSound s'
unfolding set_anchor_master_other set_anchor_master_self refresh_anchor_master
Change-IsSound p tu (Change.ignore r f) h = ground arith
Change-IsSound p tu (Change.yield_to e l t o f) h = ground arith
Change-IsSound p tu (Change.rise e l t f) h = ground arith
Change-IsSound p tu (Change.fall e l t k f) h = ground arith
Change-IsSound p tu (Change.take_over e l t k f) h = ground arith
Change-IsSound p tu (Change.refresh e o l f) h = ground arith

pub update_master_rank-IsSound :
    (s : SyncState) (a : Option EtherAddr) → IsSound s → IsSound (update_master_rank s a).1
unfolding update_master_rank set_anchor_master_self
update_master_rank-IsSound s a h = ground arith

redraw-IsSound :
    (s : SyncState) (elapsed now draw : ℕ) → IsSound s → IsSound (redraw s elapsed now draw)
unfolding redraw
redraw-IsSound s elapsed now draw h = ground arith

update_master_preference-IsSound :
    (s : SyncState) (p : Peer) (now draw : ℕ)
    → IsSound s
    → IsSound (update_master_preference s p now draw).1
unfolding update_master_preference
update_master_preference-IsSound s p now draw h =
    let elapsed = time_difference_dw s.last_master_preference_update_usec now in
    let drawn = redraw-IsSound s elapsed now draw h in
    ground (arith, drawn, update_master_rank-IsSound (redraw s elapsed now draw) none drawn)

-- Every step keeps our own master rank at or below the rank of the anchor master.
pub Step-IsSound : {s t : SyncState} → Step s t → IsSound s → IsSound t
unfolding master_election check_anchor_master_expiration
Step-IsSound {s} (beacon p tu) h = Change-IsSound p tu ((selection-Change s p tu _).1 refl) h
Step-IsSound (election peers now) h = h
Step-IsSound window_end h = ground arith
Step-IsSound {s} (new_address a) h = update_master_rank-IsSound s a h
Step-IsSound {s} (preference p now draw) h = update_master_preference-IsSound s p now draw h

-- From the initial state on, through any beacons, elections, windows, changes of address and of
-- preference, no step of ours makes us defer to an anchor master whose rank is below our own.
pub reach-IsSound : {a : EtherAddr} {s : SyncState} → Reach a s → IsSound s
unfolding init
reach-IsSound start = omega arith
reach-IsSound (next r st) = Step-IsSound st (reach-IsSound r)
