-- ===== src/Sync/Defs/Roles.antt =====
-- Master candidates and the election of the role, of src/sync.c.
use opennan.Prelude.{
  ℕ, ◌+◌, Bool, true, false, not, ◌&&◌, ◌||◌, List, ltb, leb, ◌==◌, if◌then◌else◌,
}
use opennan.Prelude.Int.{ℤ, negsuc, ltb_ℤ, sub64}
use opennan.LinkedList.{list_for_each}
use opennan.Timer.{tu_to_usec, dw_length_tu}
use opennan.Peer.{Peer}
use opennan.Sync.Defs.State.{Role, SyncState, get_peer_master_rank, non_sync, sync, master}

unfoldable pub check_master_candidate : SyncState → Peer → Peer
check_master_candidate s p =
    if not (p.anchor_master_rank == s.anchor_master_rank)
    then record p { master_candidate = false }
    else record p {
      master_candidate =
          ltb p.hop_count s.hop_count
          || (p.hop_count == s.hop_count && ltb s.master_rank (get_peer_master_rank p));
    }

-- The counters of `nan_master_election`.
pub record Counts : Type 0 where
  pub higher_mr : ℕ
  pub rssi_close : ℕ
  pub rssi_middle : ℕ
  pub rssi_close_higher_mr : ℕ
  pub rssi_close_master_candidate : ℕ
  pub rssi_middle_higher_mr : ℕ
  pub rssi_middle_master_candidate : ℕ

abbrev pub no_counts : Counts
no_counts = record {
  higher_mr = 0;
  rssi_close = 0;
  rssi_middle = 0;
  rssi_close_higher_mr = 0;
  rssi_close_master_candidate = 0;
  rssi_middle_higher_mr = 0;
  rssi_middle_master_candidate = 0;
}

-- RSSI_CLOSE is -60, and RSSI_MIDDLE is -75.
abbrev pub rssi_close_limit : ℤ
rssi_close_limit = negsuc 59

abbrev pub rssi_middle_limit : ℤ
rssi_middle_limit = negsuc 74

-- Whether a peer was heard in the window that now ends, 4 TU of guard included.
unfoldable pub is_recent : ℕ → Peer → Bool
is_recent now p = leb (sub64 now p.last_update) (tu_to_usec (dw_length_tu + 4))

abbrev pub count_if : Bool → ℕ → ℕ
count_if b n = if b then n + 1 else n

-- One round of the loop over the peers.
unfoldable pub count_peer : SyncState → ℕ → Counts → Peer → Counts
count_peer s now c p =
    let higher = ltb s.master_rank (get_peer_master_rank p) in
    let close = ltb_ℤ rssi_close_limit p.rssi_average in
    let middle = ltb_ℤ rssi_middle_limit p.rssi_average in
    if not (is_recent now p) then c else record {
      higher_mr = count_if higher c.higher_mr;
      rssi_close = count_if close c.rssi_close;
      rssi_middle = count_if middle c.rssi_middle;
      rssi_close_higher_mr = count_if (close && higher) c.rssi_close_higher_mr;
      rssi_close_master_candidate =
          count_if (close && p.master_candidate) c.rssi_close_master_candidate;
      rssi_middle_higher_mr = count_if (middle && higher) c.rssi_middle_higher_mr;
      rssi_middle_master_candidate =
          count_if (middle && p.master_candidate) c.rssi_middle_master_candidate;
    }

unfoldable pub count_peers : SyncState → List Peer → ℕ → Counts
unfolding list_for_each count_peer
count_peers s peers now = list_for_each (count_peer s now) no_counts peers

abbrev pub is_master : Role → Bool
is_master master = true
is_master _ = false

abbrev pub is_sync : Role → Bool
is_sync sync = true
is_sync _ = false

-- The first `if` after the loop: between master and the others.
unfoldable pub elect_master : Counts → Role → Role
elect_master c role =
    if is_master role
    then if leb 1 c.rssi_close_higher_mr || leb 3 c.rssi_middle_higher_mr then sync else role
    else if c.rssi_close == 0 && ltb 0 c.higher_mr
    then master
    else role

-- The second `if`: between sync and the others.
unfoldable pub elect_sync : Counts → Role → Role
elect_sync c role =
    if is_sync role
    then if leb 1 c.rssi_close_master_candidate || leb 3 c.rssi_middle_master_candidate
      then non_sync
      else role
    else if c.rssi_close_master_candidate == 0 && ltb c.rssi_middle_master_candidate 3
    then sync
    else role

unfoldable pub master_election : SyncState → List Peer → ℕ → SyncState
unfolding elect_master elect_sync
master_election s peers now =
    let c = count_peers s peers now in record s { role = elect_sync c (elect_master c s.role) }
