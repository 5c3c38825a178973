-- ===== src/Sync/Defs/Anchor.antt =====
-- The choice and the expiration of the anchor master, and our own rank, of src/sync.c.
use opennan.Prelude.{
  ℕ, ◌+◌, ◌*◌, Bool, true, false, not, ◌&&◌, ◌||◌, Option, none, some, ltb, leb, ◌==◌,
  if◌then◌else◌,
}
use opennan.Prelude.Int.{u8, u64}
use opennan.Utils.{EtherAddr}
use opennan.Timer.{time_difference_dw}
use opennan.Peer.{Peer}
use opennan.Sync.Defs.State.{
  SyncState, calculate_master_rank, get_address_from_master_rank, is_same_master_rank_issuer,
  is_anchor_master_self,
}

unfoldable pub save_current_anchor_master : SyncState → SyncState
save_current_anchor_master s = record s {
  last_anchor_master_rank = s.anchor_master_rank;
  last_ambtt = s.ambtt;
}

unfoldable pub set_anchor_master_other : SyncState → Peer → SyncState
unfolding save_current_anchor_master
set_anchor_master_other s p = record (save_current_anchor_master s) {
  anchor_master_rank = p.anchor_master_rank;
  ambtt = p.ambtt;
  hop_count = u8 (p.hop_count + 1);
}

unfoldable pub set_anchor_master_self : SyncState → SyncState
unfolding save_current_anchor_master
set_anchor_master_self s = record (save_current_anchor_master s) {
  anchor_master_rank = s.master_rank;
  ambtt = 0;
  hop_count = 0;
}

-- The end of `nan_anchor_master_selection`: the ranks are equal.
unfoldable pub refresh_anchor_master : SyncState → Peer → SyncState
refresh_anchor_master s p = record s {
  ambtt = if ltb s.ambtt p.ambtt then p.ambtt else s.ambtt;
  hop_count = if ltb (p.hop_count + 1) s.hop_count then p.hop_count else s.hop_count;
}

-- `nan_anchor_master_selection` from the comment `!state->anchor_master_self` on.
unfoldable pub select_from_other : SyncState → Peer → SyncState
unfolding set_anchor_master_other set_anchor_master_self refresh_anchor_master
select_from_other s p =
    if ltb s.anchor_master_rank p.anchor_master_rank
    then if s.last_anchor_master_rank == p.anchor_master_rank && leb p.ambtt s.last_ambtt
      then s
      else set_anchor_master_other s p
    else if ltb p.anchor_master_rank s.anchor_master_rank
    then if not (is_same_master_rank_issuer s.anchor_master_rank p.anchor_master_rank)
      then s
      else if ltb p.anchor_master_rank s.master_rank
      then set_anchor_master_self s
      else set_anchor_master_other s p
    else refresh_anchor_master s p

unfoldable pub anchor_master_selection : SyncState → Peer → ℕ → SyncState
unfolding set_anchor_master_other
anchor_master_selection s p synced_time_tu =
    if s.anchor_master_rank == p.anchor_master_rank
      && leb p.ambtt (u64 (u64 (synced_time_tu * 16) * 512))
    then s
    else if is_anchor_master_self s
    then if leb p.anchor_master_rank s.master_rank
      then s
      else if is_same_master_rank_issuer s.master_rank p.anchor_master_rank
      then s
      else select_from_other (set_anchor_master_other s p) p
    else select_from_other s p

-- `nan_check_anchor_master_expiration`: the counters, which are 8 bits wide.
unfoldable pub count_dws : SyncState → SyncState
count_dws s = record s {
  count_dws_without_hop_count_update =
      if s.hop_count == s.last_hop_count then u8 (s.count_dws_without_hop_count_update + 1) else 0;
  count_dws_without_ambtt_update =
      if s.ambtt == s.last_ambtt then u8 (s.count_dws_without_ambtt_update + 1) else 0;
}

unfoldable pub check_anchor_master_expiration : SyncState → SyncState
unfolding count_dws set_anchor_master_self
check_anchor_master_expiration s =
    let counted = count_dws s in
    if is_anchor_master_self s
    then record s { count_dws_without_ambtt_update = 0; count_dws_without_hop_count_update = 0 }
    else if leb 3 counted.count_dws_without_ambtt_update
    then set_anchor_master_self counted
    else if leb 3 counted.count_dws_without_hop_count_update
    then record counted { hop_count = 255 }
    else counted

-- `none` is a NULL address: the one in the master rank is kept.
unfoldable pub update_master_rank : SyncState → Option EtherAddr → Bool × SyncState
unfolding set_anchor_master_self
update_master_rank s interface_address =
    let address = elim interface_address as (λ o. EtherAddr) [
      | none ↦ get_address_from_master_rank s.master_rank
      | some a ↦ a
    ] in
    let rank = calculate_master_rank s.master_preference s.random_factor address in
    let ranked = record s { master_rank = rank } in
    if rank == s.master_rank
    then (false, s)
    else if is_anchor_master_self ranked
    then (
      true,
      record ranked { last_anchor_master_rank = s.anchor_master_rank; anchor_master_rank = rank },
    )
    else if ltb s.anchor_master_rank rank
    then (true, set_anchor_master_self ranked)
    else (true, ranked)

-- The two tests of `nan_update_master_preference` on the windows since the last update. `draw` is
-- what `get_rand_num(0, 255)` returns, if it is called.
unfoldable pub redraw : SyncState → ℕ → ℕ → ℕ → SyncState
redraw s elapsed_dws now draw =
    let s1 =
      if ltb 120 elapsed_dws
      then record s { random_factor = draw; last_random_factor_update_usec = now }
      else s in
    if ltb 240 elapsed_dws
    then record s1 { master_preference = 200; last_master_preference_update_usec = now }
    else s1

unfoldable pub update_master_preference : SyncState → Peer → ℕ → ℕ → Bool × SyncState
update_master_preference s p now draw =
    let elapsed_dws = time_difference_dw s.last_master_preference_update_usec now in
    let drawn = redraw s elapsed_dws now draw in
    if p.master_preference == p.last_master_preference
    then (false, s)
    else if ltb 120 elapsed_dws || ltb 240 elapsed_dws
    then update_master_rank drawn none
    else (false, drawn)
