-- ===== src/Sync/Defs.antt =====
-- The data and the functions of src/sync.c and src/sync.h.
pub mod State
pub mod Roles
pub mod Anchor
pub use State.{Role, SyncState, non_sync, sync, master}
unfoldable pub use State.{
  calculate_master_rank, get_address_from_master_rank, get_peer_master_rank, is_master_rank_issuer,
  is_same_master_rank_issuer, is_anchor_master, is_anchor_master_self, get_anchor_master_address,
  init,
}
pub use Roles.{Counts, no_counts, rssi_close_limit, rssi_middle_limit, count_if, is_master, is_sync}
unfoldable pub use Roles.{
  check_master_candidate, is_recent, count_peer, count_peers, elect_master, elect_sync,
  master_election,
}
unfoldable pub use Anchor.{
  save_current_anchor_master, set_anchor_master_other, set_anchor_master_self,
  refresh_anchor_master, select_from_other, anchor_master_selection, count_dws,
  check_anchor_master_expiration, update_master_rank, redraw, update_master_preference,
}
