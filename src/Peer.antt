-- ===== src/Peer.antt =====
-- The table of known peers of src/peer.c. A peer is a block that `malloc` returned: `ref` is its
-- address, and the list of peers holds such addresses. A write through a pointer to a peer changes
-- the entries with that address (`write_back`). Each call of a callback is recorded in order.
pub mod Defs
pub mod Lookup
pub mod Add
pub mod Clean
pub mod Removal
mod Tests
pub use Defs.{
  Peer, PeerState, PeerStatus, peer_ok, peer_add, peer_update, peer_missing, Callback, Cleaned,
  cleaned, null_callback, unfinished,
}
unfoldable pub use Defs.{
  init, set_callbacks, new, get, add, write_back, set_master_indication,
  set_anchor_master_information, set_beacon_information, remove, is_stale, clean, same,
}
