-- ===== src/Sync.antt =====
-- The synchronisation state of src/sync.c: master rank, role, and the choice of the anchor master.
-- A rank is a `uint64_t`; the peer whose beacon is handled is a value that the functions read.
pub mod Defs
pub mod Rank
pub mod Election
pub mod Selection
pub mod Invariant
pub mod Expiration
mod Tests
pub use Defs.{SyncState, Role, non_sync, sync, master, Counts}
