-- ===== src/Rx.antt =====
-- Reception of frames, of src/rx.c: the attributes of a frame, and what a beacon says of its
-- sender.
pub mod Defs
pub mod Reads
pub mod Attributes
pub mod Rounds
pub mod Parsers
pub mod Beacon
pub mod Keeps
pub mod Safety
pub mod Discovery
pub mod Frame
pub mod Parts
pub mod Entry
pub mod Soundness
pub mod Alike
pub mod Table
pub mod Sample
mod Tests
pub use Defs.{Attribute}
