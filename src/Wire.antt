-- ===== src/Wire.antt =====
-- The frame buffers of src/wire.c: a block of bytes with a read and write position.
pub mod Defs
pub mod Bounds
pub mod RoundTrip
pub mod Stored
mod Tests
pub use Defs.{Buf}
