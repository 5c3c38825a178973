-- ===== src/Service.antt =====
-- Publishing and subscribing, of src/service.c and src/service.h. A service is a block that
-- `malloc` returned: `ref` is its address, and a list of services holds such addresses. Strings are
-- their characters before the NUL.
pub mod Defs
pub mod Announce
pub mod Updates
pub mod Frame
pub mod Rounds
pub mod Lookup
mod Tests
pub use Defs.{Service, ServiceState, ServiceDescriptor}
