-- ===== src/Tx.antt =====
-- Transmission of frames, of src/tx.c: the writers of attributes, and the frames that hold them.
pub mod Attributes
pub mod DataPath
pub mod Frames
pub mod Stored
pub mod FollowUp
pub mod Transmit
pub mod RoundTrip
pub mod BeaconHeader
pub mod Beacon
pub mod DescriptorParse
pub mod Descriptor
pub mod DescriptorStored
pub mod DescriptorRoundTrip
mod Tests
