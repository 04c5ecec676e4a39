-- ===== src/Frames.antt =====
-- The library's Frames: frames and their atoms, their serialised form, packets, queues, masks and
-- definitions.
pub mod RawData
pub mod FrameQueue
pub mod PacketType
pub mod Packets
pub mod Atoms
pub mod DataFrames
pub mod Mask
pub mod Definitions
