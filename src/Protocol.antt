-- ===== src/Protocol.antt =====
-- crates/drv-thru/src/protocol: the messages, their frames on a stream, and path lists in chunks.
mod Messages
pub mod Wire
pub mod PathChunks
pub use Messages.*
