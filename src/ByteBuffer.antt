-- ===== src/ByteBuffer.antt =====
-- The crate byte_buffer.
pub mod Vec
pub mod Lock
pub mod Bucket
pub mod Pool
pub mod Manager
mod Examples
