-- ===== src/Syncpool.antt =====
-- The crate syncpool.
pub mod Words
pub mod Utils
pub mod Builder
pub mod Bucket2
pub mod Bucket
pub mod Pool
pub mod Concurrent
pub mod Calls
pub mod Visitors
pub mod Experimental
mod Examples
