-- ===== src/Sort.antt =====
-- crates/sort
pub mod Swaps
pub mod Compaction
pub mod Rotate
pub mod Bitonic
pub mod Shuffle
pub mod Utils
pub mod BoseNelson
pub mod Batcher
