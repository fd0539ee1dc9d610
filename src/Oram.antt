-- ===== src/Oram.antt =====
-- crates/oram/src: memories that hide which entry is used.
pub mod Linear
pub mod HeapTree
pub mod Circuit
pub mod Recursive
