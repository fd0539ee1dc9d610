-- ===== src/Structures.antt =====
-- crates/datastructures/src: containers built on the oblivious memories.
pub mod Queue
pub mod UnsortedMap
pub mod Stack
pub mod Heap
pub mod ShortArray
pub mod OramArrays
pub mod Vector
