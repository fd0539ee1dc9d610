-- ===== src/Lib.antt =====
-- Verification of rostl, a library of oblivious algorithms and containers: code whose memory
-- accesses do not depend on its data.
--
-- The parts and how they meet. `Primitives` has conditional moves and swaps, on which everything is
-- built: an algorithm computes a choice and passes it on instead of branching on it. `Sort` has
-- compaction and rotation, which swap at addresses fixed by the slice's length. `Oram` has
-- memories: the linear one scans its whole slice, the Circuit ORAM keeps blocks in a tree, each on
-- the path of its position, and moves them down a path after every operation. `Structures` has the containers.
--
--   Base                 crates' common ground: slices as lists, panics, counting loops, masks
--   Primitives           crates/primitives/src/traits.rs: the trait Cmov, cset, cswap
--   Primitives.CswapIndex  the same file's CswapIndex on slices
--   Primitives.Usize     arithmetic on usize; cmov_base, cxchg_base of
--                        crates/primitives/src/asm_x86.rs
--   Primitives.Powers    crates/primitives/src/utils.rs
--   Sort.Swaps           runs of conditional swaps, the shape of the loops in crates/sort
--   Sort.Compaction      crates/sort/src/compaction.rs: compute_prefix_sum, compact_payload,
--                        compact, distribute_payload and the functions they call
--   Sort.Rotate          crates/sort/src/rotate.rs: reverse_region, rotate_left
--   Primitives.OOption   crates/primitives/src/ooption.rs, and bool in crates/primitives/src/asm.rs
--   Primitives.Slices    slices in crates/primitives/src/asm.rs
--   Sort.Bitonic         crates/sort/src/bitonic.rs: bitonic_sort, bitonic_payload_sort
--   Sort.Utils           crates/sort/src/utils.rs: the macro CSWAP
--   Sort.BoseNelson      crates/sort/src/bose_nelson.rs: bn_merge, bn_sort, bose_nelson_sort
--   Sort.Batcher         crates/sort/src/batcher.rs: batcher_sort_paper, batcher_sort
--   Sort.Shuffle         crates/sort/src/shuffle.rs: shuffle, by a given generator
--   Oram.Linear          crates/oram/src/linear_oram.rs: the four scans and LinearORAM
--   Oram.HeapTree        crates/oram/src/heap_tree.rs: the tree of buckets in a vector
--   Oram.Circuit         crates/oram/src/circuit_oram.rs: Blocks has the blocks and the scans over them,
--                        Circuit the state and its paths, Passes the three passes of
--                        evict_once_fast, Ops the operations; the other children are proofs
--   Oram.Recursive       crates/oram/src/recursive_oram.rs: RecursivePositionMap
--   Storage              crates/storage/src/memstore.rs: MemStore
--   Structures.ShortArray  crates/datastructures/src/array.rs: ShortArray
--   Structures.OramArrays  the same file's LongArray, DynamicArray, FixedArray
--                        and, in its child MultiWay, MultiWayArray
--   Structures.Queue     crates/datastructures/src/queue.rs: ShortQueue
--   Structures.Stack     crates/datastructures/src/stack.rs: the linked list in a Circuit ORAM
--   Structures.Heap      crates/datastructures/src/heap.rs: the path oblivious heap
--   Structures.Vector    crates/datastructures/src/vector.rs: EagerVector
--   Structures.UnsortedMap  crates/datastructures/src/map.rs: the cuckoo map; its child Buckets
--                        has the methods of Bucket
--   Tests                runs on concrete data, and instances of the theorems
--
-- How the code is read. A slice or vector is a list over the native numbers, a struct a record. A
-- function that writes through `&mut` returns the new value. `none` stands for a panic in a build
-- with debug assertions and overflow checks, for an `assume!` that does not hold, and for fuel that
-- ran out; the theorems say when the code returns. A generic element type comes with an instance of
-- the interface Cmov, whose two laws are the trait's documented contract; usize_cmov is the instance
-- for integers. The value whose bytes are zeros, which fills empty blocks, is that of the interface Zeroable,
-- for the trait of the crate bytemuck. A usize is a number below 2^64, and a slice is shorter than 2^63, as in Rust.
--
-- The Circuit ORAM's evictions may fill the stash, and then a debug assertion panics. How likely
-- that is depends on the positions, which are random; the theorems give the state that is computed
-- and say that the operation panics exactly when this state has no empty slot.
--
-- Random draws. A function that draws takes the generator as an argument, which gives the n-th draw
-- below a bound; that a draw is below its bound is a hypothesis where a theorem needs it.
--
-- Fuel. The compaction recursion halves its slice, so that the slice's length (or its length and
-- one more) is enough. The rounds of rotate_left double `s` from 1 on until it reaches the length,
-- which is below 2^63, so that 65 rounds are enough. bn_sort and bn_merge halve their parts, so that
-- the length, or one more, is enough, as it is for the loops of batcher_sort_paper. Where a theorem says Returns or Refines, it
-- says that the fuel does not run out.
--
-- Not modelled. That memory traces do not depend on data is a property of the machine code and not
-- of the functions. The vector instructions and the loop over bytes that carry cmov to larger
-- values, compact_goodrich, _batcher_sort_untrusted_but_faster, and the sharded map are left out. The
-- hash functions of the map are not code of the repository: they are a field of the model's map.
pub mod Base
pub mod Primitives
pub mod Sort
pub mod Oram
pub mod Storage
pub mod Structures
pub mod Tests
