-- ===== src/Structures/Heap.antt =====
-- crates/datastructures/src/heap.rs: the path oblivious heap, a Circuit ORAM with a tree of the
-- least elements. The random generator of a call is an argument; `none` is a panic.
pub mod Least
pub mod Nodes
pub mod Update
pub mod Evictions
pub mod Clients
pub mod Deletions
pub mod Stamps
pub mod Fresh
use rostl.Base.{
  ℕ, zero, suc, ◌+◌, ◌-◌, ◌*◌, ◌%◌, ◌^◌, Bool, not, ◌&&◌, Option, none, some, List, [], ◌∷◌, ◌++◌,
  ◌==◌, leb, ltb, length, take, drop, if◌then◌else◌, ◌>>=◌,
}
use rostl.Primitives.{Cmov}
use rostl.Primitives.Usize.{checked_add, checked_sub, usize_max}
use rostl.Oram.Linear.{Default}
use rostl.Oram.HeapTree
use rostl.Oram.HeapTree.{HeapTree, get_path_at_depth, set_path_at_depth, get_sibling}
use rostl.Oram.Circuit
use rostl.Oram.Circuit.{
  CircuitOram, with_stash, chunks, path_end, read_path_and_get_nodes, write_back_path,
}
use rostl.Oram.Circuit.Blocks.{
  Zeroable, Block, default_block, is_empty, bucket_size, stash_size, remove_element,
  write_block_to_empty_slot,
}
use rostl.Oram.Circuit.Ops.{evict_once_fast}
use rostl.Oram.Recursive.{random_range}

-- A logical heap element: its priority and its value.
pub record HeapElement (V : Type 0) : Type 0 where
  pub key : ℕ
  pub value : V

instance abbrev pub heap_element_default : {V : Type 0} ⦃z : Zeroable V⦄ → Default (HeapElement V)
heap_element_default ⦃z⦄ = record { default = record { key = usize_max; value = z.zeroed } }

instance abbrev pub heap_element_zeroable : {V : Type 0} ⦃z : Zeroable V⦄ → Zeroable (HeapElement V)
heap_element_zeroable ⦃z⦄ = record { zeroed = record { key = 0; value = z.zeroed } }

pub record Heap (V : Type 0) : Type 0 where
  -- The source's field `data`.
  pub oram : CircuitOram (HeapElement V)
  pub metadata : HeapTree (Block (HeapElement V))
  pub max_size : ℕ
  pub timestamp : ℕ

abbrev pub with_oram : {V : Type 0} → Heap V → CircuitOram (HeapElement V) → Heap V
with_oram self oram = record {
  oram = oram;
  metadata = self.metadata;
  max_size = self.max_size;
  timestamp = self.timestamp;
}

abbrev pub with_metadata : {V : Type 0} → Heap V → HeapTree (Block (HeapElement V)) → Heap V
with_metadata self metadata = record {
  oram = self.oram;
  metadata = metadata;
  max_size = self.max_size;
  timestamp = self.timestamp;
}

abbrev pub with_timestamp : {V : Type 0} → Heap V → ℕ → Heap V
with_timestamp self timestamp = record {
  oram = self.oram;
  metadata = self.metadata;
  max_size = self.max_size;
  timestamp = timestamp;
}

-- Whether an element is moved over the least one so far.
abbrev pub should_mov : {V : Type 0} → Block (HeapElement V) → Block (HeapElement V) → Bool
should_mov elem least = not (is_empty elem) && ltb elem.value.key least.value.key

module _ {V : Type 0} ⦃z : Zeroable V⦄ where
  unfoldable pub new : ℕ → Option (Heap V)
  new n = do
    oram ← Circuit.new n
    metadata ← HeapTree.new_with oram.h default_block
    some (record { oram = oram; metadata = metadata; max_size = n; timestamp = 0 })

module _ {V : Type 0} ⦃mb : Cmov (Block (HeapElement V))⦄ where
  -- The loops that look for the least element.
  unfoldable pub least_of :
      Block (HeapElement V) → List (Block (HeapElement V)) → Block (HeapElement V)
  least_of least [] = least
  least_of least (elem ∷ elems) = least_of (mb.cmov least elem (should_mov elem least)) elems

  unfoldable pub find_min : Heap V → Option (Block (HeapElement V))
  find_min self = do
    min_node ← get_path_at_depth self.metadata 0 0
    if leb stash_size (length self.oram.stash)
        then some (least_of min_node (take stash_size self.oram.stash))
        else none

  -- What a level's least element is compared with: the other child of the level, which the leaves
  -- do not have.
  unfoldable pub with_sibling :
      HeapTree (Block (HeapElement V))
      → ℕ
      → ℕ
      → Block (HeapElement V)
      → Option (Block (HeapElement V))
  with_sibling metadata h_index pos curr_min =
      if h_index == metadata.height then some curr_min else (do
        sibling ← get_sibling metadata h_index pos
        some (mb.cmov curr_min sibling (should_mov sibling curr_min)))

  -- The loop of `update_min` over the levels, of which the source takes the last one first. The
  -- result is the new tree, and the level's least element.
  unfoldable pub update_levels :
      ℕ
      → ℕ
      → Block (HeapElement V)
      → HeapTree (Block (HeapElement V))
      → List (List (Block (HeapElement V)))
      → Option (HeapTree (Block (HeapElement V)))
  update_levels pos h_index curr_min metadata [] = some metadata
  update_levels pos h_index curr_min metadata (elems ∷ levels) = do
    curr_min ← with_sibling metadata h_index pos (least_of curr_min elems)
    above ← checked_sub h_index 1
    metadata ← set_path_at_depth metadata above pos curr_min
    update_levels pos above curr_min metadata levels

reversed : {A : Type 0} → List A → List A → List A
reversed [] out = out
reversed (x ∷ xs) out = reversed xs (x ∷ out)

-- The default block, with the largest key: what `update_min` starts from.
abbrev pub greatest : {V : Type 0} ⦃z : Zeroable V⦄ → Block (HeapElement V)
greatest {V} =
    let curr_min : Block (HeapElement V) = default_block in
    record {
      pos = curr_min.pos;
      key = curr_min.key;
      value = record { key = usize_max; value = curr_min.value.value };
    }

module _ {V : Type 0} ⦃mb : Cmov (Block (HeapElement V))⦄ ⦃z : Zeroable V⦄ where
  unfoldable pub update_min : Heap V → ℕ → Option (Heap V)
  unfolding reversed
  update_min self pos =
      if leb (path_end self.oram) (length self.oram.stash)
      then (do
        let path = take (self.oram.h * bucket_size) (drop stash_size self.oram.stash)
        metadata ←
            update_levels pos self.metadata.height greatest self.metadata
              (reversed (chunks self.oram.h path) [])
        some (with_metadata self metadata))
      else none

  unfoldable pub evict : Heap V → ℕ → Option (Heap V)
  evict self pos = do
    oram ← read_path_and_get_nodes self.oram pos
    oram ← evict_once_fast oram pos
    oram ← write_back_path oram pos
    some (with_oram self oram)

  -- An eviction of a path and the update of the tree along it.
  unfoldable pub evict_and_update : Heap V → ℕ → Option (Heap V)
  unfolding evict update_min
  evict_and_update self pos = do self ← evict self pos; update_min self pos

  -- The result of write_block_to_empty_slot is not used.
  unfoldable pub insert : (ℕ → ℕ → ℕ) → Heap V → ℕ → V → Option (Heap V × ℕ × ℕ)
  unfolding evict_and_update
  insert rng self key value = do
    new_pos ← random_range rng 0 (self.oram.max_n % 2 ^ 32)
    let oram_key = self.timestamp
    timestamp ← checked_add self.timestamp 1
    let written =
        write_block_to_empty_slot (take stash_size self.oram.stash)
          (record { pos = new_pos; key = oram_key; value = record { key = key; value = value } })
    let self =
        with_timestamp
          (with_oram self (with_stash self.oram (written.0 ++ drop stash_size self.oram.stash)))
          timestamp
    first ← random_range rng 1 (self.oram.max_n % 2 ^ 32)
    self ← evict_and_update self first
    second ← random_range rng 2 (self.oram.max_n % 2 ^ 32)
    self ← evict_and_update self second
    some (self, new_pos, oram_key)

  unfoldable pub delete : (ℕ → ℕ → ℕ) → Heap V → ℕ → ℕ → Option (Heap V)
  unfolding evict_and_update
  delete rng self pos timestamp = do
    oram ← read_path_and_get_nodes self.oram pos
    (stash, found) ← remove_element oram.stash timestamp
    oram ← evict_once_fast (with_stash oram stash) pos
    oram ← write_back_path oram pos
    self ← update_min (with_oram self oram) pos
    pos_to_evict ← random_range rng 0 (self.oram.max_n % 2 ^ 32)
    evict_and_update self pos_to_evict

  unfoldable pub extract_min : (ℕ → ℕ → ℕ) → Heap V → Option (Heap V)
  unfolding delete
  extract_min rng self = do to_delete ← find_min self; delete rng self to_delete.pos to_delete.key
