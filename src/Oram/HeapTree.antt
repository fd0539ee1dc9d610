-- ===== src/Oram/HeapTree.antt =====
-- crates/oram/src/heap_tree.rs: a binary tree in a vector, addressed by depth and path. `none` is a
-- panic: a violated debug assertion, an index out of range, or an overflow.
pub mod Index
use Prim.Native.Nat.{bit_and, bit_xor}
use rostl.Base.{
  ℕ, ◌+◌, ◌-◌, ◌%◌, ◌^◌, Option, none, some, List, ltb, length, get_elem?, store, replicate,
  if◌then◌else◌, ◌>>=◌,
}
use rostl.Primitives.Usize.{checked_sub}
use rostl.Oram.Linear.{Default}

pub record HeapTree (A : Type 0) : Type 0 where
  pub tree : List A
  pub height : ℕ

-- `2usize.pow(height as u32) - 1`, for a height below 64: a larger one overflows.
abbrev pub node_count : ℕ → Option ℕ
node_count height = if ltb height 64 then some (2 ^ height - 1) else none

unfoldable pub new : {A : Type 0} ⦃d : Default A⦄ → ℕ → Option (HeapTree A)
new ⦃d⦄ height = do
  n ← node_count height
  some (record { tree = replicate n d.default; height = height })

unfoldable pub new_with : {A : Type 0} → ℕ → A → Option (HeapTree A)
new_with height default = do
  n ← node_count height
  some (record { tree = replicate n default; height = height })

module _ {A : Type 0} (self : HeapTree A) where
  -- The shift `1 << depth` panics from 64 on; the cast to a position keeps 32 bits.
  unfoldable pub get_index : ℕ → ℕ → Option ℕ
  get_index depth path =
      if ltb depth self.height
      then (if ltb depth 64
          then some (2 ^ depth - 1 + bit_and path ((2 ^ depth - 1) % 2 ^ 32))
          else none)
      else none

  unfoldable pub get_path_at_depth : ℕ → ℕ → Option A
  unfolding get_index
  get_path_at_depth depth path = do index ← get_index depth path; get_elem? self.tree index

  -- The tree after a write through the reference that is returned.
  unfoldable pub set_path_at_depth : ℕ → ℕ → A → Option (HeapTree A)
  unfolding get_index
  set_path_at_depth depth path value = do
    index ← get_index depth path
    tree ← store self.tree index value
    some (record { tree = tree; height = self.height })

  -- Positions are 32 bits wide, so that the shift panics from 32 on.
  unfoldable pub get_sibling : ℕ → ℕ → Option A
  unfolding get_path_at_depth
  get_sibling depth path = do
    above ← checked_sub depth 1
    if ltb above 32 then get_path_at_depth depth (bit_xor path (2 ^ above)) else none
