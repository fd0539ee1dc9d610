-- ===== src/Oram/Circuit.antt =====
-- crates/oram/src/circuit_oram.rs: the Circuit ORAM. A method returns the structure it changes,
-- first; `none` is a panic: a violated debug assertion, a slice or an index out of range, or an
-- overflow.
pub mod Blocks
pub mod Passes
pub mod Ops
pub mod Filled
pub mod Slots
pub mod Moves
pub mod Held
pub mod Steps
pub mod Targets
pub mod Levels
pub mod Below
pub mod Evict
pub mod Parts
pub mod Paths
pub mod PathWrites
pub mod Elements
pub mod Stash
pub mod EvictOnce
pub mod State
pub mod Evolve
pub mod Operations
pub mod Tally
pub mod Location
pub mod Access
pub mod Relocate
pub mod Entries
pub mod Client
pub mod ClientReads
pub mod New
use rostl.Base.{
  ℕ, zero, suc, ◌+◌, ◌-◌, ◌*◌, ◌/◌, ◌%◌, ◌^◌, Bool, true, false, not, ◌&&◌, ◌||◌, Option, none,
  some, List, [], ◌∷◌, ◌++◌, ◌==◌, leb, ltb, length, get_elem?, take, drop, replicate, store,
  if◌then◌else◌, ◌>>=◌, for_range,
}
use rostl.Primitives.{Cmov}
use rostl.Primitives.Usize.{cmov_base, checked_rem}
use rostl.Oram.Linear.{Default}
use rostl.Oram.HeapTree
use rostl.Oram.HeapTree.{HeapTree, get_index}
use rostl.Oram.Circuit.Blocks.{
  Zeroable, Block, is_empty, default_block, dummy_pos, bucket_size, stash_size,
  read_and_remove_element, remove_element, write_block_to_empty_slot,
}
use rostl.Oram.Circuit.Passes.{
  scan_slots, any_empty, prepare_deepest, prepare_target, take_deepest, move_levels,
}

-- A bucket has `bucket_size` blocks.
abbrev pub Bucket : Type 0 → Type 0
Bucket V = List (Block V)

abbrev pub default_bucket : {V : Type 0} ⦃z : Zeroable V⦄ → Bucket V
default_bucket = replicate bucket_size default_block

abbrev pub bucket_default : {V : Type 0} ⦃z : Zeroable V⦄ → Default (Bucket V)
bucket_default = record { default = default_bucket }

-- `ilog2` of a number of 64 bits that is not 0: halvings until 1 is left.
unfoldable pub ilog2_loop : ℕ → ℕ → ℕ
ilog2_loop zero n = 0
ilog2_loop (suc rounds) n = let rest = ilog2_loop rounds (n / 2) in if ltb n 2 then 0 else suc rest

abbrev pub chunks : {V : Type 0} → ℕ → List (Block V) → List (Bucket V)
chunks zero slots = []
chunks (suc n) slots = take bucket_size slots ∷ chunks n (drop bucket_size slots)

abbrev pub concat : {V : Type 0} → List (Bucket V) → List (Block V)
concat [] = []
concat (bucket ∷ buckets) = bucket ++ concat buckets

module _ {V : Type 0} where
  -- The loop of `read_path`, for the `n` depths from `i` on.
  unfoldable pub read_buckets : HeapTree (Bucket V) → ℕ → ℕ → ℕ → Option (List (Bucket V))
  unfolding get_index
  read_buckets self path zero i = some []
  read_buckets self path (suc n) i = do
    index ← get_index self i path
    bucket ← get_elem? self.tree index
    rest ← read_buckets self path n (suc i)
    some (bucket ∷ rest)

  -- What `read_path` writes over all of `out`, which is as long as the argument says.
  unfoldable pub read_path : HeapTree (Bucket V) → ℕ → ℕ → Option (List (Block V))
  unfolding read_buckets
  read_path self path out_len =
      if ltb self.height 64 && (ltb path (2 ^ self.height) && out_len == self.height * bucket_size)
      then (do buckets ← read_buckets self path self.height 0; some (concat buckets))
      else none

  -- The loop of `write_path`, for the `n` depths from `i` on.
  unfoldable pub write_buckets :
      ℕ → ℕ → ℕ → List (Bucket V) → HeapTree (Bucket V) → Option (HeapTree (Bucket V))
  unfolding get_index
  write_buckets path zero i buckets self = some self
  write_buckets path (suc n) i [] self = none
  write_buckets path (suc n) i (bucket ∷ buckets) self = do
    index ← get_index self i path
    tree ← store self.tree index bucket
    write_buckets path n (suc i) buckets (record { tree = tree; height = self.height })

  unfoldable pub write_path :
      HeapTree (Bucket V) → ℕ → List (Block V) → Option (HeapTree (Bucket V))
  unfolding write_buckets
  write_path self path in_ =
      if ltb self.height 64
        && (ltb path (2 ^ self.height) && length in_ == self.height * bucket_size)
      then write_buckets path self.height 0 (chunks self.height in_) self
      else none

pub record CircuitOram (V : Type 0) : Type 0 where
  pub max_n : ℕ
  pub h : ℕ
  pub stash : List (Block V)
  pub tree : HeapTree (Bucket V)
  pub evict_counter : ℕ

abbrev pub with_stash : {V : Type 0} → CircuitOram V → List (Block V) → CircuitOram V
with_stash self stash = record {
  max_n = self.max_n;
  h = self.h;
  stash = stash;
  tree = self.tree;
  evict_counter = self.evict_counter;
}

-- The height that `new` gives a structure of so many blocks.
abbrev pub height_of : ℕ → ℕ
height_of max_n = let h0 = ilog2_loop 64 max_n in if ltb (2 ^ h0) max_n then h0 + 2 else h0 + 1

unfoldable pub new : {V : Type 0} ⦃z : Zeroable V⦄ → ℕ → Option (CircuitOram V)
unfolding HeapTree.new ilog2_loop
new max_n =
    if ltb 1 max_n && ltb max_n (2 ^ 32)
    then (do
      let h = height_of max_n
      tree ← HeapTree.new ⦃d = bucket_default⦄ h
      some (record {
        max_n = 2 ^ (h - 1);
        h = h;
        stash = replicate (stash_size + h * bucket_size) default_block;
        tree = tree;
        evict_counter = 0;
      }))
    else none

module _ {V : Type 0} where
  -- The end of the slice that holds the path.
  abbrev pub path_end : CircuitOram V → ℕ
  path_end self = stash_size + self.h * bucket_size

  unfoldable pub read_path_and_get_nodes : CircuitOram V → ℕ → Option (CircuitOram V)
  unfolding read_path
  read_path_and_get_nodes self pos =
      if ltb pos self.max_n && leb (path_end self) (length self.stash)
      then (do
        path ← read_path self.tree pos (self.h * bucket_size)
        some (
            with_stash self
              (take stash_size self.stash ++ (path ++ drop (path_end self) self.stash))))
      else none

  unfoldable pub write_back_path : CircuitOram V → ℕ → Option (CircuitOram V)
  unfolding write_path
  write_back_path self pos =
      if ltb pos self.max_n && leb (path_end self) (length self.stash)
      then (do
        tree ← write_path self.tree pos (take (self.h * bucket_size) (drop stash_size self.stash))
        some (record {
          max_n = self.max_n;
          h = self.h;
          stash = self.stash;
          tree = tree;
          evict_counter = self.evict_counter;
        }))
      else none
