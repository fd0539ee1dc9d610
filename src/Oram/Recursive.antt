-- ===== src/Oram/Recursive.antt =====
-- crates/oram/src/recursive_oram.rs: the position map, a linear ORAM of nodes and levels of Circuit
-- ORAMs below it, with the constants of a build that is not a test. The random generator is an
-- argument: the n-th draw of a call, below the bound given to it. `none` is a panic.
pub mod Flat
pub mod Fresh
use Prim.Native.Nat.{bit_and, bit_or}
use rostl.Base.{
  ℕ, zero, suc, ◌+◌, ◌-◌, ◌*◌, ◌/◌, ◌%◌, ◌^◌, min, Bool, true, false, Option, none, some, List, [],
  ◌∷◌, ◌==◌, leb, ltb, take, drop, replicate, store, if◌then◌else◌, ◌>>=◌,
}
use rostl.Primitives.{Cmov}
use rostl.Primitives.Usize.{usize_cmov}
use rostl.Oram.Linear
use rostl.Oram.Linear.{Default, LinearOram, oblivious_read_update_index}
use rostl.Oram.Circuit
use rostl.Oram.Circuit.{CircuitOram}
use rostl.Oram.Circuit.Blocks.{Zeroable, Block, dummy_pos, asserted}
use rostl.Oram.Circuit.Ops.{update, new_with_positions_and_values}

abbrev pub level_0_buckets : ℕ
level_0_buckets = 128

abbrev pub fan_out : ℕ
fan_out = 16

abbrev pub linear_map_size : ℕ
linear_map_size = 2048

abbrev pub level0_bits : ℕ
level0_bits = 11

abbrev pub mask0 : ℕ
mask0 = linear_map_size - 1

abbrev pub leveln_bits : ℕ
leveln_bits = 4

abbrev pub maskn : ℕ
maskn = fan_out - 1

-- A node has `fan_out` positions.
pub record InternalNode : Type 0 where
  pub positions : List ℕ

instance abbrev pub node_default : Default InternalNode
node_default = record { default = record { positions = replicate fan_out dummy_pos } }

instance abbrev pub node_zeroable : Zeroable InternalNode
node_zeroable = record { zeroed = record { positions = replicate fan_out 0 } }

pub record RecursivePositionMap : Type 0 where
  pub linear_oram : LinearOram InternalNode
  pub recursive_orams : List (CircuitOram InternalNode)
  pub n : ℕ
  pub h : ℕ

-- `rng.random_range(0..bound)`, which panics on an empty range.
abbrev pub random_range : (ℕ → ℕ → ℕ) → ℕ → ℕ → Option ℕ
random_range rng i bound = if bound == 0 then none else some (rng i bound)

-- The closure that `access_position` gives to `update`, and the same change of a first-level node:
-- an entry is read and replaced.
unfoldable pub access_node : ℕ → ℕ → ℕ → InternalNode → InternalNode × ℕ
access_node index ret position node =
    let out = oblivious_read_update_index node.positions index ret position in
    (record { positions = out.0 }, out.1)

module _ ⦃mn : Cmov InternalNode⦄ ⦃mb : Cmov (Block InternalNode)⦄ (rng : ℕ → ℕ → ℕ) where
  -- The loop of `access_position` over the `left` levels from `i` on.
  unfoldable pub access_levels :
      ℕ
      → ℕ
      → ℕ
      → ℕ
      → List (CircuitOram InternalNode)
      → ℕ
      → ℕ
      → ℕ
      → ℕ
      → ℕ
      → Option (List (CircuitOram InternalNode) × ℕ)
  access_levels h new_pos zero i orams k curr_max_pos curr_k ret new_curr_pos = some (orams, ret)
  access_levels h new_pos (suc left) i [] k curr_max_pos curr_k ret new_curr_pos = none
  access_levels h new_pos (suc left) i (oram ∷ orams) k curr_max_pos curr_k ret new_curr_pos = do
    let mask = bit_and k maskn
    let k' = k / 2 ^ leveln_bits
    let curr_max_pos' = curr_max_pos * 2 ^ leveln_bits % 2 ^ 32
    next_curr_pos ← if h == suc i then some new_pos else random_range rng (suc i) curr_max_pos'
    (oram', found, nextpos) ←
        update oram ret new_curr_pos curr_k (access_node mask dummy_pos next_curr_pos)
    let curr_k' = bit_or (curr_k * 2 ^ leveln_bits % 2 ^ 64) mask
    rest ←
        asserted found (
          access_levels h new_pos left (suc i) orams k' curr_max_pos' curr_k' nextpos next_curr_pos)
    some (oram' ∷ rest.0, rest.1)

  -- The new map, and the previous position of the key.
  unfoldable pub access_position : RecursivePositionMap → ℕ → ℕ → Option (RecursivePositionMap × ℕ)
  access_position self k new_pos =
      if ltb new_pos (self.n % 2 ^ 32)
      then (do
        let curr_k = bit_and k mask0
        let k' = k / 2 ^ level0_bits
        let curr_max_pos = 2 ^ level0_bits
        new_curr_pos ← if self.h == 0 then some new_pos else random_range rng 0 curr_max_pos
        let level0_bucket_idx = curr_k / 2 ^ leveln_bits
        level0_bucket ← Linear.read self.linear_oram level0_bucket_idx node_default.default
        let accessed = access_node (bit_and curr_k maskn) 0 new_curr_pos level0_bucket
        out ←
            access_levels self.h new_pos self.h 0 self.recursive_orams k' curr_max_pos curr_k
              accessed.1 new_curr_pos
        some (
          record {
            linear_oram = Linear.write self.linear_oram level0_bucket_idx accessed.0;
            recursive_orams = out.0;
            n = self.n;
            h = self.h;
          },
          out.1,
        ))
      else none

-- `ilog(fan_out)` of a number that is not 0.
unfoldable pub ilog_loop : ℕ → ℕ → ℕ
ilog_loop zero n = 0
ilog_loop (suc rounds) n =
    let rest = ilog_loop rounds (n / fan_out) in if ltb n fan_out then 0 else suc rest

-- The number of levels below the first that `new` makes.
abbrev pub levels_of : ℕ → ℕ
levels_of n =
    let h = if leb n linear_map_size then 0 else ilog_loop 64 (n / linear_map_size) in
    if ltb (linear_map_size * fan_out ^ h) n then h + 1 else h

-- The numbers from `i` on.
abbrev pub range : ℕ → ℕ → List ℕ
range zero i = []
range (suc n) i = i ∷ range n (suc i)

-- The nodes of a level, each with `fan_out` of the positions.
abbrev pub nodes_of : ℕ → List ℕ → List InternalNode
nodes_of zero positions = []
nodes_of (suc curr) positions =
    record { positions = take fan_out positions } ∷ nodes_of curr (drop fan_out positions)

-- A first-level bucket: the positions that there are, and dummies.
abbrev pub inner_of : ℕ → List ℕ → List ℕ
inner_of zero positions = []
inner_of (suc j) [] = dummy_pos ∷ inner_of j []
inner_of (suc j) (position ∷ positions) = position ∷ inner_of j positions

abbrev pub first_level_of : ℕ → List ℕ → List InternalNode
first_level_of zero positions = []
first_level_of (suc buckets) positions =
    record { positions = inner_of fan_out positions }
    ∷ first_level_of buckets (drop fan_out positions)

-- So many draws, the first of them the `start`-th.
unfoldable pub random_positions : (ℕ → ℕ → ℕ) → ℕ → ℕ → ℕ → Option (List ℕ)
random_positions rng start zero bound = some []
random_positions rng start (suc count) bound = do
  position ← random_range rng start bound
  rest ← random_positions rng (suc start) count bound
  some (position ∷ rest)

-- The empty levels.
unfoldable pub empty_levels : ℕ → ℕ → Option (List (CircuitOram InternalNode))
empty_levels zero curr = some []
empty_levels (suc h) curr = do
  oram ← Circuit.new curr
  rest ← empty_levels h (curr * fan_out)
  some (oram ∷ rest)

module _ ⦃mb : Cmov (Block InternalNode)⦄ (rng : ℕ → ℕ → ℕ) where
  -- The loop of `new` from the last level up: the levels, and the positions of the first one.
  unfoldable pub fill_levels :
      ℕ
      → ℕ
      → ℕ
      → List ℕ
      → List (CircuitOram InternalNode)
      → Option (List (CircuitOram InternalNode) × List ℕ)
  fill_levels zero start curr positions orams = some (orams, positions)
  fill_levels (suc i) start curr positions orams = do
    let curr' = curr / fan_out
    positions' ← random_positions rng start (curr' % 2 ^ 32) (curr' % 2 ^ 32)
    oram ← new_with_positions_and_values curr' (range curr' 0) (nodes_of curr' positions) positions'
    orams' ← store orams i oram
    fill_levels i (start + curr') curr' positions' orams'

  unfoldable pub new : ℕ → Option RecursivePositionMap
  new n =
      let h = levels_of n in
      let l0_buckets = min ((n + fan_out - 1) / fan_out) level_0_buckets in
      let size = linear_map_size * fan_out ^ h in
      asserted (ltb 0 n) (
        asserted (leb n size) (
          asserted (ltb size (2 ^ 64)) (do
            let first = min linear_map_size n
            data_maps ← empty_levels h first
            let curr = first * fan_out ^ h
            positions ← random_positions rng 0 curr (min curr n % 2 ^ 32)
            filled ← fill_levels h curr curr positions data_maps
            some (record {
              linear_oram = record { entries = first_level_of l0_buckets filled.1 };
              recursive_orams = filled.0;
              n = n;
              h = h;
            }))))
