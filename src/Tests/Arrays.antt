-- ===== src/Tests/Arrays.antt =====
-- Instances of the theorems on crates/oram/src/recursive_oram.rs and on the arrays over it.
use rostl.Base.{
  ◌^◌, ℕ, zero, suc, ◌<◌, ◌≡◌, refl, arith, List, [], ◌∷◌, some, length, replicate, Returns,
  if◌then◌else◌,
}
use rostl.Primitives.{Cmov}
use rostl.Primitives.Usize.{usize_cmov}
use rostl.Oram.Linear.{Default}
use rostl.Oram.Linear.Access.{entry_or}
use rostl.Oram.Circuit.{CircuitOram, ilog2_loop}
use rostl.Oram.Circuit.Blocks.{Zeroable, Block, default_block, dummy_pos}
use rostl.Oram.Circuit.Passes.{any_empty}
use rostl.Oram.Circuit.State.{IsCircuitOram}
use rostl.Oram.Circuit.Location.{Located}
use rostl.Oram.Circuit.Operations.{if_room}
use rostl.Oram.Circuit.Access
use rostl.Oram.Circuit.New.{fresh_tree, fresh_tree-IsOramTree}
use rostl.Oram.Recursive.{
  RecursivePositionMap, InternalNode, node_default, node_zeroable, access_position,
}
use rostl.Oram.Recursive.Flat
use rostl.Oram.Recursive.Flat.{IsFlat, position_of, access_position-Accessed}
use rostl.Structures.OramArrays
use rostl.Structures.OramArrays.Fresh.{FreshArray, new-FreshArray}
use rostl.Structures.OramArrays.{OramArray, Rng, read, write}
use rostl.Structures.OramArrays.MultiWay.{MultiWayArray, multi_way_len, get_real_index}
use rostl.Structures.OramArrays.RealIndex.{get_real_index_injective}
use rostl.Structures.OramArrays.Invariant.{IsArray, Accessible}
use rostl.Structures.OramArrays.Accesses.{write-IsArray}

instance abbrev pub block_cmov : Cmov (Block ℕ)
block_cmov = record {
  cmov = λ a b c. if c then b else a;
  cxchg = λ a b c. if c then (b, a) else (a, b);
  cmov_lem = λ a b c. refl;
  cxchg_lem = λ a b c. refl;
}

instance abbrev pub node_cmov : Cmov InternalNode
node_cmov = record {
  cmov = λ a b c. if c then b else a;
  cxchg = λ a b c. if c then (b, a) else (a, b);
  cmov_lem = λ a b c. refl;
  cxchg_lem = λ a b c. refl;
}

instance abbrev pub node_block_cmov : Cmov (Block InternalNode)
node_block_cmov = record {
  cmov = λ a b c. if c then b else a;
  cxchg = λ a b c. if c then (b, a) else (a, b);
  cmov_lem = λ a b c. refl;
  cxchg_lem = λ a b c. refl;
}

instance abbrev pub number_default : Default ℕ
number_default = record { default = 0 }

instance abbrev pub number_zeroable : Zeroable ℕ
number_zeroable = record { zeroed = 0 }

-- Two indices, at the positions 1 and 0, of which the first has a block.
abbrev pair_map : RecursivePositionMap
pair_map = record {
  linear_oram = record { entries = record { positions = 1 ∷ 0 ∷ replicate 14 dummy_pos } ∷ [] };
  recursive_orams = [];
  n = 2;
  h = 0;
}

abbrev pair_oram : CircuitOram ℕ
pair_oram = record {
  max_n = 2;
  h = 2;
  stash = record { pos = 1; key = 0; value = 42 } ∷ replicate 23 default_block;
  tree = fresh_tree 2;
  evict_counter = 0;
}

abbrev pub pair : OramArray ℕ
pair = record { oram = pair_oram; pos_map = pair_map }

abbrev pub draws : Rng
draws i bound = 1

pair_map-IsFlat : IsFlat pair_map
pair_map-IsFlat = record { levels = refl; buckets = omega arith; nodes = sizes }
  where
    sizes :
        (i : ℕ)
        → i < 1
        → length (entry_or pair_map.linear_oram.entries i node_default.default).positions ≡ 16
    sizes zero h = refl
    sizes (suc i) h = absurd (omega arith)

pair_oram-IsCircuitOram : IsCircuitOram pair_oram
pair_oram-IsCircuitOram = record {
  tree = fresh_tree-IsOramTree 2 (omega arith);
  height = refl;
  low = omega arith;
  high = omega arith;
  leaves = refl;
  stash = refl;
  counter = omega arith;
}

pub pair-IsArray : IsArray 2 pair
pair-IsArray = record {
  flat = pair_map-IsFlat;
  covers = refl;
  indices = omega arith;
  state = pair_oram-IsCircuitOram;
  leaves = omega arith;
  inside = inside;
  located = located;
}
  where
    inside : (k : ℕ) → k < 2 → position_of pair_map k < 2
    inside zero h = omega arith
    inside (suc zero) h = omega arith
    inside (suc (suc k)) h = absurd (omega arith)

    located : (k : ℕ) → k < 2 → Located pair_oram (position_of pair_map k) k
    located zero h = record { once = omega arith; here = refl }
    located (suc zero) h = record { once = omega arith; here = refl }
    located (suc (suc k)) h = absurd (omega arith)

pair-Accessible : Accessible draws 2 pair 0
unfolding any_empty
pair-Accessible = record {
  array = pair-IsArray;
  room = refl;
  inside = omega arith;
  draw = omega arith;
  bound = omega arith;
}

access_position-Accessed_example :
    (out : RecursivePositionMap) × (access_position draws pair_map 0 1
      ≡ some (out, position_of pair_map 0))
    × Flat.Accessed pair_map 0 1 out
access_position-Accessed_example =
    access_position-Accessed draws pair_map 0 1 pair_map-IsFlat (omega arith) (omega arith)
      (omega arith)

write-IsArray_example :
    (removed : List (Block ℕ)) × (out : OramArray ℕ) × IsArray 2 out
    × Access.Accessed pair_oram 0 (record { pos = 1; key = 0; value = 7 }) removed out.oram
    × (write draws 2 pair 0 7 ≡ if_room out.oram out)
write-IsArray_example = write-IsArray draws 2 pair 0 7 pair-Accessible

abbrev two_ways : MultiWayArray ℕ
two_ways = record { oram = pair_oram; pos_maps = pair_map ∷ pair_map ∷ [] }

two_ways_len : multi_way_len two_ways ≡ some 2
unfolding multi_way_len
two_ways_len = refl

real_index : get_real_index (2 ^ 1) two_ways 1 1 ≡ some 3
unfolding get_real_index multi_way_len ilog2_loop
real_index = refl

abbrev last : ℕ
last = 1

get_real_index_injective_example : (last ≡ last) × (last ≡ last)
get_real_index_injective_example =
    get_real_index_injective two_ways 1 2 (omega arith) two_ways_len (omega arith) last last last
      last 3 real_index real_index

new-FreshArray_example : Returns (FreshArray {A = ℕ} draws 2) (OramArrays.new draws 2)
new-FreshArray_example = new-FreshArray draws 2 (omega arith) (omega arith) (λ j. omega arith)
