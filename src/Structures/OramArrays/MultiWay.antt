-- ===== src/Structures/OramArrays/MultiWay.antt =====
-- crates/datastructures/src/array.rs: MultiWayArray, subarrays over one Circuit ORAM, each with a
-- position map of its own. The number of subarrays is an argument.
use Prim.Native.Nat.{bit_or}
use rostl.Base.{
  ℕ, zero, suc, ◌*◌, ◌%◌, ◌^◌, Bool, ◌&&◌, Option, none, some, List, [], ◌∷◌, ◌==◌, ltb, get_elem?,
  store, if◌then◌else◌, ◌>>=◌,
}
use rostl.Primitives.{Cmov}
use rostl.Oram.Linear.{Default}
use rostl.Oram.Circuit
use rostl.Oram.Circuit.{CircuitOram, ilog2_loop}
use rostl.Oram.Circuit.Blocks.{Zeroable, Block}
use rostl.Oram.Circuit.Ops
use rostl.Oram.Circuit.Ops.{write_or_insert}
use rostl.Oram.Recursive
use rostl.Oram.Recursive.{RecursivePositionMap, InternalNode, random_range, access_position}
use rostl.Structures.OramArrays.{Rng, later}

pub record MultiWayArray (A : Type 0) : Type 0 where
  -- The source's fields `data` and `pos_map`.
  pub oram : CircuitOram A
  pub pos_maps : List RecursivePositionMap

unfoldable pub multi_way_len : {A : Type 0} → MultiWayArray A → Option ℕ
multi_way_len self = do first ← get_elem? self.pos_maps 0; some first.n

-- The index in the memory: the subarray is in its low bits.
unfoldable pub get_real_index : {A : Type 0} → ℕ → MultiWayArray A → ℕ → ℕ → Option ℕ
get_real_index ways self subarray index = do
  len ← multi_way_len self
  if ltb subarray ways && ltb index len
      then some (bit_or (index * 2 ^ ilog2_loop 64 ways % 2 ^ 64) subarray)
      else none

module _ ⦃mnb : Cmov (Block InternalNode)⦄ where
  -- The position maps, each with a generator of its own.
  unfoldable pub new_maps : (ℕ → Rng) → ℕ → ℕ → Option (List RecursivePositionMap)
  new_maps rngs n zero = some []
  new_maps rngs n (suc ways) = do
    pos_map ← Recursive.new (rngs ways) n
    rest ← new_maps rngs n ways
    some (pos_map ∷ rest)

module _ {A : Type 0} ⦃m : Cmov A⦄ ⦃mb : Cmov (Block A)⦄ ⦃d : Default A⦄ ⦃z : Zeroable A⦄
    ⦃mn : Cmov InternalNode⦄ ⦃mnb : Cmov (Block InternalNode)⦄ where
  unfoldable pub new_multi_way : (ℕ → Rng) → ℕ → ℕ → Option (MultiWayArray A)
  new_multi_way rngs ways n =
      if 2 ^ ilog2_loop 64 ways == ways
      then (do
        oram ← Circuit.new n
        pos_maps ← new_maps rngs n ways
        some (record { oram = oram; pos_maps = pos_maps }))
      else none

  -- What the operations begin with: the new position, the position maps, the old position and the
  -- index in the memory.
  unfoldable pub locate :
      Rng → ℕ → MultiWayArray A → ℕ → ℕ → Option (ℕ × List RecursivePositionMap × ℕ × ℕ)
  locate rng ways self subarray index = do
    len ← multi_way_len self
    new_pos ← random_range rng 0 (len % 2 ^ 32)
    pos_map ← get_elem? self.pos_maps subarray
    (pos_map', old_pos) ← access_position (later rng) pos_map index new_pos
    pos_maps ← store self.pos_maps subarray pos_map'
    real_index ← get_real_index ways self subarray index
    some (new_pos, pos_maps, old_pos, real_index)

  unfoldable pub read_multi_way :
      Rng → ℕ → MultiWayArray A → ℕ → ℕ → A → Option (MultiWayArray A × A)
  read_multi_way rng ways self subarray index out = do
    (new_pos, pos_maps, old_pos, real_index) ← locate rng ways self subarray index
    (oram, found, out') ← Ops.read self.oram old_pos new_pos real_index out
    some (record { oram = oram; pos_maps = pos_maps }, out')

  unfoldable pub write_multi_way : Rng → ℕ → MultiWayArray A → ℕ → ℕ → A → Option (MultiWayArray A)
  write_multi_way rng ways self subarray index value = do
    (new_pos, pos_maps, old_pos, real_index) ← locate rng ways self subarray index
    (oram, found) ← write_or_insert self.oram old_pos new_pos real_index value
    some (record { oram = oram; pos_maps = pos_maps })

  unfoldable pub update_multi_way :
      {R : Type 0}
      → Rng
      → ℕ
      → MultiWayArray A
      → ℕ
      → ℕ
      → (A → A × R)
      → Option (MultiWayArray A × Bool × R)
  update_multi_way rng ways self subarray index update_func = do
    (new_pos, pos_maps, old_pos, real_index) ← locate rng ways self subarray index
    (oram, found, out) ← Ops.update self.oram old_pos new_pos real_index update_func
    some (record { oram = oram; pos_maps = pos_maps }, found, out)
