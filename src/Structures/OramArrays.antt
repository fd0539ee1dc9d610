-- ===== src/Structures/OramArrays.antt =====
-- crates/datastructures/src/array.rs: LongArray, FixedArray, DynamicArray and MultiWayArray, over a
-- Circuit ORAM and its position map. The random generator of a call is an argument, of whose draws
-- the first is the new position and the others are the position map's. What is written through
-- `&mut` is returned, the array first; `none` is a panic. A constant length is an argument.
pub mod Invariant
pub mod Accesses
pub mod Fresh
pub mod MultiWay
pub mod RealIndex
use rostl.Base.{
  ℕ, zero, suc, ◌+◌, ◌*◌, ◌%◌, ◌^◌, Bool, Option, none, some, List, ◌==◌, leb, ltb, get_elem?, set,
  if◌then◌else◌, ◌>>=◌, for_range,
}
use Prim.Native.Nat.{bit_or}
use rostl.Primitives.{Cmov}
use rostl.Oram.Linear.{Default}
use rostl.Oram.Circuit
use rostl.Oram.Circuit.{CircuitOram}
use rostl.Oram.Circuit.Blocks.{Zeroable, Block, asserted}
use rostl.Oram.Circuit.Ops
use rostl.Oram.Circuit.Ops.{write_or_insert}
use rostl.Oram.Recursive
use rostl.Oram.Recursive.{RecursivePositionMap, InternalNode, random_range, access_position}
use rostl.Structures.ShortArray
use rostl.Structures.ShortArray.{ShortArray}

-- LongArray and DynamicArray have the same fields; the latter's length is the position map's.
pub record OramArray (A : Type 0) : Type 0 where
  -- The source's field `data`.
  pub oram : CircuitOram A
  pub pos_map : RecursivePositionMap

abbrev pub Rng : Type 0
Rng = ℕ → ℕ → ℕ

-- The draws after the first.
abbrev pub later : Rng → Rng
later rng i bound = rng (suc i) bound

module _ {A : Type 0} ⦃m : Cmov A⦄ ⦃mb : Cmov (Block A)⦄ ⦃d : Default A⦄ ⦃z : Zeroable A⦄
    ⦃mn : Cmov InternalNode⦄ ⦃mnb : Cmov (Block InternalNode)⦄ where
  -- `new` of LongArray and of DynamicArray.
  unfoldable pub new : Rng → ℕ → Option (OramArray A)
  new rng n = do
    oram ← Circuit.new n
    pos_map ← Recursive.new rng n
    some (record { oram = oram; pos_map = pos_map })

  -- `read` of LongArray and of DynamicArray of length `len`.
  unfoldable pub read : Rng → ℕ → OramArray A → ℕ → A → Option (OramArray A × A)
  read rng len self index out = do
    new_pos ← random_range rng 0 (len % 2 ^ 32)
    (pos_map, old_pos) ← access_position (later rng) self.pos_map index new_pos
    (oram, found, out') ← Ops.read self.oram old_pos new_pos index out
    some (record { oram = oram; pos_map = pos_map }, out')

  -- `write` of LongArray and of DynamicArray of length `len`.
  unfoldable pub write : Rng → ℕ → OramArray A → ℕ → A → Option (OramArray A)
  write rng len self index value = do
    new_pos ← random_range rng 0 (len % 2 ^ 32)
    (pos_map, old_pos) ← access_position (later rng) self.pos_map index new_pos
    (oram, found) ← write_or_insert self.oram old_pos new_pos index value
    some (record { oram = oram; pos_map = pos_map })

  -- `update` of DynamicArray.
  unfoldable pub update :
      {R : Type 0} → Rng → OramArray A → ℕ → (A → A × R) → Option (OramArray A × Bool × R)
  update rng self index update_func = do
    new_pos ← random_range rng 0 (self.pos_map.n % 2 ^ 32)
    (pos_map, old_pos) ← access_position (later rng) self.pos_map index new_pos
    (oram, found, out) ← Ops.update self.oram old_pos new_pos index update_func
    some (record { oram = oram; pos_map = pos_map }, found, out)

  -- A round of the loop of `resize`, with the generators of its two calls: the old array and the
  -- new one.
  unfoldable pub resize_round :
      (ℕ → Rng) → ℕ → OramArray A × OramArray A → Option (OramArray A × OramArray A)
  resize_round rngs i (self, new_array) = do
    (self', value) ← read (rngs (2 * i + 1)) self.pos_map.n self i d.default
    new_array' ← write (rngs (2 * i + 2)) new_array.pos_map.n new_array i value
    some (self', new_array')

  -- `resize` of DynamicArray.
  unfoldable pub resize : (ℕ → Rng) → OramArray A → ℕ → Option (OramArray A)
  resize rngs self n = do
    new_array ← new (rngs 0) n
    arrays ← for_range self.pos_map.n 0 (resize_round rngs) (self, new_array)
    some arrays.1

abbrev pub LongArray : Type 0 → Type 0
LongArray A = OramArray A

abbrev pub short_array_threshold : ℕ
short_array_threshold = 128

-- The union FixedArray: the variant follows from the length.
pub data FixedArray (A : Type 0) : Type 0 where
  short : ShortArray A → FixedArray A
  long : LongArray A → FixedArray A

module _ {A : Type 0} ⦃m : Cmov A⦄ ⦃mb : Cmov (Block A)⦄ ⦃d : Default A⦄ ⦃z : Zeroable A⦄
    ⦃mn : Cmov InternalNode⦄ ⦃mnb : Cmov (Block InternalNode)⦄ where
  unfoldable pub new_long : Rng → ℕ → Option (LongArray A)
  new_long rng len = new rng len

  unfoldable pub read_long : Rng → ℕ → LongArray A → ℕ → A → Option (LongArray A × A)
  read_long rng len self index out = read rng len self index out

  unfoldable pub write_long : Rng → ℕ → LongArray A → ℕ → A → Option (LongArray A)
  write_long rng len self index value = write rng len self index value

  unfoldable pub new_fixed : Rng → ℕ → Option (FixedArray A)
  new_fixed rng len =
      if leb len short_array_threshold
      then some (short (ShortArray.new len))
      else (do long_array ← new_long rng len; some (long long_array))

  unfoldable pub read_fixed : Rng → ℕ → FixedArray A → ℕ → A → Option (FixedArray A × A)
  read_fixed rng len (short self) index out = some (short self, ShortArray.read self index out)
  read_fixed rng len (long self) index out = do
    (self', out') ← read_long rng len self index out
    some (long self', out')

  unfoldable pub write_fixed : Rng → ℕ → FixedArray A → ℕ → A → Option (FixedArray A)
  write_fixed rng len (short self) index value = some (short (ShortArray.write self index value))
  write_fixed rng len (long self) index value = do
    self' ← write_long rng len self index value
    some (long self')
