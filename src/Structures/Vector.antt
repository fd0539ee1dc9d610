-- ===== src/Structures/Vector.antt =====
-- crates/datastructures/src/vector.rs: EagerVector, over a DynamicArray. The random generator of a
-- call is an argument; `none` is a panic.
pub mod Items
pub mod Methods
use rostl.Base.{ℕ, ◌+◌, ◌-◌, Option, none, some, ◌==◌, ltb, if◌then◌else◌, ◌>>=◌}
use rostl.Primitives.{Cmov}
use rostl.Primitives.Usize.{checked_add}
use rostl.Oram.Linear.{Default}
use rostl.Oram.Circuit.Blocks.{Zeroable, Block, asserted}
use rostl.Oram.Recursive.{InternalNode}
use rostl.Structures.OramArrays
use rostl.Structures.OramArrays.{OramArray, Rng, resize}

pub record EagerVector (A : Type 0) : Type 0 where
  pub n : ℕ
  -- The source's field `data`.
  pub array : OramArray A

-- The length of the underlying array.
abbrev pub capacity : {A : Type 0} → EagerVector A → ℕ
capacity self = self.array.pos_map.n

module _ {A : Type 0} ⦃m : Cmov A⦄ ⦃mb : Cmov (Block A)⦄ ⦃d : Default A⦄ ⦃z : Zeroable A⦄
    ⦃mn : Cmov InternalNode⦄ ⦃mnb : Cmov (Block InternalNode)⦄ where
  unfoldable pub new : Rng → Option (EagerVector A)
  new rng = do array ← OramArrays.new rng 2; some (record { n = 0; array = array })

  unfoldable pub read : Rng → EagerVector A → ℕ → A → Option (EagerVector A × A)
  read rng self index out = asserted (ltb index self.n) (do
    (array, out') ← OramArrays.read rng (capacity self) self.array index out
    some (record { n = self.n; array = array }, out'))

  unfoldable pub write : Rng → EagerVector A → ℕ → A → Option (EagerVector A)
  write rng self index value = asserted (ltb index self.n) (do
    array ← OramArrays.write rng (capacity self) self.array index value
    some (record { n = self.n; array = array }))

  -- A full array is replaced by one of twice the length.
  unfoldable pub grown : (ℕ → Rng) → EagerVector A → Option (OramArray A)
  grown rngs self =
      if self.n == capacity self
      then (do doubled ← checked_add self.n self.n; resize rngs self.array doubled)
      else some self.array

  -- The first generators are those of `resize`, the other one that of the write.
  unfoldable pub push_back : (ℕ → Rng) → Rng → EagerVector A → A → Option (EagerVector A)
  unfolding grown
  push_back rngs rng self value = do
    array ← grown rngs self
    array ← OramArrays.write rng array.pos_map.n array self.n value
    n ← checked_add self.n 1
    some (record { n = n; array = array })

  unfoldable pub pop_back : Rng → EagerVector A → Option (EagerVector A × A)
  pop_back rng self = asserted (ltb 0 self.n) (do
    let n = self.n - 1
    (array, value) ← OramArrays.read rng (capacity self) self.array n d.default
    some (record { n = n; array = array }, value))
