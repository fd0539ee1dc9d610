-- ===== src/Structures/OramArrays/Accesses.antt =====
-- crates/datastructures/src/array.rs: LongArray and DynamicArray, when the position map has its
-- first level only.
use rostl.Base.{
  ℕ, ◌%◌, ◌^◌, ◌≡◌, refl, ap, ◌∙◌, arith, Bool, true, false, some, List, take, ne→==, Bool-cases,
  inl, inr, ◌⊎◌, if◌then◌else◌, ◌>>=◌,
}
use native.Mathlib.Nat.{mod-eq_of_lt}
use rostl.Primitives.{Cmov}
use rostl.Oram.Linear.{Default}
use rostl.Oram.Circuit.{CircuitOram}
use rostl.Oram.Circuit.Blocks.{Zeroable, Block, dummy_pos, stash_size}
use rostl.Oram.Circuit.Passes.{any_empty}
use rostl.Oram.Circuit.Elements.{any_block, value_or}
use rostl.Oram.Circuit.Operations.{if_room}
use rostl.Oram.Circuit.Access
use rostl.Oram.Circuit.Client.{Callable, write_or_insert-Accessed}
use rostl.Oram.Circuit.ClientReads.{read-Accessed, update-Accessed}
use rostl.Oram.Recursive.{RecursivePositionMap, InternalNode, random_range, access_position}
use rostl.Oram.Recursive.Flat
use rostl.Oram.Recursive.Flat.{IsFlat, position_of, access_position-Accessed}
use rostl.Structures.OramArrays.{OramArray, Rng, later, read, write, update}
use rostl.Structures.OramArrays.Invariant.{IsArray, moved-IsArray, Accessible}

either :
    (found : Bool) (new_pos : ℕ)
    → ((if found then new_pos else dummy_pos) ≡ new_pos)
      ⊎ ((if found then new_pos else dummy_pos) ≡ dummy_pos)
either true new_pos = inl refl
either false new_pos = inr refl

room_map :
    {V B C : Type 0} (out : CircuitOram V) (x : B) (f : B → C)
    → (if_room out x >>= λ y. some (f y)) ≡ if_room out (f x)
room_map out x f = elim (Bool-cases (any_empty (take stash_size out.stash))) [
  | inl e ↦ rw e refl
  | inr e ↦ rw e refl
]

module _ {A : Type 0} ⦃m : Cmov A⦄ ⦃mb : Cmov (Block A)⦄ ⦃d : Default A⦄ ⦃z : Zeroable A⦄
    ⦃mn : Cmov InternalNode⦄ ⦃mnb : Cmov (Block InternalNode)⦄ (rng : Rng) (len : ℕ)
    (self : OramArray A) (index : ℕ) where
  callable :
      Accessible rng len self index → Callable self.oram (position_of self.pos_map index) index
  callable c = record {
    state = c.array.state;
    inside = omega (arith, c.array.inside index c.inside, c.array.leaves);
    room = c.room;
    located = c.array.located index c.inside;
  }

  looked_up :
      Accessible rng len self index
      → (pos_map : RecursivePositionMap) × (access_position
            (later rng)
            self.pos_map
            index
            (rng 0 len)
          ≡ some (pos_map, position_of self.pos_map index))
        × Flat.Accessed self.pos_map index (rng 0 len) pos_map
  looked_up c =
      access_position-Accessed (later rng) self.pos_map index (rng 0 len) c.array.flat
        (omega (arith, c.inside, c.array.indices)) (omega (arith, c.draw, c.array.covers))
        (omega (arith, c.bound, c.array.covers))

  some_draw : Accessible rng len self index → random_range rng 0 (len % 2 ^ 32) ≡ some (rng 0 len)
  some_draw c = rw (mod-eq_of_lt c.bound, ne→== len 0 (λ e. omega (arith, e, c.inside))) refl

  -- `write` of an array that can be accessed at the index: the result is an array again, in which
  -- the index has the new block and the other blocks are kept. It panics exactly when no slot of
  -- the new stash is empty.
  pub write-IsArray :
      (value : A)
      → Accessible rng len self index
      → (removed : List (Block A)) × (out : OramArray A) × IsArray len out
        × Access.Accessed self.oram index
            (record { pos = rng 0 len; key = index; value = value })
            removed
            out.oram
        × (write rng len self index value ≡ if_room out.oram out)
  unfolding write
  write-IsArray value c =
      let new_pos = rng 0 len in
      let (pos_map, found, p) = looked_up c in
      let (removed, oram, a, done) =
        write_or_insert-Accessed self.oram (position_of self.pos_map index) new_pos index value
          (callable c) (inl (omega (arith, c.draw, c.array.leaves))) in
      (
        removed,
        record { oram = oram; pos_map = pos_map },
        moved-IsArray len self c.array index new_pos c.inside c.draw pos_map oram _ removed p a refl
            (inl refl),
        a,
        rw (some_draw c, found, done)
            (room_map oram (oram, any_block removed)
              (λ r. record { oram = r.0; pos_map = pos_map })),
      )

  -- `read` of an array that can be accessed at the index gives the value of the index's block, or
  -- keeps `out`: the result is an array again, in which the block has moved to its new position
  -- and the other blocks are kept. It panics exactly when no slot of the new stash is empty.
  pub read-IsArray :
      (value : A)
      → Accessible rng len self index
      → (removed : List (Block A)) × (out : OramArray A) × IsArray len out
        × Access.Accessed self.oram index
            (record {
              pos = if any_block removed then rng 0 len else dummy_pos;
              key = index;
              value = value_or value removed;
            })
            removed
            out.oram
        × (read rng len self index value ≡ if_room out.oram (out, value_or value removed))
  unfolding read
  read-IsArray value c =
      let new_pos = rng 0 len in
      let (pos_map, found, p) = looked_up c in
      let (removed, oram, a, done) =
        read-Accessed self.oram (position_of self.pos_map index) new_pos index value (callable c)
          (inl (omega (arith, c.draw, c.array.leaves))) in
      (
        removed,
        record { oram = oram; pos_map = pos_map },
        moved-IsArray len self c.array index new_pos c.inside c.draw pos_map oram _ removed p a refl
            (either (any_block removed) new_pos),
        a,
        rw (some_draw c, found, done)
            (room_map oram (oram, any_block removed, value_or value removed)
              (λ r. (record { oram = r.0; pos_map = pos_map }, r.2))),
      )

  -- `update` of an array that can be accessed at the index applies the function to the block's
  -- value, or to the default: the result is an array again, in which the index has the block with
  -- the new value and the other blocks are kept. It panics exactly when no slot of the new stash
  -- is empty.
  pub update-IsArray :
      {R : Type 0} (update_func : A → A × R)
      → Accessible rng len self index
      → (removed : List (Block A)) × (out : OramArray A) × IsArray len out
        × Access.Accessed self.oram index
            (record {
              pos = rng 0 len;
              key = index;
              value = (update_func (value_or d.default removed)).0;
            })
            removed
            out.oram
        × (update rng self index update_func
            ≡ if_room out.oram
                (out, any_block removed, (update_func (value_or d.default removed)).1))
  unfolding update
  update-IsArray update_func c =
      let new_pos = rng 0 len in
      let (pos_map, found, p) = looked_up c in
      let (removed, oram, a, done) =
        update-Accessed self.oram (position_of self.pos_map index) new_pos index update_func
          (callable c) (omega (arith, c.draw, c.array.leaves)) in
      (
        removed,
        record { oram = oram; pos_map = pos_map },
        moved-IsArray len self c.array index new_pos c.inside c.draw pos_map oram _ removed p a refl
            (inl refl),
        a,
        rw (ap (λ n. random_range rng 0 (n % 2 ^ 32)) c.array.covers ∙ some_draw c, found, done)
            (room_map oram (oram, any_block removed, (update_func (value_or d.default removed)).1)
              (λ r. (record { oram = r.0; pos_map = pos_map }, r.1, r.2))),
      )
