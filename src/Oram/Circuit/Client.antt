-- ===== src/Oram/Circuit/Client.antt =====
-- crates/oram/src/circuit_oram.rs: what the operations may be called with, and the operations that write.
use rostl.Base.{
  ℕ, ◌<◌, ◌≡◌, refl, true, ◌||◌, List, take, ◌==◌, ltb, lt→ltb, eq→==, inl, inr, ◌⊎◌, if◌then◌else◌,
  Bool-cases, some, ◌>>=◌,
}
use rostl.Primitives.{Cmov}
use rostl.Oram.Circuit.Blocks.{Zeroable, Block, dummy_pos, stash_size}
use rostl.Oram.Circuit.{CircuitOram}
use rostl.Oram.Circuit.Passes.{any_empty}
use rostl.Oram.Circuit.Elements.{any_block, with_key, remove_element-without_key}
use rostl.Oram.Circuit.State.{IsCircuitOram}
use rostl.Oram.Circuit.Operations.{if_room}
use rostl.Oram.Circuit.Location.{Located}
use rostl.Oram.Circuit.Access.{Accessed, access}
use rostl.Oram.Circuit.Ops.{write, write_or_insert}

-- What an operation may be called with: a well-formed state with an empty slot in the stash, and
-- the position of the key, if it has a block.
pub record Callable {V : Type 0} (self : CircuitOram V) (pos key : ℕ) : Type 0 where
  pub state : IsCircuitOram self
  pub inside : pos < self.max_n
  pub room : any_empty (take stash_size self.stash) ≡ true
  pub located : Located self pos key

pub room_bind :
    {V B : Type 0} (out : CircuitOram V) (f : CircuitOram V → B)
    → (if_room out out >>= λ s. some (f s)) ≡ if_room out (f out)
room_bind out f = elim (Bool-cases (any_empty (take stash_size out.stash))) [
  | inl e ↦ rw e refl
  | inr e ↦ rw e refl
]

pub allowed :
    (new_pos max_n : ℕ)
    → (new_pos < max_n) ⊎ (new_pos ≡ dummy_pos)
    → (ltb new_pos max_n || new_pos == dummy_pos) ≡ true
allowed new_pos max_n (inl h) = rw (lt→ltb new_pos max_n h) refl
allowed new_pos max_n (inr e) = elim (Bool-cases (ltb new_pos max_n)) [
  | inl h ↦ rw h refl
  | inr h ↦ rw h (eq→== new_pos dummy_pos e)
]

module _ {V : Type 0} ⦃mb : Cmov (Block V)⦄ ⦃z : Zeroable V⦄ (self : CircuitOram V)
    (pos new_pos key : ℕ) where
  -- `write_or_insert` on a callable state, with a new position below max_n or the dummy one:
  -- the key's blocks are replaced by the new block and all others are kept, and the result says
  -- whether there was one. Under these conditions it panics exactly when no slot of the new stash is
  -- empty.
  pub write_or_insert-Accessed :
      (val : V)
      → Callable self pos key
      → (new_pos < self.max_n) ⊎ (new_pos ≡ dummy_pos)
      → (removed : List (Block V)) × (out : CircuitOram V) × Accessed self key
          (record { pos = new_pos; key = key; value = val })
          removed
          out
        × (write_or_insert self pos new_pos key val ≡ if_room out (out, any_block removed))
  unfolding write_or_insert
  write_or_insert-Accessed val c new =
      let a = access self pos key c.state c.inside c.room c.located in
      let removed = with_key key a.stash in
      let (out, e, done) = a.finish (record { pos = new_pos; key = key; value = val }) in
      (
        removed,
        out,
        e,
        rw
            (
              lt→ltb pos self.max_n c.inside,
              allowed new_pos self.max_n new,
              a.nodes,
              remove_element-without_key a.stash key a.once,
              done,
            )
            (room_bind out (λ s. (s, any_block removed))),
      )

  -- `write` on a callable state, with a new position within the tree: the key's block is replaced
  -- by the new block, or, when there is none, no block is added; all others are kept, and the
  -- result says whether there was one. It panics exactly when no slot of the new stash is empty.
  pub write-Accessed :
      (val : V)
      → Callable self pos key
      → new_pos < self.max_n
      → (removed : List (Block V)) × (out : CircuitOram V) × Accessed self key
          (record {
            pos = if any_block removed then new_pos else dummy_pos;
            key = key;
            value = val;
          })
          removed
          out
        × (write self pos new_pos key val ≡ if_room out (out, any_block removed))
  unfolding write
  write-Accessed val c new =
      let a = access self pos key c.state c.inside c.room c.located in
      let removed = with_key key a.stash in
      let (out, e, done) = a.finish (record {
        pos = if any_block removed then new_pos else dummy_pos;
        key = key;
        value = val;
      }) in
      (
        removed,
        out,
        e,
        rw
            (
              lt→ltb pos self.max_n c.inside,
              lt→ltb new_pos self.max_n new,
              a.nodes,
              remove_element-without_key a.stash key a.once,
              done,
            )
            (room_bind out (λ s. (s, any_block removed))),
      )
