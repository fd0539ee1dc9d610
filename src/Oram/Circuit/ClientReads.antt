-- ===== src/Oram/Circuit/ClientReads.antt =====
-- crates/oram/src/circuit_oram.rs: the operations that read a block's value.
use rostl.Base.{ℕ, ◌<◌, ◌≡◌, refl, Bool, true, false, not, List, lt→ltb, ◌⊎◌, if◌then◌else◌}
use rostl.Primitives.{Cmov}
use rostl.Primitives.Usize.{cmov_base}
use rostl.Oram.Linear.{Default}
use rostl.Oram.Circuit.Blocks.{Zeroable, Block, dummy_pos}
use rostl.Oram.Circuit.{CircuitOram}
use rostl.Oram.Circuit.Elements.{any_block, value_or, with_key, read_and_remove_element-without_key}
use rostl.Oram.Circuit.Operations.{if_room}
use rostl.Oram.Circuit.Access.{Accessed, access}
use rostl.Oram.Circuit.Ops.{read, update}
use rostl.Oram.Circuit.Client.{Callable, room_bind, allowed}

when_found :
    (found : Bool) (new_pos : ℕ)
    → cmov_base new_pos dummy_pos (not found) ≡ (if found then new_pos else dummy_pos)
when_found true new_pos = refl
when_found false new_pos = refl

module _ {V : Type 0} ⦃m : Cmov V⦄ ⦃mb : Cmov (Block V)⦄ ⦃d : Default V⦄ ⦃z : Zeroable V⦄
    (self : CircuitOram V) (pos new_pos key : ℕ) where
  -- `read` on a callable state, with a new position below max_n or the dummy one: the key's
  -- block goes to the new position with its value, and all others are kept; the result says
  -- whether there was one, and gives its value or keeps `ret`. Under these conditions it panics exactly when no slot of
  -- the new stash is empty.
  pub read-Accessed :
      (ret : V)
      → Callable self pos key
      → (new_pos < self.max_n) ⊎ (new_pos ≡ dummy_pos)
      → (removed : List (Block V)) × (out : CircuitOram V) × Accessed self key
          (record {
            pos = if any_block removed then new_pos else dummy_pos;
            key = key;
            value = value_or ret removed;
          })
          removed
          out
        × (read self pos new_pos key ret
            ≡ if_room out (out, any_block removed, value_or ret removed))
  unfolding read
  read-Accessed ret c new =
      let a = access self pos key c.state c.inside c.room c.located in
      let removed = with_key key a.stash in
      let block : Block V = record {
        pos = if any_block removed then new_pos else dummy_pos;
        key = key;
        value = value_or ret removed;
      } in
      let (out, e, done) = a.finish block in
      (
        removed,
        out,
        e,
        rw
            (
              lt→ltb pos self.max_n c.inside,
              allowed new_pos self.max_n new,
              a.nodes,
              read_and_remove_element-without_key a.stash key ret a.once,
              when_found (any_block removed) new_pos,
              done,
            )
            (room_bind out (λ s. (s, any_block removed, value_or ret removed))),
      )

  -- `update` on a callable state, with a new position below max_n: the key's blocks are
  -- replaced by one at the new position with what the function makes of the old value, or of the
  -- default, and all others are kept; the result says whether there was one, and gives the
  -- function's result. Under these conditions it panics exactly when no slot of the new stash is empty.
  pub update-Accessed :
      {T : Type 0} (update_func : V → V × T)
      → Callable self pos key
      → new_pos < self.max_n
      → (removed : List (Block V)) × (out : CircuitOram V) × Accessed self key
          (record {
            pos = new_pos;
            key = key;
            value = (update_func (value_or d.default removed)).0;
          })
          removed
          out
        × (update self pos new_pos key update_func
            ≡ if_room out (out, any_block removed, (update_func (value_or d.default removed)).1))
  unfolding update
  update-Accessed update_func c new =
      let a = access self pos key c.state c.inside c.room c.located in
      let removed = with_key key a.stash in
      let (out, e, done) = a.finish (record {
        pos = new_pos;
        key = key;
        value = (update_func (value_or d.default removed)).0;
      }) in
      (
        removed,
        out,
        e,
        rw
            (
              lt→ltb pos self.max_n c.inside,
              lt→ltb new_pos self.max_n new,
              a.nodes,
              read_and_remove_element-without_key a.stash key d.default a.once,
              done,
            )
            (room_bind out
              (λ s. (s, any_block removed, (update_func (value_or d.default removed)).1))),
      )
