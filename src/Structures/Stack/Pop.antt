-- ===== src/Structures/Stack/Pop.antt =====
-- crates/datastructures/src/stack.rs: `maybe_pop`, and a push after it.
use mathlib.Core.Option.{some-injective}
use rostl.Base.{
  ℕ, suc, ◌+◌, ◌-◌, ◌%◌, ◌^◌, ◌<◌, ◌≡◌, refl, ap, sym, subst, ◌∙◌, arith, true, List, [], ◌∷◌,
  length, Option, some, none, inl, inr, lt→ltb, ltb, take, if◌then◌else◌, Bool-cases, ◌>>=◌,
}
use rostl.Primitives.{Cmov}
use rostl.Primitives.Usize.{checked_add_lem}
use rostl.Oram.Linear.{Default}
use rostl.Oram.Circuit.{CircuitOram}
use rostl.Oram.Circuit.Blocks.{Zeroable, Block, dummy_pos, stash_size}
use rostl.Oram.Circuit.Passes.{any_empty}
use rostl.Oram.Circuit.Filled.{one}
use rostl.Oram.Circuit.Operations.{if_room}
use rostl.Oram.Circuit.Client.{write_or_insert-Accessed}
use rostl.Oram.Circuit.ClientReads.{read-Accessed}
use rostl.Oram.Circuit.Elements.{with_key, any_block, value_or}
use rostl.Oram.Circuit.Entries.{
  held, removed-held, held_after, held_other, held-Located, full_block,
}
use rostl.Structures.Stack.{
  Stack, StackElement, element_default, element_zeroable, maybe_pop, maybe_push,
}
use rostl.Structures.Stack.Invariant.{
  element_block, IsStack, Chain-kept, StackElement-set, max_n-lt, some_draw, room_then,
}

module _ {A : Type 0} ⦃d : Default A⦄ ⦃z : Zeroable A⦄ ⦃m : Cmov A⦄ ⦃me : Cmov (StackElement A)⦄
    ⦃mb : Cmov (Block (StackElement A))⦄ (Aset : IsSet A) (rng : ℕ → ℕ → ℕ) (x : A) (xs : List A)
    (self : Stack A) (t : IsStack (x ∷ xs) self)
    (room : any_empty (take stash_size self.oram.stash) ≡ true)
    (draw : rng 0 self.oram.max_n < self.oram.max_n) where
  -- maybe_pop of a stack that is not empty, when it is told to pop, with room in the stash and a
  -- draw below the number of leaves: it gives the top element, and computes the stack of the others.
  -- The element's block stays in the memory. It panics exactly when no slot of the new stash is
  -- empty.
  pub maybe_pop-IsStack :
      (ret : A)
      → (out : Stack A) × IsStack xs out
        × (out.oram.max_n ≡ self.oram.max_n)
        × (held out.oram (suc (length xs))
            ≡ element_block self.top (suc (length xs)) x out.top ∷ [])
        × (maybe_pop rng self true ret ≡ if_room out.oram (out, x))
  unfolding maybe_pop
  maybe_pop-IsStack ret =
      let (next, inside, here, rest) = t.chain in
      let Vset = StackElement-set Aset in
      let small = max_n-lt self.oram t.state in
      let key = self.size in
      let here' : held self.oram key ≡ element_block self.top key x next ∷ [] =
        subst (λ k. held self.oram k ≡ element_block self.top k x next ∷ []) (sym t.size) here in
      let (removed, oram, a, done) =
        read-Accessed self.oram self.top self.top key element_default.default
          (record {
            state = t.state;
            inside = inside;
            room = room;
            located = held-Located self.oram key self.top (record { value = x; next = next }) here';
          })
          (inl inside) in
      let found : removed ≡ element_block self.top key x next ∷ [] =
        removed-held Vset a (omega (arith, ap length here')) ∙ here' in
      let block = λ (r : List (Block (StackElement A))).
        let b : Block (StackElement A) = record {
          pos = if any_block r then self.top else dummy_pos;
          key = key;
          value = value_or element_default.default r;
        } in
        b in
      let after : held oram key ≡ element_block self.top key x next ∷ [] =
        held_after Vset a
        ∙ ap (λ r. with_key key (one (block r))) found
        ∙ full_block self.top key (record { value = x; next = next })
            (omega (arith, inside, small)) in
      let others = held_other Vset a in
      let done' =
        done
        ∙ ap (λ r. if_room oram (oram, any_block r, value_or element_default.default r)) found in
      let less : (self.size + 2 ^ 64 - 1) % 2 ^ 64 ≡ length xs =
        omega (arith, t.size, t.fits, small) in
      let out : Stack A = record { oram = oram; top = next; size = length xs } in
      (
        out,
        record {
          state = a.state;
          size = refl;
          fits = omega (arith, t.fits, a.max_n);
          chain =
              Chain-kept self.oram oram next xs a.max_n
                (λ k h. others k refl (λ e. omega (arith, e, h, t.size))) rest;
        },
        a.max_n,
        subst (λ k. held oram k ≡ element_block self.top k x next ∷ []) t.size after,
        rw
            (
              lt→ltb 0 self.size (omega (arith, t.size)),
              some_draw self.oram t.state rng 0 draw,
              done',
            )
            (room_then oram (oram, true, record { value = x; next = next }) _ (out, x)
              (rw (m.cmov_lem ret x true, less) refl)),
      )

module _ {V B : Type 0} where
  -- What an operation returns when there is room.
  returned :
      (out : CircuitOram V) (x y : B)
      → if_room out x ≡ some y
      → (any_empty (take stash_size out.stash) ≡ true) × (x ≡ y)
  returned out x y e = elim (Bool-cases (any_empty (take stash_size out.stash))) [
    | inl g ↦ (g, some-injective x y (rw g at e))
    | inr g ↦ absurd (cc (rw g at e))
  ]

  -- What panics after an operation panics also if the stash has no room.
  room_none :
      {C : Type 0} (out : CircuitOram V) (x : B) (f : B → Option C)
      → f x ≡ none
      → (if_room out x >>= f) ≡ none
  room_none out x f e = elim (Bool-cases (any_empty (take stash_size out.stash))) [
    | inl g ↦ rw g e
    | inr g ↦ rw g refl
  ]

module _ {A : Type 0} ⦃d : Default A⦄ ⦃z : Zeroable A⦄ ⦃mb : Cmov (Block (StackElement A))⦄
    (Aset : IsSet A) where
  -- A push whose path has a block of the new key panics.
  push_stale :
      (rng : ℕ → ℕ → ℕ) (xs : List A) (self : Stack A) (x y : A) (pos next : ℕ)
      → IsStack xs self
      → any_empty (take stash_size self.oram.stash) ≡ true
      → held self.oram (suc (length xs)) ≡ element_block pos (suc (length xs)) x next ∷ []
      → rng 0 self.oram.max_n ≡ pos
      → pos < self.oram.max_n
      → rng 1 self.oram.max_n < self.oram.max_n
      → maybe_push rng self true y ≡ none
  unfolding maybe_push
  push_stale rng xs self x y pos next t room stale same inside draw =
      let max_n = self.oram.max_n in
      let small = max_n-lt self.oram t.state in
      let id : self.size + 1 ≡ suc (length xs) = omega (arith, t.size) in
      let Vset = StackElement-set Aset in
      let (removed, oram, a, done) =
        write_or_insert-Accessed self.oram pos (rng 1 max_n) (suc (length xs))
          (record { value = y; next = self.top })
          (record {
            state = t.state;
            inside = inside;
            room = room;
            located =
                held-Located self.oram (suc (length xs)) pos (record { value = x; next = next })
                  stale;
          })
          (inl draw) in
      let found : removed ≡ element_block pos (suc (length xs)) x next ∷ [] =
        removed-held Vset a (omega (arith, ap length stale)) ∙ stale in
      let done' = done ∙ ap (λ r. if_room oram (oram, any_block r)) found in
      elim (Bool-cases (ltb self.size max_n)) [
        | inr full ↦ rw full refl
        | inl space ↦
            rw
              (
                space,
                checked_add_lem self.size 1 (omega (arith, t.size, t.fits, small)),
                some_draw self.oram t.state rng 0 (omega (arith, same, inside)),
                some_draw self.oram t.state rng 1 draw,
                id,
                same,
                done',
              )
              (room_none oram (oram, true) _ refl)
      ]

module _ {A : Type 0} ⦃d : Default A⦄ ⦃z : Zeroable A⦄ ⦃m : Cmov A⦄ ⦃me : Cmov (StackElement A)⦄
    ⦃mb : Cmov (Block (StackElement A))⦄ (Aset : IsSet A) where
  -- After a maybe_pop of a stack with an element that has returned, a maybe_push panics if its first
  -- draw is the position of the element that was popped: the element's block is still in the memory,
  -- under the key of the new one.
  pub maybe_push-maybe_pop :
      (rng rng' : ℕ → ℕ → ℕ) (x : A) (xs : List A) (self after : Stack A) (ret out y : A)
      → IsStack (x ∷ xs) self
      → any_empty (take stash_size self.oram.stash) ≡ true
      → rng 0 self.oram.max_n < self.oram.max_n
      → maybe_pop rng self true ret ≡ some (after, out)
      → rng' 0 self.oram.max_n ≡ self.top
      → rng' 1 self.oram.max_n < self.oram.max_n
      → maybe_push rng' after true y ≡ none
  maybe_push-maybe_pop rng rng' x xs self after ret out y t room draw popped drawn draw' =
      let (popped_stack, is, same, stale, done) =
        maybe_pop-IsStack Aset rng x xs self t room draw ret in
      let (room', e) =
        returned popped_stack.oram (popped_stack, x) (after, out) (sym done ∙ popped) in
      subst (λ s. maybe_push rng' s true y ≡ none) (ap (λ r. r.0) e)
        (push_stale Aset rng' xs popped_stack x y self.top popped_stack.top is room' stale
          (ap (rng' 0) same ∙ drawn) (omega (arith, t.chain.1, same))
          (subst (λ n. rng' 1 n < n) (sym same) draw'))
