-- ===== src/Structures/Stack/Push.antt =====
-- crates/datastructures/src/stack.rs: the new stack, and `maybe_push`.
use rostl.Base.{
  ℕ, suc, ◌+◌, ◌^◌, ◌≤◌, ◌<◌, ◌≡◌, refl, ap, ◌∙◌, arith, Bool, true, false, List, [], ◌∷◌, length,
  inl, inr, lt→ltb, take, if◌then◌else◌, Returns, Returns-bind, returns, Bool-cases, eq→==, ◌==◌,
  ==_iff, ◌⊎◌,
}
use rostl.Primitives.{Cmov}
use rostl.Primitives.Usize.{checked_add_lem}
use rostl.Oram.Linear.{Default}
use rostl.Oram.Circuit.{CircuitOram}
use rostl.Oram.Circuit.Blocks.{Zeroable, Block, dummy_pos, stash_size}
use rostl.Oram.Circuit.Passes.{any_empty}
use rostl.Oram.Circuit.Filled.{one}
use rostl.Oram.Circuit.State.{IsCircuitOram}
use rostl.Oram.Circuit.Operations.{if_room}
use rostl.Oram.Circuit.Client.{write_or_insert-Accessed}
use rostl.Oram.Circuit.Elements.{with_key, any_block}
use rostl.Oram.Circuit.Entries.{
  held, removed-held, held_after, held_other, unheld-Located, full_block,
}
use rostl.Oram.Circuit.New.{new-Fresh}
use rostl.Oram.Circuit.Ops.{write_or_insert}
use rostl.Structures.Stack.{Stack, StackElement, element_default, element_zeroable, new, maybe_push}
use rostl.Structures.Stack.Invariant.{
  element_block, IsStack, Unused, Chain-kept, StackElement-set, max_n-lt, some_draw, room_then,
}

abbrev pub pushed : {A : Type 0} → Bool → A → List A → List A
pushed real x xs = if real then x ∷ xs else xs

module _ {A : Type 0} ⦃d : Default A⦄ ⦃z : Zeroable A⦄ ⦃mb : Cmov (Block (StackElement A))⦄ where
  -- A new stack is empty.
  pub new-IsStack :
      (n : ℕ)
      → 1 < n
      → n ≤ 2 ^ 31
      → Returns
          (λ out.
            IsStack {A = A} [] out
            × Unused out 0
            × (any_empty (take stash_size out.oram.stash) ≡ true))
          (new n)
  unfolding new
  new-IsStack n low high = Returns-bind (new-Fresh n low high) λ oram o. returns (
    record { state = o.state; size = refl; fits = omega arith; chain = refl },
    (λ k h. ap (with_key k) o.empty),
    o.room,
  )

module _ {A : Type 0} ⦃d : Default A⦄ ⦃z : Zeroable A⦄ ⦃mb : Cmov (Block (StackElement A))⦄
    (Aset : IsSet A) (rng : ℕ → ℕ → ℕ) (xs : List A) (self : Stack A) (t : IsStack xs self)
    (unused : Unused self (length xs)) (room : any_empty (take stash_size self.oram.stash) ≡ true)
    (draws : (i : ℕ) → rng i self.oram.max_n < self.oram.max_n) where
  key : ℕ
  key = suc (length xs)

  -- The write of the new element, at its position or at the dummy one.
  record Inserted (new_pos : ℕ) (x : A) : Type 0 where
    oram : CircuitOram (StackElement A)
    state : IsCircuitOram oram
    max_n : oram.max_n ≡ self.oram.max_n
    result :
        write_or_insert self.oram
          (rng 0 self.oram.max_n)
          new_pos
          key
          (record { value = x; next = self.top })
        ≡ if_room oram (oram, false)
    after : held oram key ≡ with_key key (one (element_block new_pos key x self.top))
    others : (k : ℕ) → ¬ (k ≡ key) → length (held self.oram k) ≤ 1 → held oram k ≡ held self.oram k

  insertion :
      (new_pos : ℕ) (x : A)
      → (new_pos < self.oram.max_n) ⊎ (new_pos ≡ dummy_pos)
      → Inserted new_pos x
  unfolding key
  insertion new_pos x placed =
      let none_here = unused key (omega arith) in
      let (removed, oram, a, done) =
        write_or_insert-Accessed self.oram (rng 0 self.oram.max_n) new_pos key
          (record { value = x; next = self.top })
          (record {
            state = t.state;
            inside = draws 0;
            room = room;
            located = unheld-Located self.oram key (rng 0 self.oram.max_n) none_here;
          })
          placed in
      let Vset = StackElement-set Aset in
      let gone : removed ≡ [] =
        removed-held Vset a (omega (arith, ap length none_here)) ∙ none_here in
      record {
        oram = oram;
        state = a.state;
        max_n = a.max_n;
        result = done ∙ ap (λ r. if_room oram (oram, any_block r)) gone;
        after = held_after Vset a;
        others = λ k ne h. held_other Vset a k refl ne h;
      }

  empty_block :
      (x_key : ℕ) (x : A) (next : ℕ)
      → with_key x_key (one (element_block dummy_pos x_key x next)) ≡ []
  empty_block x_key x next = refl

  -- The stack after the write.
  Pushed : Bool → A → Stack A → Type 0
  Pushed real x out =
      IsStack (pushed real x xs) out
      × Unused out (length (pushed real x xs))
      × (maybe_push rng self real x ≡ if_room out.oram out)

  push_real : (x : A) → length xs < self.oram.max_n → (out : Stack A) × Pushed true x out
  unfolding Pushed maybe_push key
  push_real x space =
      let new_pos = rng 1 self.oram.max_n in
      let i = insertion new_pos x (inl (draws 1)) in
      let small = max_n-lt self.oram t.state in
      let id : self.size + 1 ≡ key = omega (arith, t.size) in
      let out : Stack A = record { oram = i.oram; top = new_pos; size = key } in
      (
        out,
        (
          record {
            state = i.state;
            size = refl;
            fits = omega (arith, space, i.max_n);
            chain = (
              self.top,
              omega (arith, draws 1, i.max_n),
              i.after
                  ∙ full_block new_pos key (record { value = x; next = self.top })
                      (omega (arith, draws 1, small)),
              Chain-kept self.oram i.oram self.top xs i.max_n
                  (λ k h one_at_most. i.others k (λ e. omega (arith, e, h)) one_at_most) t.chain,
            );
          },
          (λ k h.
              let none_here = unused k (omega (arith, h)) in
              i.others k (λ e. omega (arith, e, h)) (omega (arith, ap length none_here))
              ∙ none_here),
          rw
              (
                lt→ltb self.size self.oram.max_n (omega (arith, space, t.size)),
                checked_add_lem self.size 1 (omega (arith, space, small, t.size)),
                some_draw self.oram t.state rng 0 (draws 0),
                some_draw self.oram t.state rng 1 (draws 1),
                id,
                i.result,
              )
              (room_then i.oram (i.oram, false) _ out refl),
        ),
      )

  push_dummy : (x : A) → (out : Stack A) × Pushed false x out
  unfolding Pushed maybe_push key
  push_dummy x =
      let i = insertion dummy_pos x (inr refl) in
      let small = max_n-lt self.oram t.state in
      let id : self.size + 1 ≡ key = omega (arith, t.size) in
      let out : Stack A = record { oram = i.oram; top = self.top; size = self.size } in
      (
        out,
        (
          record {
            state = i.state;
            size = t.size;
            fits = omega (arith, t.fits, i.max_n);
            chain =
                Chain-kept self.oram i.oram self.top xs i.max_n
                  (λ k h one_at_most. i.others k (λ e. omega (arith, e, h)) one_at_most) t.chain;
          },
          (λ k h. elim (Bool-cases (k == key)) [
            | inl e ↦
                let same = (==_iff k key).0 e in
                ap (held i.oram) same ∙ i.after ∙ empty_block key x self.top
            | inr e ↦
                let none_here = unused k h in
                i.others k (λ g. absurd (cc (e, eq→== k key g)))
                  (omega (arith, ap length none_here))
                ∙ none_here
          ]),
          rw
              (
                checked_add_lem self.size 1 (omega (arith, t.fits, small, t.size)),
                some_draw self.oram t.state rng 0 (draws 0),
                some_draw self.oram t.state rng 1 (draws 1),
                id,
                i.result,
              )
              (room_then i.oram (i.oram, false) _ out refl),
        ),
      )

  -- With draws below the number of leaves and room in the stash, maybe_push on a stack whose memory
  -- has no block above its elements computes a stack with the new element on top if it is told to,
  -- which needs less than max_n elements, and else a stack of the same elements; the memory has no
  -- block above them again. Under these conditions it panics exactly when no slot of the new stash
  -- is empty.
  pub maybe_push-IsStack :
      (real : Bool) (x : A)
      → (real ≡ true → length xs < self.oram.max_n)
      → (out : Stack A) × IsStack (pushed real x xs) out
        × Unused out (length (pushed real x xs))
        × (maybe_push rng self real x ≡ if_room out.oram out)
  unfolding Pushed
  maybe_push-IsStack true x space = let (out, p) = push_real x (space refl) in (out, p.0, p.1, p.2)
  maybe_push-IsStack false x space = let (out, p) = push_dummy x in (out, p.0, p.1, p.2)
