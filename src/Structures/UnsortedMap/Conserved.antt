-- ===== src/Structures/UnsortedMap/Conserved.antt =====
-- crates/datastructures/src/map.rs: what try_insert_entry does with a bucket loses no element.
use mathlib.Core.List.Perm
use rostl.Base.{
  ℕ, zero, suc, ◌<◌, ◌≡◌, refl, ap, sym, ◌∙◌, Bool, true, false, not, ◌&&◌, ◌||◌, List, [], ◌∷◌,
  Perm, length, arith, if◌then◌else◌, Bool-cases, inl, inr,
}
use rostl.Primitives.{Cmov}
use rostl.Structures.UnsortedMap.Buckets.{
  InlineElement, Bucket, insert_slots, insert_if_available, exchange_at,
}
use rostl.Structures.UnsortedMap.{insert_or_exchange}

module _ {A : Type 0} where
  -- The elements of the valid slots.
  abbrev pub entries : List Bool → List A → List A
  entries [] elements = []
  entries (v ∷ valid) [] = []
  entries (v ∷ valid) (e ∷ elements) =
      let rest = entries valid elements in if v then e ∷ rest else rest

  -- The elements, with the one in hand unless it is done.
  abbrev pub with_pending : Bool → A → List A → List A
  with_pending done e xs = if done then xs else e ∷ xs

  pending_cons :
      (done : Bool) (e x : A) (xs ys : List A)
      → Perm (with_pending done e xs) (e ∷ ys)
      → Perm (with_pending done e (x ∷ xs)) (e ∷ x ∷ ys)
  pending_cons true e x xs ys p = Perm.trans (Perm.cons x p) (Perm.swap e x ys)
  pending_cons false e x xs ys p =
      Perm.trans (Perm.swap x e xs) (Perm.trans (Perm.cons x p) (Perm.swap e x ys))

module _ {K V : Type 0} ⦃me : Cmov (InlineElement K V)⦄ where
  done_insert_slots :
      (element : InlineElement K V) (valid : List Bool) (elements : List (InlineElement K V))
      → insert_slots element valid elements true ≡ (valid, elements, true)
  unfolding insert_slots
  done_insert_slots element [] elements = refl
  done_insert_slots element (true ∷ valid) [] = refl
  done_insert_slots element (false ∷ valid) [] = refl
  done_insert_slots element (true ∷ valid) (e ∷ elements) =
      rw (me.cmov_lem e element false, done_insert_slots element valid elements) refl
  done_insert_slots element (false ∷ valid) (e ∷ elements) =
      rw (me.cmov_lem e element false, done_insert_slots element valid elements) refl

  insert_slots-Perm :
      (element : InlineElement K V) (valid : List Bool) (elements : List (InlineElement K V))
      → let r = insert_slots element valid elements false in
        Perm (with_pending r.2 element (entries r.0 r.1)) (element ∷ entries valid elements)
  unfolding insert_slots
  insert_slots-Perm element [] elements = Perm.rfl
  insert_slots-Perm element (v ∷ valid) [] = Perm.rfl
  insert_slots-Perm element (true ∷ valid) (e ∷ elements) =
      let r = insert_slots element valid elements false in
      rw (me.cmov_lem e element false) (
        pending_cons r.2 element e (entries r.0 r.1) (entries valid elements)
          (insert_slots-Perm element valid elements))
  insert_slots-Perm element (false ∷ valid) (e ∷ elements) =
      rw (me.cmov_lem e element true, done_insert_slots element valid elements) Perm.rfl

  length-insert_slots :
      (element : InlineElement K V) (valid : List Bool) (elements : List (InlineElement K V))
      (inserted : Bool)
      → let r = insert_slots element valid elements inserted in
        (length r.0 ≡ length valid) × (length r.1 ≡ length elements)
  unfolding insert_slots
  length-insert_slots element [] elements inserted = (refl, refl)
  length-insert_slots element (v ∷ valid) [] inserted = (refl, refl)
  length-insert_slots element (v ∷ valid) (e ∷ elements) inserted =
      let (valids, sizes) =
        length-insert_slots element valid elements (inserted || (not inserted && not v)) in
      (ap suc valids, ap suc sizes)

  -- When the loop finds no free slot, every slot is valid.
  entries-full :
      (element : InlineElement K V) (valid : List Bool) (elements es : List (InlineElement K V))
      → length valid ≡ length elements
      → length es ≡ length valid
      → (insert_slots element valid elements false).2 ≡ false
      → entries (insert_slots element valid elements false).0 es ≡ es
  unfolding insert_slots
  entries-full element [] elements [] s t f = refl
  entries-full element [] elements (x ∷ es) s t f = absurd (omega (arith, t))
  entries-full element (v ∷ valid) [] es s t f = absurd (omega (arith, s))
  entries-full element (v ∷ valid) (e ∷ elements) [] s t f = absurd (omega (arith, t))
  entries-full element (true ∷ valid) (e ∷ elements) (x ∷ es) s t f =
      ap (λ l. x ∷ l)
        (entries-full element valid elements es (omega (arith, s)) (omega (arith, t)) f)
  entries-full element (false ∷ valid) (e ∷ elements) (x ∷ es) s t f =
      absurd (cc (f, ap (λ r. r.2) (done_insert_slots element valid elements)))

  exchange_at-done :
      (index : ℕ) (elements : List (InlineElement K V)) (element : InlineElement K V)
      → exchange_at index elements element false ≡ (elements, element)
  unfolding exchange_at
  exchange_at-done index [] element = refl
  exchange_at-done zero (e ∷ elements) element = rw (me.cxchg_lem e element false) refl
  exchange_at-done (suc index) (e ∷ elements) element =
      rw (exchange_at-done index elements element) refl

  exchange_at-Perm :
      (index : ℕ) (elements : List (InlineElement K V)) (element : InlineElement K V)
      → index < length elements
      → let r = exchange_at index elements element true in
        Perm (r.1 ∷ r.0) (element ∷ elements) × (length r.0 ≡ length elements)
  unfolding exchange_at
  exchange_at-Perm index [] element h = absurd (omega (arith, h))
  exchange_at-Perm zero (e ∷ elements) element h =
      rw (me.cxchg_lem e element true) (Perm.swap element e elements, refl)
  exchange_at-Perm (suc index) (e ∷ elements) element h =
      let r = exchange_at index elements element true in
      let (perm, size) = exchange_at-Perm index elements element (omega (arith, h)) in
      (
        Perm.trans (Perm.swap e r.1 r.0)
            (Perm.trans (Perm.cons e perm) (Perm.swap element e elements)),
        ap suc size,
      )

  -- A bucket with as many flags as elements.
  abbrev pub IsBucket : Bucket K V → Type 0
  IsBucket bucket = length bucket.is_valid ≡ length bucket.elements

  -- With a draw below the number of slots, the element in hand, unless it is done, and the valid
  -- elements of the bucket are afterwards the same up to their order, and the bucket has as many
  -- slots as before, with as many flags as elements.
  pub insert_or_exchange-Perm :
      (randidx : ℕ) (done : Bool) (element : InlineElement K V) (bucket : Bucket K V)
      → IsBucket bucket
      → randidx < length bucket.elements
      → let out = insert_or_exchange randidx done element bucket in
        Perm
          (with_pending out.1.0 out.1.1 (entries out.0.is_valid out.0.elements))
          (with_pending done element (entries bucket.is_valid bucket.elements))
        × (IsBucket out.0 × (length out.0.elements ≡ length bucket.elements))
  unfolding insert_or_exchange insert_if_available
  insert_or_exchange-Perm randidx true element bucket s h =
      rw
        (
          done_insert_slots element bucket.is_valid bucket.elements,
          exchange_at-done randidx bucket.elements element,
        )
        (Perm.rfl, (s, refl))
  insert_or_exchange-Perm randidx false element bucket s h =
      let r = insert_slots element bucket.is_valid bucket.elements false in
      let perm = insert_slots-Perm element bucket.is_valid bucket.elements in
      let (valids, sizes) = length-insert_slots element bucket.is_valid bucket.elements false in
      elim (Bool-cases r.2) [
        | inl e ↦
            rw (e, exchange_at-done randidx r.1 element)
              (rw e at perm, (valids ∙ s ∙ sym sizes, sizes))
        | inr e ↦
            let (exchanged, size) =
              exchange_at-Perm randidx r.1 element (omega (arith, h, sizes)) in
            let x = exchange_at randidx r.1 element true in
            let valid_slots = entries-full element bucket.is_valid bucket.elements in
            rw (e, valid_slots x.0 s (size ∙ sizes ∙ sym s) e)
              (
                Perm.trans exchanged (rw (e, valid_slots r.1 s (sizes ∙ sym s) e) at perm),
                (valids ∙ s ∙ sym (size ∙ sizes), size ∙ sizes),
              )
      ]
