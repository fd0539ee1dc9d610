-- ===== src/Structures/Vector/Methods.antt =====
-- crates/datastructures/src/vector.rs: which list a vector represents, and its methods.
use mathlib.Core.Option.{some-injective}
use native.Mathlib.Decide.{ℕ_discrete}
use rostl.Base.{
  ℕ, zero, suc, ◌+◌, ◌-◌, ◌≤◌, ◌<◌, ◌≡◌, refl, sym, ap, ◌∙◌, subst, arith, true, List, [], ◌∷◌,
  ◌++◌, length, length-append, length-set, get_elem?, get_elem?-set, set, some, take, lt→ltb, ne→==,
  eq→==, lt_of_get_elem?,
}
use rostl.Primitives.{Cmov}
use rostl.Primitives.Usize.{checked_add_lem}
use rostl.Oram.Linear.{Default}
use rostl.Oram.Circuit.Blocks.{Zeroable, Block, stash_size}
use rostl.Oram.Circuit.Passes.{any_empty}
use rostl.Oram.Circuit.Operations.{if_room}
use rostl.Oram.Recursive.{InternalNode}
use rostl.Structures.Stack.Invariant.{max_n-lt, room_then}
use rostl.Structures.OramArrays.{Rng}
use rostl.Structures.OramArrays.Invariant.{IsArray, Accessible}
use rostl.Structures.Vector.{EagerVector, capacity, read, write, push_back, grown, pop_back}
use rostl.Structures.Vector.Items.{ItemAt, write-Left, read-Left}

-- The vector represents the list, and its array's position map has one level, as it has for each
-- capacity from 2 to 2048.
pub record IsVector {A : Type 0} (xs : List A) (self : EagerVector A) : Type 0 where
  pub array : IsArray (capacity self) self.array
  pub n : self.n ≡ length xs
  pub fits : length xs ≤ capacity self
  pub items : (i : ℕ) (x : A) → get_elem? xs i ≡ some x → ItemAt self.array i x

-- What the methods need: room in the stash, and a draw within the array.
pub record Ready {A : Type 0} (rng : Rng) (self : EagerVector A) : Type 0 where
  pub room : any_empty (take stash_size self.array.oram.stash) ≡ true
  pub draw : rng 0 (capacity self) < capacity self

module _ {A : Type 0} where
  get_elem?-before :
      (xs ys : List A) (i : ℕ) → i < length xs → get_elem? (xs ++ ys) i ≡ get_elem? xs i
  get_elem?-before [] ys i h = absurd (omega arith)
  get_elem?-before (x ∷ xs) ys zero h = refl
  get_elem?-before (x ∷ xs) ys (suc i) h = get_elem?-before xs ys i (omega arith)

  get_elem?-last : (xs : List A) (x : A) → get_elem? (xs ++ x ∷ []) (length xs) ≡ some x
  get_elem?-last [] x = refl
  get_elem?-last (y ∷ xs) x = get_elem?-last xs x

module _ {A : Type 0} ⦃m : Cmov A⦄ ⦃mb : Cmov (Block A)⦄ ⦃d : Default A⦄ ⦃z : Zeroable A⦄
    ⦃mn : Cmov InternalNode⦄ ⦃mnb : Cmov (Block InternalNode)⦄ (Aset : IsSet A) (rng : Rng)
    (self : EagerVector A) (array : IsArray (capacity self) self.array)
    (ready : Ready rng self) where
  accessible : (index : ℕ) → index < capacity self → Accessible rng (capacity self) self.array index
  accessible index h = record {
    array = array;
    room = ready.room;
    inside = h;
    draw = ready.draw;
    bound = omega (arith, array.leaves, max_n-lt self.array.oram array.state);
  }

module _ {A : Type 0} ⦃m : Cmov A⦄ ⦃mb : Cmov (Block A)⦄ ⦃d : Default A⦄ ⦃z : Zeroable A⦄
    ⦃mn : Cmov InternalNode⦄ ⦃mnb : Cmov (Block InternalNode)⦄ (Aset : IsSet A) (rng : Rng)
    (xs : List A) (self : EagerVector A) (t : IsVector xs self) (ready : Ready rng self) where
  -- read within the list gives the entry, and the vector represents the list as before. It panics
  -- exactly when no slot of the new stash is empty.
  pub read-IsVector :
      (index : ℕ) (x ret : A)
      → get_elem? xs index ≡ some x
      → (out : EagerVector A) × IsVector xs out
        × (read rng self index ret ≡ if_room out.array.oram (out, x))
  unfolding read
  read-IsVector index x ret at =
      let h = lt_of_get_elem? xs index at in
      let c = accessible Aset rng self t.array ready index (omega (arith, h, t.fits)) in
      let (array, left, done) =
        read-Left Aset rng (capacity self) self.array index c x ret (t.items index x at) in
      let out : EagerVector A = record { n = self.n; array = array } in
      (
        out,
        record {
          array = subst (λ k. IsArray k array) (sym left.array.covers) left.array;
          n = t.n;
          fits = omega (arith, t.fits, left.array.covers);
          items = λ i y at_y. elim (ℕ_discrete i index) [
            | yes e ↦
                subst (λ z. ItemAt array i z)
                  (some-injective x y (sym at ∙ ap (get_elem? xs) (sym e) ∙ at_y))
                  (subst (λ k. ItemAt array k x) (sym e) left.here)
            | no ne ↦
                left.others i y (omega (arith, lt_of_get_elem? xs i at_y, t.fits)) ne
                  (t.items i y at_y)
          ];
        },
        rw (lt→ltb index self.n (omega (arith, h, t.n)), done)
            (room_then array.oram (array, x) _ (out, x) refl),
      )

  -- write within the list replaces the entry. It panics exactly when no slot of the new stash is
  -- empty.
  pub write-IsVector :
      (index : ℕ) (value : A)
      → index < length xs
      → (out : EagerVector A) × IsVector (set xs index value) out
        × (write rng self index value ≡ if_room out.array.oram out)
  unfolding write
  write-IsVector index value h =
      let c = accessible Aset rng self t.array ready index (omega (arith, h, t.fits)) in
      let (array, left, done) = write-Left Aset rng (capacity self) self.array index c value in
      let out : EagerVector A = record { n = self.n; array = array } in
      (
        out,
        record {
          array = subst (λ k. IsArray k array) (sym left.array.covers) left.array;
          n = t.n ∙ sym (length-set xs index value);
          fits = omega (arith, t.fits, left.array.covers, length-set xs index value);
          items = λ i y at_y.
              let at_set = sym (get_elem?-set xs index i value h) ∙ at_y in
              elim (ℕ_discrete index i) [
                | yes e ↦
                    subst (λ z. ItemAt array i z)
                      (some-injective value y (rw (eq→== index i e) at at_set))
                      (subst (λ k. ItemAt array k value) e left.here)
                | no ne ↦
                    let old = rw (ne→== index i ne) at at_set in
                    left.others i y (omega (arith, lt_of_get_elem? xs i old, t.fits))
                      (λ e. ne (sym e)) (t.items i y old)
              ];
        },
        rw (lt→ltb index self.n (omega (arith, h, t.n)), done)
            (room_then array.oram array _ out refl),
      )

module _ {A : Type 0} ⦃m : Cmov A⦄ ⦃mb : Cmov (Block A)⦄ ⦃d : Default A⦄ ⦃z : Zeroable A⦄
    ⦃mn : Cmov InternalNode⦄ ⦃mnb : Cmov (Block InternalNode)⦄ (Aset : IsSet A) (rng : Rng)
    (xs : List A) (x : A) (self : EagerVector A) (ready : Ready rng self) where
  -- With room in the stash and a draw below the capacity, push_back below the capacity, on a vector
  -- whose array has a position map of one level, appends the value. It panics exactly when no slot of
  -- the new stash is empty.
  pub push_back-IsVector :
      (rngs : ℕ → Rng)
      → IsVector xs self
      → length xs < capacity self
      → (out : EagerVector A) × IsVector (xs ++ x ∷ []) out
        × (push_back rngs rng self x ≡ if_room out.array.oram out)
  unfolding push_back grown
  push_back-IsVector rngs t space =
      let c = accessible Aset rng self t.array ready self.n (omega (arith, space, t.n)) in
      let (array, left, done) = write-Left Aset rng (capacity self) self.array self.n c x in
      let out : EagerVector A = record { n = self.n + 1; array = array } in
      (
        out,
        record {
          array = subst (λ k. IsArray k array) (sym left.array.covers) left.array;
          n = omega (arith, t.n, length-append xs (x ∷ []));
          fits = omega (arith, space, left.array.covers, length-append xs (x ∷ []));
          items = λ i y at. elim (ℕ_discrete i self.n) [
            | yes e ↦
                let here = get_elem?-last xs x in
                let at' = ap (get_elem? (xs ++ x ∷ [])) (sym (e ∙ t.n)) ∙ at in
                subst (λ z. ItemAt array i z) (some-injective x y (sym here ∙ at'))
                  (subst (λ k. ItemAt array k x) (sym e) left.here)
            | no ne ↦
                let inside : i < length xs = omega (
                  arith,
                  ne,
                  t.n,
                  lt_of_get_elem? (xs ++ x ∷ []) i at,
                  length-append xs (x ∷ []),
                ) in
                left.others i y (omega (arith, inside, space)) ne
                  (t.items i y (sym (get_elem?-before xs (x ∷ []) i inside) ∙ at))
          ];
        },
        rw (ne→== self.n (capacity self) (λ e. omega (arith, e, space, t.n)), done)
            (room_then array.oram array _ out (
              rw
                (checked_add_lem self.n 1 (
                  omega
                    (arith, space, t.n, t.array.leaves, max_n-lt self.array.oram t.array.state)))
                refl)),
      )

  -- With room in the stash and a draw below the capacity, pop_back of a list with a last entry, on a
  -- vector whose array has a position map of one level, gives the entry and the vector of the others.
  -- It panics exactly when no slot of the new stash is empty.
  pub pop_back-IsVector :
      IsVector (xs ++ x ∷ []) self
      → (out : EagerVector A) × IsVector xs out
        × (pop_back rng self ≡ if_room out.array.oram (out, x))
  unfolding pop_back
  pop_back-IsVector t =
      let n = self.n - 1 in
      let size = length-append xs (x ∷ []) in
      let last : n ≡ length xs = omega (arith, t.n, size) in
      let c = accessible Aset rng self t.array ready n (omega (arith, last, size, t.fits)) in
      let at : get_elem? (xs ++ x ∷ []) n ≡ some x =
        ap (get_elem? (xs ++ x ∷ [])) last ∙ get_elem?-last xs x in
      let (array, left, done) =
        read-Left Aset rng (capacity self) self.array n c x d.default (t.items n x at) in
      let out : EagerVector A = record { n = n; array = array } in
      (
        out,
        record {
          array = subst (λ k. IsArray k array) (sym left.array.covers) left.array;
          n = last;
          fits = omega (arith, size, t.fits, left.array.covers);
          items = λ i y at_y.
              let inside = lt_of_get_elem? xs i at_y in
              left.others i y (omega (arith, inside, size, t.fits))
                (λ e. omega (arith, e, last, inside))
                (t.items i y (get_elem?-before xs (x ∷ []) i inside ∙ at_y));
        },
        rw (lt→ltb 0 self.n (omega (arith, t.n, size)), done)
            (room_then array.oram (array, x) _ (out, x) refl),
      )
