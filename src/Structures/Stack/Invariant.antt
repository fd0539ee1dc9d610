-- ===== src/Structures/Stack/Invariant.antt =====
-- crates/datastructures/src/stack.rs: which list a stack represents.
use native.Mathlib.Nat.{pow-le-pow_right}
use rostl.Base.{
  ℕ, suc, ◌-◌, ◌%◌, ◌^◌, ◌≤◌, ◌<◌, ◌≡◌, refl, ap, ◌∙◌, arith, List, [], ◌∷◌, length, Option, some,
  ◌>>=◌, Bool-cases, inl, inr, take, ne→==,
}
use native.Mathlib.Nat.{mod-eq_of_lt}
use rostl.Oram.Circuit.{CircuitOram}
use rostl.Oram.Circuit.Blocks.{Block, dummy_pos, stash_size}
use rostl.Oram.Circuit.Passes.{any_empty}
use rostl.Oram.Circuit.State.{IsCircuitOram}
use rostl.Oram.Circuit.Entries.{held}
use rostl.Oram.Circuit.Operations.{if_room}
use rostl.Oram.Recursive.{random_range}
use rostl.Structures.Stack.{Stack, StackElement}

abbrev pub element_block : {A : Type 0} → ℕ → ℕ → A → ℕ → Block (StackElement A)
element_block pos key value next = record {
  pos = pos;
  key = key;
  value = record { value = value; next = next };
}

-- The linked list from a position on: an element's key is the number of elements from it on.
abbrev pub Chain : {A : Type 0} → CircuitOram (StackElement A) → ℕ → List A → Type 0
Chain oram top [] = top ≡ dummy_pos
Chain oram top (x ∷ xs) =
    (next : ℕ) × (top < oram.max_n)
    × (held oram (suc (length xs)) ≡ element_block top (suc (length xs)) x next ∷ [])
    × Chain oram next xs

-- The stack represents the list, the top first.
pub record IsStack {A : Type 0} (xs : List A) (self : Stack A) : Type 0 where
  pub state : IsCircuitOram self.oram
  pub size : self.size ≡ length xs
  pub fits : length xs ≤ self.oram.max_n
  pub chain : Chain self.oram self.top xs

-- The memory has no block of a key above the number: what the next pushes need.
abbrev pub Unused : {A : Type 0} → Stack A → ℕ → Type 0
Unused self n = (k : ℕ) → n < k → held self.oram k ≡ []

module _ {A : Type 0} where
  -- A list whose blocks are kept is kept.
  pub Chain-kept :
      (self out : CircuitOram (StackElement A)) (top : ℕ) (xs : List A)
      → out.max_n ≡ self.max_n
      → ((k : ℕ) → k ≤ length xs → length (held self k) ≤ 1 → held out k ≡ held self k)
      → Chain self top xs
      → Chain out top xs
  Chain-kept self out top [] same kept c = c
  Chain-kept self out top (x ∷ xs) same kept (next, inside, here, rest) = (
    next,
    omega (arith, inside, same),
    kept (suc (length xs)) (omega arith) (omega (arith, ap length here)) ∙ here,
    Chain-kept self out next xs same (λ k h. kept k (omega (arith, h))) rest,
  )

  pub StackElement-set : IsSet A → IsSet (StackElement A)
  StackElement-set Aset = hlevel

module _ {V : Type 0} (self : CircuitOram V) (t : IsCircuitOram self) where
  pub max_n-lt : self.max_n < 2 ^ 32 - 1
  max_n-lt = omega (
    arith,
    t.leaves,
    t.high,
    pow-le-pow_right {n = 2} (omega arith) {i = self.h - 1} {j = 31} (omega (arith, t.high)),
  )

  -- A draw below the number of leaves.
  pub some_draw :
      (rng : ℕ → ℕ → ℕ) (i : ℕ)
      → rng i self.max_n < self.max_n
      → random_range rng i (self.max_n % 2 ^ 32) ≡ some (rng i self.max_n)
  some_draw rng i h =
      let small : self.max_n < 2 ^ 32 = omega (arith, max_n-lt) in
      rw (mod-eq_of_lt small, ne→== self.max_n 0 (λ e. omega (arith, e, h))) refl

module _ {V B C : Type 0} where
  -- What follows an operation runs if the stash has room.
  pub room_then :
      (out : CircuitOram V) (x : B) (f : B → Option C) (y : C)
      → f x ≡ some y
      → (if_room out x >>= f) ≡ if_room out y
  room_then out x f y e = elim (Bool-cases (any_empty (take stash_size out.stash))) [
    | inl g ↦ rw g e
    | inr g ↦ rw g refl
  ]
