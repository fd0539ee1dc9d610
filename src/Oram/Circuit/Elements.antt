-- ===== src/Oram/Circuit/Elements.antt =====
-- crates/oram/src/circuit_oram.rs: `read_and_remove_element`, `remove_element` and
-- `write_block_to_empty_slot` against what they mean.
use mathlib.Core.List.Perm
use rostl.Base.{
  ℕ, suc, ◌+◌, ◌≤◌, ◌≡◌, refl, ap, Bool, true, false, ◌||◌, List, [], ◌∷◌, ◌++◌, Perm, inl, inr,
  Bool-cases, if◌then◌else◌, arith, length, some,
}
use rostl.Primitives.{Cmov}
use rostl.Oram.Circuit.Blocks.{
  Block, is_empty, with_pos, dummy_pos, matches, read_and_remove_from, read_and_remove_element,
  remove_from, remove_element, write_from, write_block_to_empty_slot,
}
use rostl.Oram.Circuit.Filled.{one, filled, perm_past}
use rostl.Oram.Circuit.Passes.{any_empty, place_last}
use rostl.Oram.Circuit.Held.{Placed, place_last-Placed}

-- The full blocks of the key.
abbrev pub with_key : {V : Type 0} → ℕ → List (Block V) → List (Block V)
with_key k [] = []
with_key k (b ∷ arr) = if matches k b then b ∷ with_key k arr else with_key k arr

-- A block without its content if it has the key.
abbrev pub cleared : {V : Type 0} → ℕ → Block V → Block V
cleared k b = if matches k b then with_pos b dummy_pos else b

-- The array without the key.
abbrev pub without_key : {V : Type 0} → ℕ → List (Block V) → List (Block V)
without_key k [] = []
without_key k (b ∷ arr) = cleared k b ∷ without_key k arr

abbrev pub any_block : {V : Type 0} → List (Block V) → Bool
any_block [] = false
any_block (b ∷ arr) = true

-- The first block's value, or the given one.
abbrev pub value_or : {V : Type 0} → V → List (Block V) → V
value_or ret [] = ret
value_or ret (b ∷ arr) = b.value

abbrev one_bit : Bool → ℕ
one_bit b = if b then 1 else 0

module _ {V : Type 0} where
  remove_from_lem :
      (k : ℕ) (arr : List (Block V)) (rv : Bool)
      → length (with_key k arr) + one_bit rv ≤ 1
      → remove_from k arr rv ≡ some (without_key k arr, rv || any_block (with_key k arr))
  unfolding remove_from
  remove_from_lem k [] true h = refl
  remove_from_lem k [] false h = refl
  remove_from_lem k (b ∷ arr) true h = elim (Bool-cases (matches k b)) [
    | inl e ↦ absurd (omega (arith, rw e at h))
    | inr e ↦ rw (e, remove_from_lem k arr true (rw e at h)) refl
  ]
  remove_from_lem k (b ∷ arr) false h = elim (Bool-cases (matches k b)) [
    | inl e ↦ rw (e, remove_from_lem k arr true (omega (arith, rw e at h))) refl
    | inr e ↦ rw (e, remove_from_lem k arr false (rw e at h)) refl
  ]

  -- With at most one full block of the key, `remove_element` returns, clears just that block, and
  -- says whether there was one.
  pub remove_element-without_key :
      (arr : List (Block V)) (k : ℕ)
      → length (with_key k arr) ≤ 1
      → remove_element arr k ≡ some (without_key k arr, any_block (with_key k arr))
  unfolding remove_element
  remove_element-without_key arr k h = remove_from_lem k arr false (omega (arith, h))

  pub full_match : (k : ℕ) (b : Block V) → matches k b ≡ true → is_empty b ≡ false
  full_match k b e = elim (Bool-cases (is_empty b)) [ inr f ↦ f | inl t ↦ absurd (cc (rw t at e)) ]

  -- The blocks of the key and those that are left make up the blocks of the array.
  pub without_key-filled :
      (k : ℕ) (arr : List (Block V))
      → Perm (with_key k arr ++ filled (without_key k arr)) (filled arr)
  without_key-filled k [] = Perm.rfl
  without_key-filled k (b ∷ arr) = elim (Bool-cases (matches k b)) [
    | inl e ↦ rw (e, full_match k b e) (Perm.cons b (without_key-filled k arr))
    | inr e ↦ rw e (
        Perm.trans (perm_past (with_key k arr) (one b) _)
          (Perm.append_left (one b) (without_key-filled k arr)))
  ]

  pub length-without_key : (k : ℕ) (arr : List (Block V)) → length (without_key k arr) ≡ length arr
  length-without_key k [] = refl
  length-without_key k (b ∷ arr) = ap suc (length-without_key k arr)

module _ {V : Type 0} ⦃m : Cmov V⦄ where
  read_and_remove_from_lem :
      (k : ℕ) (arr : List (Block V)) (ret : V) (rv : Bool)
      → length (with_key k arr) + one_bit rv ≤ 1
      → read_and_remove_from k arr ret rv
        ≡ some (without_key k arr, value_or ret (with_key k arr), rv || any_block (with_key k arr))
  unfolding read_and_remove_from
  read_and_remove_from_lem k [] ret true h = refl
  read_and_remove_from_lem k [] ret false h = refl
  read_and_remove_from_lem k (b ∷ arr) ret true h = elim (Bool-cases (matches k b)) [
    | inl e ↦ absurd (omega (arith, rw e at h))
    | inr e ↦
        rw (e, m.cmov_lem ret b.value false, read_and_remove_from_lem k arr ret true (rw e at h))
          refl
  ]
  read_and_remove_from_lem k (b ∷ arr) ret false h = elim (Bool-cases (matches k b)) [
    | inl e ↦
        rw
          (
            e,
            m.cmov_lem ret b.value true,
            read_and_remove_from_lem k arr b.value true (omega (arith, rw e at h)),
            no_more (with_key k arr) b.value (omega (arith, rw e at h)),
          )
          refl
    | inr e ↦
        rw (e, m.cmov_lem ret b.value false, read_and_remove_from_lem k arr ret false (rw e at h))
          refl
  ]
    where
      no_more : (bs : List (Block V)) (ret : V) → length bs ≤ 0 → value_or ret bs ≡ ret
      no_more [] ret h = refl
      no_more (b ∷ bs) ret h = absurd (omega arith)

  -- With at most one full block of the key, `read_and_remove_element` returns, clears just that
  -- block, and gives its value; without one `ret` is kept.
  pub read_and_remove_element-without_key :
      (arr : List (Block V)) (k : ℕ) (ret : V)
      → length (with_key k arr) ≤ 1
      → read_and_remove_element arr k ret
        ≡ some (without_key k arr, value_or ret (with_key k arr), any_block (with_key k arr))
  unfolding read_and_remove_element
  read_and_remove_element-without_key arr k ret h =
      read_and_remove_from_lem k arr ret false (omega (arith, h))

module _ {V : Type 0} ⦃m : Cmov (Block V)⦄ where
  write_from-place_last :
      (val : Block V) (arr : List (Block V)) (rv : Bool)
      → write_from val arr rv ≡ (place_last true val rv arr, rv || any_empty arr)
  unfolding write_from place_last any_empty
  write_from-place_last val [] true = refl
  write_from-place_last val [] false = refl
  write_from-place_last val (b ∷ arr) true = elim (Bool-cases (is_empty b)) [
    | inl e ↦ rw (e, write_from-place_last val arr true) refl
    | inr e ↦ rw (e, write_from-place_last val arr true) refl
  ]
  write_from-place_last val (b ∷ arr) false = elim (Bool-cases (is_empty b)) [
    | inl e ↦ rw (e, write_from-place_last val arr true) refl
    | inr e ↦ rw (e, write_from-place_last val arr false) refl
  ]

  -- With an empty slot, `write_block_to_empty_slot` says so and writes the block there: the
  -- array's blocks are then the written one and the old ones.
  pub write_block_to_empty_slot-Placed :
      (arr : List (Block V)) (val : Block V)
      → any_empty arr ≡ true
      → ((write_block_to_empty_slot arr val).1 ≡ true)
        × Placed val arr (write_block_to_empty_slot arr val).0
  unfolding write_block_to_empty_slot
  write_block_to_empty_slot-Placed arr val e =
      rw (write_from-place_last val arr false, e) (refl, place_last-Placed val arr e)
