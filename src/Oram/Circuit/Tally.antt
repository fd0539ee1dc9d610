-- ===== src/Oram/Circuit/Tally.antt =====
-- crates/oram/src/circuit_oram.rs: counting blocks, which does not depend on their order.
use mathlib.Core.List
use mathlib.Core.List.Perm
use mathlib.Core.Option.{some-injective}
use native.Mathlib.Nat.{ℕ_set}
use rostl.Base.{
  ℕ, zero, suc, ◌+◌, ◌≡◌, refl, ap, sym, ◌∙◌, Bool, true, false, not, ◌&&◌, List, [], ◌∷◌, ◌++◌,
  arith, length, Perm, if◌then◌else◌, Bool-cases, inl, inr, ◌==◌, ne→==, get_elem?, some,
}
use rostl.Oram.Circuit.Blocks.{Block, matches, is_empty}
use rostl.Oram.Circuit.{Bucket, concat}
use rostl.Oram.Circuit.Filled.{filled}
use rostl.Oram.Circuit.Elements.{with_key, any_block}

module _ {A : Type 0} (f : A → Bool) where
  abbrev pub tally : List A → ℕ
  tally [] = 0
  tally (x ∷ xs) = if f x then suc (tally xs) else tally xs

  step : A → ℕ → ℕ
  step x n = if f x then suc n else n

  step_comm : (a b : A) (n : ℕ) → step a (step b n) ≡ step b (step a n)
  unfolding step
  step_comm a b n = elim (Bool-cases (f a)) [
    | inl e ↦ rw e (elim (Bool-cases (f b)) [ inl g ↦ rw g refl | inr g ↦ rw g refl ])
    | inr e ↦ rw e refl
  ]

  tally-foldr : (xs : List A) → tally xs ≡ List.foldr step 0 xs
  unfolding step
  tally-foldr [] = refl
  tally-foldr (x ∷ xs) = ap (step x) (tally-foldr xs)

  pub tally-perm : (xs ys : List A) → Perm xs ys → tally xs ≡ tally ys
  tally-perm xs ys p =
      tally-foldr xs ∙ Perm.foldr-eq ℕ_set step step_comm p 0 ∙ sym (tally-foldr ys)

  pub tally-append : (xs ys : List A) → tally (xs ++ ys) ≡ tally xs + tally ys
  tally-append [] ys = omega arith
  tally-append (x ∷ xs) ys = elim (Bool-cases (f x)) [
    | inl e ↦ rw e (omega (arith, tally-append xs ys))
    | inr e ↦ rw e (tally-append xs ys)
  ]

-- A full block of the key that is not at the position.
abbrev pub misplaced : {V : Type 0} → ℕ → ℕ → Block V → Bool
misplaced k pos b = matches k b && not (b.pos == pos)

module _ {V : Type 0} where
  pub length-with_key :
      (k : ℕ) (xs : List (Block V)) → length (with_key k xs) ≡ tally (matches k) xs
  length-with_key k [] = refl
  length-with_key k (b ∷ xs) = elim (Bool-cases (matches k b)) [
    | inl e ↦ rw e (ap suc (length-with_key k xs))
    | inr e ↦ rw e (length-with_key k xs)
  ]

  -- Only full blocks count.
  pub tally-filled :
      (f : Block V → Bool) (xs : List (Block V))
      → ((b : Block V) → is_empty b ≡ true → f b ≡ false)
      → tally f (filled xs) ≡ tally f xs
  tally-filled f [] full = refl
  tally-filled f (b ∷ xs) full = elim (Bool-cases (is_empty b)) [
    | inl e ↦ rw (e, full b e) (tally-filled f xs full)
    | inr e ↦ rw e (ap (λ n. if f b then suc n else n) (tally-filled f xs full))
  ]

  pub matches_full : (k : ℕ) (b : Block V) → is_empty b ≡ true → matches k b ≡ false
  matches_full k b e = rw e refl

  pub misplaced_full : (k pos : ℕ) (b : Block V) → is_empty b ≡ true → misplaced k pos b ≡ false
  misplaced_full k pos b e = rw e refl

  pub tally_part :
      (f : Block V → Bool) (a : List (Bucket V)) (j : ℕ) (c : Bucket V)
      → get_elem? a j ≡ some c
      → tally f (concat a) ≡ 0
      → tally f c ≡ 0
  tally_part f [] j c e z = absurd (cc)
  tally_part f (x ∷ a) zero c e z =
      rw (← some-injective x c e) (omega (arith, z, tally-append f x (concat a)))
  tally_part f (x ∷ a) (suc j) c e z =
      tally_part f a j c e (omega (arith, z, tally-append f x (concat a)))

  pub tally_parts :
      (f : Block V → Bool) (a : List (Bucket V))
      → ((j : ℕ) (c : Bucket V) → get_elem? a j ≡ some c → tally f c ≡ 0)
      → tally f (concat a) ≡ 0
  tally_parts f [] each = refl
  tally_parts f (x ∷ a) each =
      omega (arith, tally-append f x (concat a), each 0 x refl, tally_parts f a (λ j. each (suc j)))

  pub any_block_lem : (xs : List (Block V)) → any_block xs ≡ not (length xs == 0)
  any_block_lem [] = refl
  any_block_lem (x ∷ xs) = sym (ap not (ne→== (suc (length xs)) 0 (λ e. omega (arith, e))))
