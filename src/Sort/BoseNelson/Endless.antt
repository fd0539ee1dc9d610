-- ===== src/Sort/BoseNelson/Endless.antt =====
-- crates/sort/src/bose_nelson.rs: bn_merge of sizes that differ by more than 1.
use rostl.Base.{
  ℕ, zero, suc, ◌+◌, ◌≡◌, refl, Bool, true, false, ◌&&◌, Option, none, List, leb, length,
  if◌then◌else◌,
}
use rostl.Primitives.{Cmov}
use rostl.Sort.Bitonic.{Ord}
use rostl.Sort.BoseNelson.{second_share, bn_merge}

module _ {A : Type 0} where
  both_none : (c : Bool) (x : Option A) → (if c then x else x) ≡ x
  both_none true x = refl
  both_none false x = refl

module _ {A : Type 0} ⦃o : Ord A⦄ ⦃m : Cmov A⦄ where
  -- A part of size 0 and one of size 1 are split into the same sizes again.
  empty_first :
      (fuel : ℕ) (arr : List A) (start1 start2 : ℕ) → bn_merge fuel arr start1 0 start2 1 ≡ none
  unfolding bn_merge second_share
  empty_first zero arr start1 start2 = refl
  empty_first (suc fuel) arr start1 start2 =
      rw (empty_first fuel arr start1 start2)
        (both_none (leb (start1 + 0) start2 && leb (start2 + 1) (length arr)) none)

  -- bn_merge of a part of size 1 with one of size 3 does not return, with whatever fuel.
  pub bn_merge-endless :
      (fuel : ℕ) (arr : List A) (start1 start2 : ℕ) → bn_merge fuel arr start1 1 start2 3 ≡ none
  unfolding bn_merge second_share
  bn_merge-endless zero arr start1 start2 = refl
  bn_merge-endless (suc fuel) arr start1 start2 =
      rw (empty_first fuel arr start1 start2)
        (both_none (leb (start1 + 1) start2 && leb (start2 + 3) (length arr)) none)
