-- ===== src/Sort/BoseNelson.antt =====
-- crates/sort/src/bose_nelson.rs: the sorting network of Bose and Nelson. `none` is a panic, or fuel
-- that ran out.
pub mod Termination
pub mod Endless
use rostl.Base.{
  ℕ, zero, suc, ◌+◌, ◌-◌, ◌/◌, ◌%◌, ◌&&◌, Option, none, some, List, leb, ◌==◌, length,
  if◌then◌else◌, ◌>>=◌,
}
use rostl.Primitives.{Cmov}
use rostl.Sort.Bitonic.{Ord}
use rostl.Sort.Utils.{cswap_greater}

-- The second part's share `s2` in `bn_merge`.
unfoldable pub second_share : ℕ → ℕ → ℕ
second_share size1 size2 = if size1 % 2 == 0 then (size2 + 1) / 2 else size2 / 2

module _ {A : Type 0} ⦃o : Ord A⦄ ⦃m : Cmov A⦄ where
  unfoldable pub bn_merge : ℕ → List A → ℕ → ℕ → ℕ → ℕ → Option (List A)
  unfolding second_share
  bn_merge zero arr start1 size1 start2 size2 = none
  bn_merge (suc fuel) arr start1 size1 start2 size2 =
      let s1 = size1 / 2 in
      let s2 = second_share size1 size2 in
      let parts : Option (List A) = do
        low ← bn_merge fuel arr start1 s1 start2 s2
        high ← bn_merge fuel low (start1 + s1) (size1 - s1) (start2 + s2) (size2 - s2)
        bn_merge fuel high (start1 + s1) (size1 - s1) start2 s2
      in let body : Option (List A) =
          if size1 == 1 && size2 == 1
          then cswap_greater arr start1 start2
          else if size1 == 1 && size2 == 2
          then (do arr ← cswap_greater arr start1 (start2 + 1); cswap_greater arr start1 start2)
          else if size1 == 2 && size2 == 1
          then (do arr ← cswap_greater arr start1 start2; cswap_greater arr (start1 + 1) start2)
          else parts in
        if leb (start1 + size1) start2 && leb (start2 + size2) (length arr) then body else none

  unfoldable pub bn_sort : ℕ → List A → ℕ → ℕ → Option (List A)
  unfolding bn_merge
  bn_sort zero arr start size = none
  bn_sort (suc fuel) arr start size =
      let s2 = size / 2 in
      let body : Option (List A) = do
        left ← bn_sort fuel arr start s2
        right ← bn_sort fuel left (start + s2) (size - s2)
        bn_merge size right start s2 (start + s2) (size - s2)
      in if leb size 1 then some arr else body

  -- The fuel is one more than the length.
  unfoldable pub bose_nelson_sort : List A → Option (List A)
  unfolding bn_sort
  bose_nelson_sort arr = bn_sort (length arr + 1) arr 0 (length arr)
