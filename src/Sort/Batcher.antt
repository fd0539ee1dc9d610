-- ===== src/Sort/Batcher.antt =====
-- crates/sort/src/batcher.rs: Batcher's odd-even merge sort, batcher_sort_paper and batcher_sort.
-- `none` is a panic, or fuel that ran out.
pub mod Termination
use rostl.Base.{
  ℕ, zero, suc, ◌+◌, ◌-◌, ◌*◌, ◌/◌, ◌%◌, Option, none, some, List, leb, ltb, ◌==◌, length, min,
  if◌then◌else◌, ◌>>=◌, for_range,
}
use rostl.Primitives.{Cmov}
use rostl.Primitives.Usize.{checked_add}
use rostl.Sort.Bitonic.{Ord}
use rostl.Sort.Utils.{cswap_greater}

module _ {A : Type 0} ⦃o : Ord A⦄ ⦃m : Cmov A⦄ where
  -- The body of the loop over `i`.
  unfoldable pub exchange_round : ℕ → ℕ → ℕ → ℕ → List A → Option (List A)
  exchange_round p k j i arr =
      if (i + j) / (p * 2) == (i + j + k) / (p * 2)
      then cswap_greater arr (i + j) (i + j + k)
      else some arr

  -- The loop over `j`.
  unfoldable pub exchange_runs : ℕ → ℕ → ℕ → ℕ → ℕ → List A → Option (List A)
  unfolding exchange_round
  exchange_runs zero n p k j arr = none
  exchange_runs (suc fuel) n p k j arr =
      let body : Option (List A) = do
        arr ← for_range (min k (n - j - k)) 0 (exchange_round p k j) arr
        stride ← checked_add k k
        j ← checked_add j stride
        exchange_runs fuel n p k j arr
      in if ltb j (n - k) then body else some arr

  -- The loop over `k`; `n - k` does not underflow.
  unfoldable pub strides : ℕ → ℕ → ℕ → ℕ → List A → Option (List A)
  unfolding exchange_runs
  strides zero n p k arr = none
  strides (suc fuel) n p k arr =
      let body : Option (List A) = do
        arr ← (if leb k n then exchange_runs (n + 1) n p k (k % p) arr else none)
        strides fuel n p (k / 2) arr
      in if ltb 0 k then body else some arr

  -- The loop over `p`.
  unfoldable pub passes : ℕ → ℕ → ℕ → List A → Option (List A)
  unfolding strides
  passes zero n p arr = none
  passes (suc fuel) n p arr =
      let body : Option (List A) = do
        arr ← strides (p + 1) n p p arr
        p ← checked_add p p
        passes fuel n p arr
      in if ltb p n then body else some arr

  unfoldable pub batcher_sort_paper : List A → Option (List A)
  unfolding passes
  batcher_sort_paper arr = passes (length arr + 1) (length arr) 1 arr

  unfoldable pub batcher_sort : List A → Option (List A)
  unfolding batcher_sort_paper
  batcher_sort arr = batcher_sort_paper arr
