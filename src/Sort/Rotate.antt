-- ===== src/Sort/Rotate.antt =====
-- crates/sort/src/rotate.rs: rotation of a slice by a secret amount. `none` is a panic, a violated
-- `assume!`, or fuel that ran out: the fuel is one more than the bits of a `usize`.
pub mod Reverse
pub mod Rounds
use Prim.Native.Nat.{bit_and}
use rostl.Base.{
  ℕ, zero, suc, ◌+◌, ◌-◌, ◌*◌, ◌/◌, ◌%◌, ◌^◌, Bool, not, Option, none, some, List, if◌then◌else◌,
  leb, ltb, ◌==◌, length, ◌>>=◌, for_range,
}
use rostl.Primitives.{Cmov}
use rostl.Primitives.CswapIndex.{cswap}
use rostl.Primitives.Usize.{checked_sub}

-- `(s & k) != 0`
abbrev pub enabled : ℕ → ℕ → Bool
enabled s k = not (bit_and s k == 0)

module _ {A : Type 0} ⦃m : Cmov A⦄ where
  -- In the loop `i` is below half the length, so that `end - 1 - i` is no underflow.
  pub reverse_region : List A → ℕ → ℕ → Bool → Option (List A)
  reverse_region arr start stop enable = do
    len ← checked_sub stop start
    for_range (len / 2) 0 (λ i a. cswap a (start + i) (stop - 1 - i) enable) arr

  -- `while s < n`
  pub rotate_rounds : ℕ → ℕ → ℕ → List A → Option (List A)
  unfolding reverse_region
  rotate_rounds zero s k arr = none
  rotate_rounds (suc fuel) s k arr =
      let n = length arr in
      let round : Option (List A) = do
        head ← reverse_region arr 0 s (enabled s k)
        parts ← reverse_region head s n (enabled s k)
        whole ← reverse_region parts 0 n (enabled s k)
        rotate_rounds fuel (s * 2 % 2 ^ 64) k whole
      in if ltb s n then round else some arr

  unfoldable pub rotate_left : List A → ℕ → Option (List A)
  unfolding rotate_rounds
  rotate_left arr k =
      if leb (length arr) 1
      then some arr
      else if leb k (length arr)
      then rotate_rounds 65 1 k arr
      else none
