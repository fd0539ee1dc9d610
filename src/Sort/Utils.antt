-- ===== src/Sort/Utils.antt =====
-- crates/sort/src/utils.rs: the macro CSWAP, which swaps two entries that are out of order.
use mathlib.Core.List.Perm
use rostl.Base.{
  ℕ, ◌<◌, ◌∙◌, not, Option, List, get_elem?, get_elem?-some, length, ◌>>=◌, arith, Returns,
  Returns-imp,
}
use rostl.Primitives.{Cmov}
use rostl.Primitives.CswapIndex.{cswap, cswap-Swapped}
use rostl.Sort.Bitonic.{Ord}
use rostl.Sort.Bitonic.Together.{Rearranged}

module _ {A : Type 0} ⦃o : Ord A⦄ ⦃m : Cmov A⦄ where
  -- `CSWAP!(arr, i, j)`, with `a > b` as the negation of `a <= b`.
  unfoldable pub cswap_greater : List A → ℕ → ℕ → Option (List A)
  cswap_greater arr i j = do
    a ← get_elem? arr i
    b ← get_elem? arr j
    cswap arr i j (not (o.le a b))

  pub cswap_greater-Rearranged :
      (arr s : List A) (i j : ℕ)
      → i < j
      → j < length arr
      → Rearranged arr s
      → Returns (Rearranged arr) (cswap_greater s i j)
  unfolding cswap_greater
  cswap_greater-Rearranged arr s i j h b p =
      let (x, at_i) = get_elem?-some s i (omega (arith, h, b, p.size)) in
      let (y, at_j) = get_elem?-some s j (omega (arith, b, p.size)) in
      rw (at_i, at_j)
        (Returns-imp (cswap-Swapped s i j (not (o.le x y)) h (omega (arith, b, p.size)))
          λ out w. record { size = w.size ∙ p.size; perm = Perm.trans w.perm p.perm })
