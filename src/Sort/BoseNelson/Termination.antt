-- ===== src/Sort/BoseNelson/Termination.antt =====
-- crates/sort/src/bose_nelson.rs: the recursion ends, and only swaps entries of the slice.
use mathlib.Core.List.Perm
use rostl.Base.{
  ℕ, zero, suc, ◌+◌, ◌-◌, ◌/◌, ◌%◌, ◌≤◌, ◌<◌, ◌≡◌, refl, true, false, ◌&&◌, List, leb, le→leb, ◌==◌,
  eq→==, ==_iff, length, arith, Returns, returns, Returns-bind, Bool-cases, inl, inr,
}
use rostl.Primitives.{Cmov}
use rostl.Sort.Bitonic.{Ord}
use rostl.Sort.Bitonic.Together.{Rearranged}
use rostl.Sort.Utils.{cswap_greater-Rearranged}
use rostl.Sort.BoseNelson.{second_share, bn_merge, bn_sort, bose_nelson_sort}

-- Sizes for which `bn_merge` ends: neither is 0, and they differ by at most 1.
record Balanced (size1 size2 : ℕ) : Type 0 where
  first : 1 ≤ size1
  second : 1 ≤ size2
  above : size2 ≤ size1 + 1
  below : size1 ≤ size2 + 1

-- The halves of balanced sizes that are not a base case are balanced again.
record Shares (size1 size2 s1 s2 : ℕ) : Type 0 where
  low : Balanced s1 s2
  high : Balanced (size1 - s1) (size2 - s2)
  cross : Balanced (size1 - s1) s2
  inside1 : s1 < size1
  inside2 : s2 < size2

-- The rests of `r` that the halves leave.
rest-Shares :
    (size1 size2 s1 s2 r : ℕ)
    → Balanced size1 size2
    → 4 ≤ size1 + size2
    → r ≤ 1
    → size1 ≡ s1 + s1 + r
    → size2 ≤ s2 + s2 + r
    → s2 + s2 + r ≤ size2 + 1
    → Shares size1 size2 s1 s2
rest-Shares size1 size2 s1 s2 r b big rest e low high = record {
  low = record {
    first = omega (arith, b.first, b.second, b.above, b.below);
    second = omega (arith, b.first, b.second, b.above, b.below);
    above = omega (arith, b.first, b.second, b.above, b.below);
    below = omega (arith, b.first, b.second, b.above, b.below);
  };
  high = record {
    first = omega (arith, b.first, b.second, b.above, b.below);
    second = omega (arith, b.first, b.second, b.above, b.below);
    above = omega (arith, b.first, b.second, b.above, b.below);
    below = omega (arith, b.first, b.second, b.above, b.below);
  };
  cross = record {
    first = omega (arith, b.first, b.second, b.above, b.below);
    second = omega (arith, b.first, b.second, b.above, b.below);
    above = omega (arith, b.first, b.second, b.above, b.below);
    below = omega (arith, b.first, b.second, b.above, b.below);
  };
  inside1 = omega (arith, b.first, b.second, b.above, b.below);
  inside2 = omega (arith, b.first, b.second, b.above, b.below);
}

leb→gt : (a b : ℕ) → leb a b ≡ false → b < a
leb→gt a b h = ground arith

second_share-Shares :
    (size1 size2 : ℕ)
    → Balanced size1 size2
    → 4 ≤ size1 + size2
    → Shares size1 size2 (size1 / 2) (second_share size1 size2)
unfolding second_share
second_share-Shares size1 size2 b big = elim (Bool-cases (size1 % 2 == 0)) [
  | inl e ↦
      let even = (==_iff (size1 % 2) 0).0 e in
      rw e (
        rest-Shares size1 size2 (size1 / 2) ((size2 + 1) / 2) 0 b big (omega arith)
          (omega (arith, even)) (omega arith) (omega arith))
  | inr e ↦
      let odd : ¬ (size1 % 2 ≡ 0) = λ z. cc (e, eq→== (size1 % 2) 0 z) in
      rw e (
        rest-Shares size1 size2 (size1 / 2) (size2 / 2) 1 b big (omega arith) (omega (arith, odd))
          (omega arith) (omega arith))
]

second_is : (size1 size2 : ℕ) → (size1 == 1 && size2 == 2) ≡ true → size2 ≡ 2
second_is size1 size2 e = ground arith

first_is : (size1 size2 : ℕ) → (size1 == 2 && size2 == 1) ≡ true → size1 ≡ 2
first_is size1 size2 e = ground arith

not_base :
    (size1 size2 : ℕ)
    → Balanced size1 size2
    → (size1 == 1 && size2 == 1) ≡ false
    → (size1 == 1 && size2 == 2) ≡ false
    → (size1 == 2 && size2 == 1) ≡ false
    → 4 ≤ size1 + size2
not_base size1 size2 b e f g = let first = b.first in let second = b.second in ground arith

module _ {A : Type 0} ⦃o : Ord A⦄ ⦃m : Cmov A⦄ (arr : List A) where
  bn_merge-Rearranged :
      (fuel : ℕ) (s : List A) (start1 size1 start2 size2 : ℕ)
      → size1 + size2 ≤ fuel
      → Balanced size1 size2
      → start1 + size1 ≤ start2
      → start2 + size2 ≤ length arr
      → Rearranged arr s
      → Returns (Rearranged arr) (bn_merge fuel s start1 size1 start2 size2)
  unfolding bn_merge
  bn_merge-Rearranged zero s start1 size1 start2 size2 h b apart inside p =
      absurd (omega (arith, h, b.first))
  bn_merge-Rearranged (suc fuel) s start1 size1 start2 size2 h b apart inside p =
      rw
        (
          le→leb (start1 + size1) start2 apart,
          le→leb (start2 + size2) (length s) (omega (arith, inside, p.size)),
        )
        (elim (Bool-cases (size1 == 1 && size2 == 1)) [
          | inl e ↦ rw e (
              cswap_greater-Rearranged arr s start1 start2 (omega (arith, apart, b.first))
                (omega (arith, inside, b.second)) p)
          | inr e ↦ rw e (elim (Bool-cases (size1 == 1 && size2 == 2)) [
            | inl f ↦ rw f (
                Returns-bind
                  (cswap_greater-Rearranged arr s start1 (start2 + 1)
                    (omega (arith, apart, b.first)) (omega (arith, inside, second_is size1 size2 f))
                    p)
                  λ t q.
                    cswap_greater-Rearranged arr t start1 start2 (omega (arith, apart, b.first))
                      (omega (arith, inside, b.second)) q)
            | inr f ↦ rw f (elim (Bool-cases (size1 == 2 && size2 == 1)) [
              | inl g ↦ rw g (
                  Returns-bind
                    (cswap_greater-Rearranged arr s start1 start2 (omega (arith, apart, b.first))
                      (omega (arith, inside, b.second)) p)
                    λ t q.
                      cswap_greater-Rearranged arr t (start1 + 1) start2
                        (omega (arith, apart, first_is size1 size2 g))
                        (omega (arith, inside, b.second)) q)
              | inr g ↦ rw g (
                  let sh = second_share-Shares size1 size2 b (not_base size1 size2 b e f g) in
                  let s1 = size1 / 2 in
                  let s2 = second_share size1 size2 in
                  let i1 = sh.inside1 in
                  let i2 = sh.inside2 in
                  Returns-bind
                    (bn_merge-Rearranged fuel s start1 s1 start2 s2 (omega (arith, h, i1, i2))
                      sh.low (omega (arith, apart, i1)) (omega (arith, inside, i2)) p)
                    λ t q.
                      Returns-bind
                        (bn_merge-Rearranged fuel t (start1 + s1) (size1 - s1) (start2 + s2)
                          (size2 - s2) (omega (arith, h, i1, i2, sh.low.first)) sh.high
                          (omega (arith, apart, i1)) (omega (arith, inside, i2)) q)
                        λ u r.
                          bn_merge-Rearranged fuel u (start1 + s1) (size1 - s1) start2 s2
                            (omega (arith, h, i1, i2, sh.low.first)) sh.cross
                            (omega (arith, apart, i1)) (omega (arith, inside, i2)) r)
            ])
          ])
        ])

  bn_sort-Rearranged :
      (fuel : ℕ) (s : List A) (start size : ℕ)
      → size < fuel
      → start + size ≤ length arr
      → Rearranged arr s
      → Returns (Rearranged arr) (bn_sort fuel s start size)
  unfolding bn_sort
  bn_sort-Rearranged zero s start size h inside p = absurd (omega (arith, h))
  bn_sort-Rearranged (suc fuel) s start size h inside p = elim (Bool-cases (leb size 1)) [
    | inl e ↦ rw e (returns p)
    | inr e ↦
        let more : 1 < size = leb→gt size 1 e in
        let s2 = size / 2 in
        rw e (
          Returns-bind
            (bn_sort-Rearranged fuel s start s2 (omega (arith, h, more)) (omega (arith, inside)) p)
            λ t q.
              Returns-bind
                (bn_sort-Rearranged fuel t (start + s2) (size - s2) (omega (arith, h, more))
                  (omega (arith, inside)) q)
                λ u r.
                  bn_merge-Rearranged size u start s2 (start + s2) (size - s2) (omega arith)
                    (record {
                      first = omega (arith, more);
                      second = omega (arith, more);
                      above = omega arith;
                      below = omega arith;
                    })
                    (omega arith) (omega (arith, inside)) r)
  ]

-- `bose_nelson_sort` returns on every slice, whatever the order of the entries is, and the result is
-- a rearrangement of the slice.
pub bose_nelson_sort-Rearranged :
    {A : Type 0} ⦃o : Ord A⦄ ⦃m : Cmov A⦄ (arr : List A)
    → Returns (Rearranged arr) (bose_nelson_sort arr)
unfolding bose_nelson_sort
bose_nelson_sort-Rearranged arr =
    bn_sort-Rearranged arr (length arr + 1) arr 0 (length arr) (omega arith) (omega arith)
      (record { size = refl; perm = Perm.rfl })
