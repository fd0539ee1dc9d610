-- ===== src/Sort/Batcher/Termination.antt =====
-- crates/sort/src/batcher.rs: the loops end, and only swap entries of the slice.
use mathlib.Core.List.Perm
use native.Mathlib.Nat.{min-le_right}
use rostl.Base.{
  ℕ, zero, suc, ◌+◌, ◌-◌, ◌*◌, ◌/◌, ◌%◌, ◌^◌, ◌<◌, refl, List, le→leb, ltb, ltb→lt, ◌==◌, length,
  min, arith, for_range-Returns, Returns, returns, Returns-bind, Bool-cases, inl, inr,
}
use rostl.Primitives.{Cmov}
use rostl.Primitives.Usize.{checked_add_lem}
use rostl.Sort.Bitonic.{Ord}
use rostl.Sort.Bitonic.Together.{Rearranged}
use rostl.Sort.Utils.{cswap_greater-Rearranged}
use rostl.Sort.Batcher.{
  exchange_round, exchange_runs, strides, passes, batcher_sort_paper, batcher_sort,
}

module _ {A : Type 0} ⦃o : Ord A⦄ ⦃m : Cmov A⦄ (arr : List A) (small : length arr < 2 ^ 63) where
  exchange_round-Rearranged :
      (p k j i : ℕ) (s : List A)
      → 0 < k
      → i + j + k < length arr
      → Rearranged arr s
      → Returns (Rearranged arr) (exchange_round p k j i s)
  unfolding exchange_round
  exchange_round-Rearranged p k j i s h b q =
      elim (Bool-cases ((i + j) / (p * 2) == (i + j + k) / (p * 2))) [
        | inl e ↦ rw e (cswap_greater-Rearranged arr s (i + j) (i + j + k) (omega (arith, h)) b q)
        | inr e ↦ rw e (returns q)
      ]

  exchange_runs-Rearranged :
      (fuel p k j : ℕ) (s : List A)
      → 0 < k
      → k < length arr
      → length arr < fuel + j
      → 0 < fuel
      → Rearranged arr s
      → Returns (Rearranged arr) (exchange_runs fuel (length arr) p k j s)
  unfolding exchange_runs
  exchange_runs-Rearranged zero p k j s h b f more q = absurd (omega (arith, more))
  exchange_runs-Rearranged (suc fuel) p k j s h b f more q =
      elim (Bool-cases (ltb j (length arr - k))) [
        | inr e ↦ rw e (returns q)
        | inl e ↦
            let room = ltb→lt j (length arr - k) e in
            rw e (
              Returns-bind
                (for_range-Returns (λ i. Rearranged arr) (min k (length arr - j - k)) _
                  (min k (length arr - j - k)) 0 s (omega arith)
                  (λ i t lo hi r.
                    exchange_round-Rearranged p k j i t h
                      (omega (arith, hi, room, min-le_right k (length arr - j - k))) r)
                  q)
                λ t r.
                  rw
                    (
                      checked_add_lem k k (omega (arith, b, small)),
                      checked_add_lem j (k + k) (omega (arith, b, small, room)),
                    )
                    (exchange_runs-Rearranged fuel p k (j + (k + k)) t h b (omega (arith, f, h))
                      (omega (arith, f, room)) r))
      ]

  strides-Rearranged :
      (fuel p k : ℕ) (s : List A)
      → 0 < p
      → k < fuel
      → k < length arr
      → Rearranged arr s
      → Returns (Rearranged arr) (strides fuel (length arr) p k s)
  unfolding strides
  strides-Rearranged zero p k s h f b q = absurd (omega (arith, f))
  strides-Rearranged (suc fuel) p k s h f b q = elim (Bool-cases (ltb 0 k)) [
    | inr e ↦ rw e (returns q)
    | inl e ↦
        let more = ltb→lt 0 k e in
        rw (e, le→leb k (length arr) (omega (arith, b)))
          (Returns-bind
            (exchange_runs-Rearranged (length arr + 1) p k (k % p) s more b (omega arith)
              (omega arith) q)
            λ t r.
              strides-Rearranged fuel p (k / 2) t h (omega (arith, f, more)) (omega (arith, b)) r)
  ]

  passes-Rearranged :
      (fuel p : ℕ) (s : List A)
      → 0 < p
      → length arr < fuel + p
      → 0 < fuel
      → Rearranged arr s
      → Returns (Rearranged arr) (passes fuel (length arr) p s)
  unfolding passes
  passes-Rearranged zero p s h f more q = absurd (omega (arith, more))
  passes-Rearranged (suc fuel) p s h f more q = elim (Bool-cases (ltb p (length arr))) [
    | inr e ↦ rw e (returns q)
    | inl e ↦
        let b = ltb→lt p (length arr) e in
        rw e (
          Returns-bind (strides-Rearranged (p + 1) p p s h (omega arith) b q) λ t r.
            rw (checked_add_lem p p (omega (arith, b, small))) (
              passes-Rearranged fuel (p + p) t (omega (arith, h)) (omega (arith, f, h))
                (omega (arith, f, b)) r))
  ]

-- `batcher_sort` returns on every slice shorter than 2^63, whatever the order of the entries is, and
-- the result is a rearrangement of the slice.
pub batcher_sort-Rearranged :
    {A : Type 0} ⦃o : Ord A⦄ ⦃m : Cmov A⦄ (arr : List A)
    → length arr < 2 ^ 63
    → Returns (Rearranged arr) (batcher_sort arr)
unfolding batcher_sort batcher_sort_paper
batcher_sort-Rearranged arr small =
    passes-Rearranged arr small (length arr + 1) 1 arr (omega arith) (omega arith) (omega arith)
      (record { size = refl; perm = Perm.rfl })
