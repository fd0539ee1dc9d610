-- ===== src/Sort/Compaction/Whole.antt =====
-- crates/sort/src/compaction.rs: what `compact_payload` does on any number of entries.
use native.Mathlib.Decide.{dec_lt}
use native.Mathlib.Nat.{two-pow-succ, mod-lt}
use rostl.Base.{
  ℕ, zero, suc, ◌+◌, ◌-◌, ◌%◌, ◌^◌, ◌<◌, ◌≡◌, refl, sym, subst, List, ◌++◌, arith, length, take,
  drop, length-take, length-drop, Returns, returns, Returns-bind, Returns-imp, ne→==, ==_iff,
  le→leb, lt→leb,
}
use rostl.Primitives.{Cmov}
use rostl.Primitives.Usize.{checked_rem_lem}
use rostl.Primitives.Powers.Laws.{get_smaller_or_equal_power_of_two_correct, lt_pow}
use rostl.Sort.Compaction.{
  exchange_ends, compact_payload_offset, compact_payload_loop, compact_payload,
}
use rostl.Sort.Compaction.PrefixSum.{
  IsPrefixSum, IsPrefixSum-take, IsPrefixSum-drop, grows, marked_before_lem,
}
use rostl.Sort.Compaction.Halves.{Placed}
use rostl.Sort.Compaction.Ends.{Compacted, Compacted-short, Compacted-of_Placed, ends-Compacted}
use rostl.Sort.Compaction.Offset.{sized_lem, compact_payload_offset-Placed}

module _ {A : Type 0} ⦃cm : Cmov A⦄ where
  -- The fuel of a power of two is enough.
  power-Placed :
      (arr : List A) (payload : List ℕ) (p : ℕ → ℕ) (n k z : ℕ)
      → length arr ≡ n
      → n ≡ 2 ^ k
      → 1 < n
      → z < n
      → IsPrefixSum payload n p
      → Returns (Placed arr p n z) (compact_payload_offset n arr payload z)
  power-Placed arr payload p n zero z e pw more hz s = absurd (omega arith)
  power-Placed arr payload p n (suc k) z e pw more hz s =
      Returns-imp
        (compact_payload_offset-Placed k n arr payload p z (omega arith)
          (omega (arith, two-pow-succ k, lt_pow k)) (subst (λ t. IsPrefixSum payload t p) pw s)
          (omega arith))
        λ out w. subst (λ t. Placed arr p t z out) (sym pw) w

  -- On a slice shorter than 2^63, with a prefix sum of marks as its payload, `compact_payload` returns
  -- a permutation in which a marked entry stands at the number of marked entries before it.
  loop-Compacted :
      (fuel : ℕ) (arr : List A) (payload : List ℕ) (p : ℕ → ℕ) (n : ℕ)
      → length arr ≡ n
      → n < fuel
      → n < 2 ^ 63
      → IsPrefixSum payload n p
      → Returns (Compacted arr p n) (compact_payload_loop fuel arr payload)
  unfolding compact_payload_loop
  loop-Compacted zero arr payload p n e f b s = absurd (omega arith)
  loop-Compacted (suc fuel) arr payload p n e f b s =
      rw (sized_lem arr s e, e)
        (elim (dec_lt 1 n) [
          | no few ↦
              rw (le→leb n 1 (omega arith)) (returns (Compacted-short arr p n e (omega arith)))
          | yes many ↦ rw (lt→leb n 1 many) (
              Returns-bind (get_smaller_or_equal_power_of_two_correct n (omega arith) b) λ n1 v.
                elim (dec_lt n1 n) [
                  | no exact ↦ rw ((==_iff (n - n1) 0).1 (omega (arith, v.within))) (
                      Returns-imp
                        (power-Placed arr payload p n v.exponent 0 e
                          (omega (arith, v.power, v.within)) many (omega arith) s)
                        λ out w. Compacted-of_Placed s w)
                  | yes rest ↦
                      let n2 = n - n1 in
                      let sum : n2 + n1 ≡ n = omega arith in
                      let s' : IsPrefixSum payload (n2 + n1) p =
                        subst (λ t. IsPrefixSum payload t p) (sym sum) s in
                      let short : n2 < n1 = omega (arith, v.greatest) in
                      rw
                        (
                          ne→== n2 0 (omega arith),
                          marked_before_lem s n2 (omega arith),
                          checked_rem_lem (n1 - n2 + (p n2 - p 0)) n1 (omega arith),
                        )
                        (Returns-bind
                          (loop-Compacted fuel (take n2 arr) (take (n2 + 1) payload) p n2
                            (length-take n2 arr (omega arith)) (omega arith) (omega arith)
                            (IsPrefixSum-take s n2 (omega arith)))
                          λ left l.
                            Returns-bind
                              (power-Placed (drop n2 arr) (drop n2 payload) (λ i. p (n2 + i)) n1
                                v.exponent ((n1 - n2 + (p n2 - p 0)) % n1)
                                (omega (arith, length-drop n2 arr)) v.power (omega arith)
                                (mod-lt _ (omega arith)) (IsPrefixSum-drop s' n2 n1 refl))
                              λ right r.
                                subst
                                  (λ t.
                                    Returns (Compacted arr p t)
                                      (exchange_ends n1 n2 (p n2 - p 0) (left ++ right)))
                                  sum (ends-Compacted arr left right p n1 n2 short (grows s') l r))
                ])
        ])

  -- On a slice shorter than 2^63 with a prefix sum of marks, `compact_payload` returns; the marked
  -- entries are at the front of the result, in their order, and the result is a permutation.
  pub compact_payload-Compacted :
      (arr : List A) (payload : List ℕ) (p : ℕ → ℕ)
      → length arr < 2 ^ 63
      → IsPrefixSum payload (length arr) p
      → Returns (Compacted arr p (length arr)) (compact_payload arr payload)
  unfolding compact_payload
  compact_payload-Compacted arr payload p b s =
      loop-Compacted (length arr + 1) arr payload p (length arr) refl (omega arith) b s
