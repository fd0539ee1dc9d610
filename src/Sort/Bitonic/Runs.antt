-- ===== src/Sort/Bitonic/Runs.antt =====
-- crates/sort/src/bitonic.rs: the sorter only swaps entries of the slice, and returns.
use native.Mathlib.Nat.{
  two-pow-succ, pow-le-pow_right, mul-le-mul_right, suc-mul, mul_assoc, div-add-mod,
}
use native.Mathlib.Decide.{dec_lt}
use rostl.Base.{
  ℕ, zero, suc, ◌+◌, ◌-◌, ◌*◌, ◌/◌, ◌^◌, ◌≤◌, ◌<◌, ◌≡◌, refl, ap, ◌∙◌, Bool, true, not, Option,
  some, List, ltb, length, get_elem?-some, if◌then◌else◌, arith, Returns, returns, Returns-bind,
  for_range-Returns, lt→ltb, le→leb, eq→==, Bool-cases, inl, inr, ltb→lt,
}
use rostl.Primitives.Powers.Laws.{IsNextPower, get_strictly_bigger_power_of_two_correct, pow_pos}
use rostl.Primitives.Zeros.{zeros_loop-pow}
use rostl.Sort.Bitonic.{
  Ord, trailing_zeros, is_power_of_two, compare_swap, merge_blocks, merge_pow2, merge_ends, merge,
  sort_inner, region,
}

trailing_zeros_lem : (k : ℕ) → k < 64 → trailing_zeros (2 ^ k) ≡ k
unfolding trailing_zeros
trailing_zeros_lem k h = zeros_loop-pow k 64 h

is_power_of_two_lem : (k : ℕ) → k < 64 → is_power_of_two (2 ^ k) ≡ true
unfolding is_power_of_two
is_power_of_two_lem k h = rw (trailing_zeros_lem k h) (eq→== (2 ^ k) (2 ^ k) refl)

-- `2 * d` is the size of a block, of which there are `b`.
block_inside : (b d j : ℕ) → j < b → 2 * j * d + 2 * d ≤ 2 * (b * d)
block_inside b d j h =
    omega
      (arith, mul_assoc 2 j d, mul-le-mul_right {m = suc j} {n = b} d (omega arith), suc-mul j d)

whole_blocks : (size sz : ℕ) → 2 * (2 ^ sz * (size / 2 ^ (sz + 1))) ≤ size
whole_blocks size sz =
    let q = size / 2 ^ (sz + 1) in
    let dbl : 2 ^ (sz + 1) ≡ 2 * 2 ^ sz =
      ap (λ t. 2 ^ t) {x = sz + 1} {y = suc sz} (omega arith) ∙ omega (arith, two-pow-succ sz) in
    let e : 2 ^ (sz + 1) * q ≡ 2 * (2 ^ sz * q) = ap (λ t. t * q) dbl ∙ mul_assoc 2 (2 ^ sz) q in
    omega (arith, div-add-mod size (2 ^ (sz + 1)))

region_lem :
    {A : Type 0} (arr : List A) (start size : ℕ)
    → 1 < size
    → start + size ≤ length arr
    → region arr start size ≡ true
region_lem arr start size h b = rw (lt→ltb 1 size h, le→leb (start + size) (length arr) b) refl

-- Half of the power of two that `merge` computes.
half_power :
    (size p2 : ℕ)
    → 1 < size
    → size < 2 ^ 63
    → (k : ℕ) → p2 ≡ 2 ^ k
    → IsNextPower (size - 1) p2
    → (j : ℕ) × (p2 / 2 ≡ 2 ^ j) × (2 ^ j < size) × (size ≤ 2 ^ j + 2 ^ j) × (j < 64)
half_power size p2 more small zero e v = absurd (omega (arith, v.above))
half_power size p2 more small (suc k) e v =
    let dbl = two-pow-succ k in
    let below : 2 ^ k < size = elim (dec_lt (size - 1) (2 ^ k)) [
      | yes h ↦ absurd (omega (arith, v.least k h, pow_pos k))
      | no h ↦ omega arith
    ] in
    let few : k < 64 = elim (dec_lt k 64) [
      | yes h ↦ h
      | no h ↦
          absurd
            (omega (arith, pow-le-pow_right {n = 2} (omega arith) {i = 64} {j = k} (omega arith)))
    ] in
    (k, omega arith, below, omega (arith, v.above), few)

more_than_one : (k : ℕ) → 0 < k → 1 < 2 ^ k
more_than_one zero h = absurd (omega arith)
more_than_one (suc k) h = omega (arith, two-pow-succ k, pow_pos k)

module _ {S A : Type 0} ⦃o : Ord A⦄ (keys : S → List A) (swap : S → ℕ → ℕ → Bool → Option S) (n : ℕ)
    (I : S → Type 0) (sized : (s : S) → I s → length (keys s) ≡ n)
    (keep : (s : S) (i j : ℕ) (c : Bool) → I s → i < j → j < n → Returns I (swap s i j c)) where
  compare_swap-keeps :
      (up : Bool) (left right : ℕ) (s : S)
      → left < right
      → right < n
      → I s
      → Returns I (compare_swap keys swap up left right s)
  unfolding compare_swap
  compare_swap-keeps up left right s h b p =
      let (l, e) = get_elem?-some (keys s) left (omega (arith, sized s p)) in
      let (r, e') = get_elem?-some (keys s) right (omega (arith, sized s p)) in
      rw (e, e') (keep s left right (if up then not (o.le l r) else o.le l r) p h b)

  merge_ends-keeps :
      (up : Bool) (start size s2 : ℕ) (s : S)
      → 0 < s2
      → start + size ≤ n
      → I s
      → Returns I (merge_ends keys swap up start size s2 s)
  unfolding merge_ends
  merge_ends-keeps up start size s2 s pos b p =
      for_range-Returns (λ i. I) (size - s2) _ (size - s2) 0 s (omega arith)
        (λ i t lo hi q.
          compare_swap-keeps up (start + i) (start + i + s2) t (omega arith) (omega arith) q)
        p

  merge_blocks-keeps :
      (up : Bool) (start size sz : ℕ) (s : S)
      → 2 * (2 ^ sz * (size / 2 ^ (sz + 1))) ≤ size
      → start + size ≤ n
      → I s
      → Returns I (merge_blocks keys swap up start size sz s)
  unfolding merge_blocks
  merge_blocks-keeps up start size sz s whole b p =
      let s2 = size / 2 ^ (sz + 1) in
      for_range-Returns (λ j. I) (2 ^ sz) _ (2 ^ sz) 0 s (omega arith)
        (λ j t lo hi q.
          for_range-Returns (λ i. I) s2 _ s2 0 t (omega arith)
            (λ i u lo' hi' q'.
              compare_swap-keeps up (start + 2 * j * s2 + i) (start + 2 * j * s2 + i + s2) u
                (omega arith) (omega (arith, block_inside (2 ^ sz) s2 j hi)) q')
            q)
        p

  merge_pow2-keeps :
      (up : Bool) (start k : ℕ) (s : S)
      → 0 < k
      → k < 64
      → start + 2 ^ k ≤ n
      → I s
      → Returns I (merge_pow2 keys swap up start (2 ^ k) s)
  unfolding merge_pow2
  merge_pow2-keeps up start k s pos h b p =
      let more : 1 < 2 ^ k = more_than_one k pos in
      rw
        (
          region_lem (keys s) start (2 ^ k) more (omega (arith, sized s p)),
          is_power_of_two_lem k h,
          trailing_zeros_lem k h,
        )
        (for_range-Returns (λ i. I) k _ k 0 s (omega arith)
          (λ sz t lo hi q. merge_blocks-keeps up start (2 ^ k) sz t (whole_blocks (2 ^ k) sz) b q)
          p)

  front_part :
      (up : Bool) (start k : ℕ) (t : S)
      → k < 64
      → start + 2 ^ k ≤ n
      → I t
      → Returns I (if ltb 1 (2 ^ k) then merge_pow2 keys swap up start (2 ^ k) t else some t)
  front_part up start zero t few inside q = returns q
  front_part up start (suc k) t few inside q =
      rw (lt→ltb 1 (2 ^ suc k) (more_than_one (suc k) (omega arith)))
        (merge_pow2-keeps up start (suc k) t (omega arith) few inside q)

  merge-keeps :
      (fuel : ℕ) (up : Bool) (start size : ℕ) (s : S)
      → size ≤ fuel
      → 1 < size
      → start + size ≤ n
      → n < 2 ^ 63
      → I s
      → Returns I (merge keys swap fuel up start size s)
  unfolding merge
  merge-keeps zero up start size s f more b small p = absurd (omega arith)
  merge-keeps (suc fuel) up start size s f more b small p =
      rw (region_lem (keys s) start size more (omega (arith, sized s p))) (
        Returns-bind (get_strictly_bigger_power_of_two_correct (size - 1) (omega arith)) λ p2 v.
          let (k, half, below, above, few) =
            half_power size p2 more (omega arith) v.exponent v.power v in
          rw half (
            Returns-bind (merge_ends-keeps up start size (2 ^ k) s (pow_pos k) b p) λ ends q.
              Returns-bind (front_part up start k ends few (omega arith) q) λ front q'.
                elim (Bool-cases (ltb 1 (size - 2 ^ k))) [
                  | inr done ↦ rw done (returns q')
                  | inl left ↦ rw left (
                      merge-keeps fuel up (start + 2 ^ k) (size - 2 ^ k) front
                        (omega (arith, pow_pos k)) (ltb→lt 1 (size - 2 ^ k) left) (omega arith)
                        small q')
                ]))

  -- The sorter returns with the invariant of its swaps; as much fuel as the region's size is enough.
  pub sort_inner-keeps :
      (fuel : ℕ) (up : Bool) (start size : ℕ) (s : S)
      → size ≤ fuel
      → 1 < size
      → start + size ≤ n
      → n < 2 ^ 63
      → I s
      → Returns I (sort_inner keys swap fuel up start size s)
  unfolding sort_inner
  sort_inner-keeps zero up start size s f more b small p = absurd (omega arith)
  sort_inner-keeps (suc fuel) up start size s f more b small p =
      let last : (t : S) → I t → Returns I (merge keys swap size up start size t) =
        λ t q. merge-keeps size up start size t (omega arith) more b small q in
      rw (region_lem (keys s) start size more (omega (arith, sized s p)))
        (elim (Bool-cases (ltb 1 (size - size / 2))) [
          | inr two ↦ rw two (last s p)
          | inl upper ↦
              let h = ltb→lt 1 (size - size / 2) upper in
              rw upper (
                Returns-bind
                  (Returns-bind
                    (sort_inner-keeps fuel up (start + size / 2) (size - size / 2) s (omega arith) h
                      (omega arith) small p)
                    λ t q. elim (Bool-cases (ltb 1 (size / 2))) [
                      | inr one ↦ rw one (returns q)
                      | inl lower ↦ rw lower (
                          sort_inner-keeps fuel (not up) start (size / 2) t (omega arith)
                            (ltb→lt 1 (size / 2) lower) (omega arith) small q)
                    ])
                  last)
        ])
