-- ===== src/Sort/Compaction/Compact.antt =====
-- crates/sort/src/compaction.rs: what `compute_prefix_sum` and `compact` return.
use native.Mathlib.Decide.{dec_lt}
use mathlib.Core.List.{perm-append_left_iff, perm_middle}
use mathlib.Core.Option.{some-injective}
use mathlib.Core.List.Perm
use rostl.Base.{
  ℕ, zero, suc, ◌+◌, ◌-◌, ◌^◌, ◌≤◌, ◌<◌, ◌≡◌, ◌⊎◌, inl, inr, refl, ap, sym, ◌∙◌, Bool, false, List,
  [], ◌∷◌, ◌++◌, Perm, some, arith, if◌then◌else◌, length, get_elem?, take, drop, store_lem,
  replicate, length-take, length-replicate, length-set, get_elem?-set, get_elem?-take,
  get_elem?-some, get_elem?-none, take-append-drop, list_ext, Returns, returns, Returns-bind,
  Returns-imp, for_range-Returns, Bool-cases, ==_iff, ne→==, get_elem?-replicate,
}
use rostl.Primitives.{Cmov}
use rostl.Primitives.Usize.{cmov_base}
use rostl.Sort.Compaction.{prefix_sum_round, compute_prefix_sum, compact}
use rostl.Sort.Compaction.PrefixSum.{IsPrefixSum}
use rostl.Sort.Compaction.Ends.{Compacted}
use rostl.Sort.Compaction.Whole.{compact_payload-Compacted}

-- The specification: the entries that are not dummies, and those that are, in their order.
abbrev pub reals : {A : Type 0} → (A → Bool) → List A → List A
reals is_dummy [] = []
reals is_dummy (x ∷ xs) = if is_dummy x then reals is_dummy xs else x ∷ reals is_dummy xs

abbrev pub dummies : {A : Type 0} → (A → Bool) → List A → List A
dummies is_dummy [] = []
dummies is_dummy (x ∷ xs) = if is_dummy x then x ∷ dummies is_dummy xs else dummies is_dummy xs

module _ {A : Type 0} (is_dummy : A → Bool) where
  -- How many of the first `i` entries are not dummies.
  abbrev pub rank : List A → ℕ → ℕ
  rank arr i = length (reals is_dummy (take i arr))

  rank_step :
      (arr : List A) (i : ℕ) {x : A}
      → get_elem? arr i ≡ some x
      → rank arr (suc i) ≡ rank arr i + cmov_base 1 0 (is_dummy x)
  rank_step [] i e = absurd (cc)
  rank_step (y ∷ arr) zero {x} e =
      let same = some-injective y x e in
      rw (← same)
        (elim (Bool-cases (is_dummy y)) [ inl d ↦ rw d (omega arith) | inr d ↦ rw d (omega arith) ])
  rank_step (y ∷ arr) (suc i) e = ground (arith, rank_step arr i e)

  pub reals_le : (arr : List A) → length (reals is_dummy arr) ≤ length arr
  reals_le [] = omega arith
  reals_le (x ∷ arr) = ground (arith, reals_le arr)

  rank_all : (arr : List A) → rank arr (length arr) ≡ length (reals is_dummy arr)
  rank_all [] = refl
  rank_all (y ∷ arr) = ground (arith, rank_all arr)

  -- The place of the `r`-th entry that is no dummy.
  abbrev Found : List A → ℕ → Type 0
  Found arr r =
      (i : ℕ) × (i < length arr)
      × (rank arr i ≡ r)
      × (rank arr (suc i) ≡ suc r)
      × (get_elem? arr i ≡ get_elem? (reals is_dummy arr) r)

  find_behind :
      (x : A) (arr : List A) (r : ℕ) → is_dummy x ≡ false → Found arr r → Found (x ∷ arr) (suc r)
  find_behind x arr r d (i, inside, at, after, same) =
      (suc i, omega arith, rw d (omega arith), rw d (omega arith), rw d same)

  find_real : (arr : List A) (r : ℕ) → r < length (reals is_dummy arr) → Found arr r
  find_real [] r h = absurd (omega arith)
  find_real (x ∷ arr) zero h = elim (Bool-cases (is_dummy x)) [
    | inl d ↦
        let (i, inside, at, after, same) = find_real arr zero (rw d at h) in
        (suc i, omega arith, rw d at, rw d after, rw d same)
    | inr d ↦ (0, omega arith, refl, rw d, rw d)
  ]
  find_real (x ∷ arr) (suc r) h = elim (Bool-cases (is_dummy x)) [
    | inl d ↦
        let (i, inside, at, after, same) = find_real arr (suc r) (rw d at h) in
        (suc i, omega arith, rw d at, rw d after, rw d same)
    | inr d ↦ find_behind x arr r d (find_real arr r (omega (arith, rw d at h)))
  ]

  reals-dummies-perm : (arr : List A) → Perm (reals is_dummy arr ++ dummies is_dummy arr) arr
  reals-dummies-perm [] = Perm.rfl
  reals-dummies-perm (x ∷ arr) = elim (Bool-cases (is_dummy x)) [
    | inl d ↦ rw d (
        Perm.trans (perm_middle (reals is_dummy arr) (dummies is_dummy arr))
          (Perm.cons x (reals-dummies-perm arr)))
    | inr d ↦ rw d (Perm.cons x (reals-dummies-perm arr))
  ]

  prefix_step :
      (arr : List A) (i : ℕ)
      → i < length arr
      → (rank arr (suc i) ≡ rank arr i) ⊎ (rank arr (suc i) ≡ suc (rank arr i))
  prefix_step arr i h =
      let (x, e) = get_elem?-some arr i h in
      elim (Bool-cases (is_dummy x)) [
        | inl d ↦ inl (rank_step arr i e ∙ rw d (omega arith))
        | inr d ↦ inr (rank_step arr i e ∙ rw d (omega arith))
      ]

  -- The loop of `compute_prefix_sum` after `i` rounds.
  record Summed (arr : List A) (i : ℕ) (sarr : List ℕ) : Type 0 where
    size : length sarr ≡ suc (length arr)
    entry : (j : ℕ) → j ≤ i → get_elem? sarr j ≡ some (rank arr j)

  round-Summed :
      (arr : List A) (i : ℕ) (sarr : List ℕ)
      → i < length arr
      → Summed arr i sarr
      → Returns (Summed arr (suc i)) (prefix_sum_round arr is_dummy i sarr)
  unfolding prefix_sum_round
  round-Summed arr i sarr h s =
      let (x, e) = get_elem?-some arr i h in
      let v = rank arr i + cmov_base 1 0 (is_dummy x) in
      rw (e, s.entry i (omega arith), store_lem sarr (i + 1) v (omega (arith, s.size)))
        (returns (record {
          size = length-set sarr (i + 1) v ∙ s.size;
          entry = λ j hj.
              get_elem?-set sarr (i + 1) j v (omega (arith, s.size)) ∙ elim (dec_lt i j) [
                | yes new ↦ rw ((==_iff (i + 1) j).1 (omega arith)) (
                    ap some
                      (sym (rank_step arr i e) ∙ ap (rank arr) {x = suc i} {y = j} (omega arith)))
                | no old ↦ rw (ne→== (i + 1) j (omega arith)) (s.entry j (omega arith))
              ];
        }))

  -- `compute_prefix_sum` returns the number of entries that are no dummies before each place.
  pub compute_prefix_sum-IsPrefixSum :
      (arr : List A)
      → Returns
          (λ payload. IsPrefixSum payload (length arr) (rank arr))
          (compute_prefix_sum arr is_dummy)
  unfolding compute_prefix_sum
  compute_prefix_sum-IsPrefixSum arr =
      Returns-imp
        (for_range-Returns (Summed arr) (length arr) _ (length arr) 0 (replicate (length arr + 1) 0)
          (omega arith) (λ i sarr lo hi s. round-Summed arr i sarr hi s)
          (record {
            size = length-replicate (length arr + 1) 0 ∙ omega arith;
            entry = λ j hj.
                get_elem?-replicate (length arr + 1) j 0 (omega arith)
                ∙ ap (λ t. some (rank arr t)) {x = 0} {y = j} (omega arith);
          }))
        λ payload s. record { size = s.size; entry = s.entry; step = prefix_step arr }

-- What `compact` promises: the entries that are no dummies, in their order and counted, and then
-- the dummies in some order.
pub record IsCompact {A : Type 0} (is_dummy : A → Bool) (arr : List A) (r : List A × ℕ)
    : Type 0 where
  pub count : r.1 ≡ length (reals is_dummy arr)
  pub front : take r.1 r.0 ≡ reals is_dummy arr
  pub rest : Perm (drop r.1 r.0) (dummies is_dummy arr)

module _ {A : Type 0} (is_dummy : A → Bool) (arr : List A) where
  front_lem :
      (out : List A)
      → Compacted arr (rank is_dummy arr) (length arr) out
      → take (length (reals is_dummy arr)) out ≡ reals is_dummy arr
  front_lem out c = list_ext _ _ at
    where
      at :
          (r : ℕ)
          → get_elem? (take (length (reals is_dummy arr)) out) r ≡ get_elem? (reals is_dummy arr) r
      at r = elim (dec_lt r (length (reals is_dummy arr))) [
        | yes h ↦
            let (i, inside, rank_i, after, same) = find_real is_dummy arr r h in
            get_elem?-take (length (reals is_dummy arr)) out r h
            ∙ ap (get_elem? out) {x = r} {y = rank is_dummy arr i - 0} (omega arith)
            ∙ c.place i inside (after ∙ ap suc (sym rank_i))
            ∙ same
        | no h ↦
            get_elem?-none (take (length (reals is_dummy arr)) out) r (
              omega (
                arith,
                c.size,
                reals_le is_dummy arr,
                length-take (length (reals is_dummy arr)) out,
              ))
            ∙ sym (get_elem?-none (reals is_dummy arr) r (omega arith))
      ]

  rest_lem :
      (out : List A)
      → Compacted arr (rank is_dummy arr) (length arr) out
      → Perm (drop (length (reals is_dummy arr)) out) (dummies is_dummy arr)
  rest_lem out c =
      let n = length (reals is_dummy arr) in
      let split = rw (← take-append-drop n out, front_lem out c) at c.perm in
      (perm-append_left_iff (reals is_dummy arr)).0
        (Perm.trans split (Perm.symm (reals-dummies-perm is_dummy arr)))

  -- `compact` on a slice shorter than 2^63 returns, and keeps its promise.
  pub compact_correct :
      ⦃cm : Cmov A⦄ → length arr < 2 ^ 63 → Returns (IsCompact is_dummy arr) (compact arr is_dummy)
  unfolding compact
  compact_correct b = Returns-bind (compute_prefix_sum-IsPrefixSum is_dummy arr) λ payload s.
      Returns-bind (compact_payload-Compacted arr payload (rank is_dummy arr) b s) λ out c.
        let total : get_elem? payload (length payload - 1) ≡ some (length (reals is_dummy arr)) =
          ap (get_elem? payload) {x = length payload - 1} {y = length arr} (omega (arith, s.size))
          ∙ s.entry (length arr) (omega arith)
          ∙ ap some (rank_all is_dummy arr) in
        rw total (returns (record { count = refl; front = front_lem out c; rest = rest_lem out c }))
