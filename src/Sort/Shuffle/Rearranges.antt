-- ===== src/Sort/Shuffle/Rearranges.antt =====
-- crates/sort/src/shuffle.rs: whatever the generator draws, the result is a rearrangement.
use native.Mathlib.Decide.{dec_lt}
use mathlib.Core.List.Perm
use mathlib.Core.Option.{some-injective}
use rostl.Base.{
  ℕ, zero, suc, ◌^◌, ◌<◌, ◌≡◌, refl, ap, sym, ◌∙◌, some, List, [], ◌∷◌, map, length, get_elem?,
  get_elem?-set, get_elem?-some, get_elem?-none, length-set, store_lem, list_ext, arith, Returns,
  returns, Returns-bind, Returns-imp, for_range-Returns, ==_iff, ne→==,
}
use rostl.Primitives.{Cmov}
use rostl.Sort.Bitonic.Together.{Rearranged, bitonic_sort-Rearranged}
use rostl.Sort.Shuffle.{
  Wrapper, wrapper_cmov, wrapper_ord, wrap_from, unwrap_round, unwrap_data, shuffle,
}

abbrev values : {A : Type 0} → List (Wrapper A) → List A
values [] = []
values (w ∷ wrapped) = w.value ∷ values wrapped

module _ {A : Type 0} where
  length-values : (wrapped : List (Wrapper A)) → length (values wrapped) ≡ length wrapped
  length-values [] = refl
  length-values (w ∷ wrapped) = ap suc (length-values wrapped)

  get_elem?-values :
      (wrapped : List (Wrapper A)) (i : ℕ) {w : Wrapper A}
      → get_elem? wrapped i ≡ some w
      → get_elem? (values wrapped) i ≡ some w.value
  get_elem?-values [] i e = absurd (cc)
  get_elem?-values (v ∷ wrapped) zero {w} e = ap (λ t. some t.value) (some-injective v w e)
  get_elem?-values (v ∷ wrapped) (suc i) e = get_elem?-values wrapped i e

  values-map : (wrapped : List (Wrapper A)) → values wrapped ≡ map (λ w. w.value) wrapped
  values-map [] = refl
  values-map (w ∷ wrapped) = ap (◌∷◌ w.value) (values-map wrapped)

  values-wrap_from : (rng : ℕ → ℕ) (i : ℕ) (arr : List A) → values (wrap_from rng i arr) ≡ arr
  unfolding wrap_from
  values-wrap_from rng i [] = refl
  values-wrap_from rng i (x ∷ arr) = ap (◌∷◌ x) (values-wrap_from rng (suc i) arr)

  -- The first `i` entries are written.
  record Unwrapped (arr : List A) (wrapped : List (Wrapper A)) (i : ℕ) (out : List A) : Type 0 where
    size : length out ≡ length arr
    entry : (j : ℕ) → j < i → get_elem? out j ≡ get_elem? (values wrapped) j

  round-Unwrapped :
      (arr : List A) (wrapped : List (Wrapper A)) (i : ℕ) (out : List A)
      → length wrapped ≡ length arr
      → i < length arr
      → Unwrapped arr wrapped i out
      → Returns (Unwrapped arr wrapped (suc i)) (unwrap_round wrapped i out)
  unfolding unwrap_round
  round-Unwrapped arr wrapped i out e h u =
      let (w, at) = get_elem?-some wrapped i (omega arith) in
      rw (at, store_lem out i w.value (omega (arith, u.size)))
        (returns (record {
          size = length-set out i w.value ∙ u.size;
          entry = λ j hj.
              get_elem?-set out i j w.value (omega (arith, u.size)) ∙ elim (dec_lt j i) [
                | yes old ↦ rw (ne→== i j (omega arith)) (u.entry j old)
                | no new ↦ rw ((==_iff i j).1 (omega arith)) (
                    sym (get_elem?-values wrapped i at)
                    ∙ ap (get_elem? (values wrapped)) {x = i} {y = j} (omega arith))
              ];
        }))

  unwrap_data-values :
      (arr : List A) (wrapped : List (Wrapper A))
      → length wrapped ≡ length arr
      → Returns (λ out. out ≡ values wrapped) (unwrap_data arr wrapped)
  unfolding unwrap_data
  unwrap_data-values arr wrapped e =
      Returns-imp
        (for_range-Returns (Unwrapped arr wrapped) (length arr) _ (length arr) 0 arr (omega arith)
          (λ i out lo hi u. round-Unwrapped arr wrapped i out e hi u)
          (record { size = refl; entry = λ j hj. absurd (omega arith) }))
        λ out u. list_ext out (values wrapped) λ j. elim (dec_lt j (length arr)) [
          | yes h ↦ u.entry j h
          | no h ↦
              get_elem?-none out j (omega (arith, u.size))
              ∙ sym (get_elem?-none (values wrapped) j (omega (arith, length-values wrapped)))
        ]

  -- `shuffle` on a slice shorter than 2^63 returns a rearrangement of the slice, whatever the
  -- generator draws.
  pub shuffle-Rearranged :
      ⦃m : Cmov A⦄ (rng : ℕ → ℕ) (arr : List A)
      → length arr < 2 ^ 63
      → Returns (Rearranged arr) (shuffle rng arr)
  unfolding shuffle
  shuffle-Rearranged rng arr small =
      let w = wrap_from rng 0 arr in
      let same : values w ≡ arr = values-wrap_from rng 0 arr in
      let long : length w ≡ length arr = sym (length-values w) ∙ ap length same in
      Returns-bind (bitonic_sort-Rearranged w (omega arith)) λ sorted r.
        Returns-imp (unwrap_data-values arr sorted (r.size ∙ long)) λ out e. record {
          size = ap length e ∙ length-values sorted ∙ r.size ∙ long;
          perm =
              rw e (
                rw (← values-map sorted, ← values-map w, same) at (Perm.map (λ t. t.value) r.perm));
        }
