-- ===== src/Sort/Compaction/RoundTrip.antt =====
-- crates/sort/src/compaction.rs: `distribute_payload` undoes `compact_payload`.
use native.Mathlib.Decide.{dec_lt}
use rostl.Base.{
  ℕ, zero, suc, ◌+◌, ◌-◌, ◌^◌, ◌<◌, ◌≡◌, inl, inr, refl, ap, sym, ◌∙◌, List, ◌++◌, some, true,
  arith, length, take, drop, length-append, take-append-drop, take-append, drop-append, length-take,
  length-drop, ◌==◌, Bool-cases, Option-cases, ==_iff, WhenReturns, WhenReturns-at,
  WhenReturns-intro, panics, gives, Returns, Returns-some, returns, le→leb, lt→leb, ne→==,
}
use rostl.Primitives.{Cmov}
use rostl.Primitives.Usize.{checked_rem}
use rostl.Primitives.Powers.{get_smaller_or_equal_power_of_two}
use rostl.Primitives.Powers.Laws.{IsLastPower, get_smaller_or_equal_power_of_two_correct}
use rostl.Sort.Swaps.{exchange_undo}
use rostl.Sort.Compaction.{
  exchange_ends, sized, marked_before, compact_payload_offset, compact_payload_loop,
  distribute_payload_loop, compact_payload, distribute_payload,
}
use rostl.Sort.Compaction.PrefixSum.{IsPrefixSum}
use rostl.Sort.Compaction.Undo.{Undone, offset-Undone}
use rostl.Sort.Compaction.Whole.{compact_payload-Compacted}

module _ {A : Type 0} ⦃cm : Cmov A⦄ where
  -- `out` is as long as `arr` and is taken back to it.
  abbrev LoopUndone : ℕ → List ℕ → List A → List A → Type 0
  LoopUndone fuel payload arr out =
      (length out ≡ length arr) × (distribute_payload_loop fuel out payload ≡ some arr)

  -- A slice that is split, undone from its parts.
  parts-Undone :
      (fuel : ℕ) (arr : List A) (payload : List ℕ) (n1 m z : ℕ) (left right out : List A)
      → sized arr payload ≡ true
      → 1 < length arr
      → get_smaller_or_equal_power_of_two (length arr) ≡ some n1
      → IsLastPower (length arr) n1
      → n1 < length arr
      → marked_before payload (length arr - n1) ≡ some m
      → checked_rem (n1 - (length arr - n1) + m) n1 ≡ some z
      → LoopUndone fuel (take (length arr - n1 + 1) payload) (take (length arr - n1) arr) left
      → Undone n1 (drop (length arr - n1) payload) z (drop (length arr - n1) arr) right
      → exchange_ends n1 (length arr - n1) m (left ++ right) ≡ some out
      → LoopUndone (suc fuel) payload arr out
  unfolding distribute_payload_loop exchange_ends
  parts-Undone fuel arr payload n1 m z left right out good many hp v rest hm hz l r ho =
      let n2 = length arr - n1 in
      let kept : length left ≡ n2 = l.0 ∙ length-take n2 arr (omega arith) in
      let both : length (left ++ right) ≡ length arr =
        omega (arith, length-append left right, r.0, length-drop n2 arr) in
      let (size, back) =
        exchange_undo n1 n2 _ (left ++ right) (omega (arith, v.greatest)) (omega arith) ho in
      let same : length out ≡ length arr = size ∙ both in
      (
        same,
        rw
            (
              same,
              good,
              lt→leb (length arr) 1 many,
              hp,
              ne→== n2 0 (omega arith),
              hm,
              back,
              take-append left right n2 (sym kept),
              drop-append left right n2 (sym kept),
              l.1,
              hz,
              r.1,
            )
            (ap some (take-append-drop n2 arr)),
      )

  parts_level :
      (fuel : ℕ) (arr : List A) (payload : List ℕ) (n1 : ℕ)
      → sized arr payload ≡ true
      → 1 < length arr
      → get_smaller_or_equal_power_of_two (length arr) ≡ some n1
      → IsLastPower (length arr) n1
      → n1 < length arr
      → WhenReturns
          (LoopUndone fuel (take (length arr - n1 + 1) payload) (take (length arr - n1) arr))
          (compact_payload_loop fuel
            (take (length arr - n1) arr)
            (take (length arr - n1 + 1) payload))
      → WhenReturns
          (LoopUndone (suc fuel) payload arr)
          (compact_payload_loop (suc fuel) arr payload)
  unfolding compact_payload_loop
  parts_level fuel arr payload n1 good many hp v rest l =
      let n2 = length arr - n1 in
      let split = ne→== n2 0 (omega arith) in
      let more = lt→leb (length arr) 1 many in
      elim (Option-cases (marked_before payload n2)) [
        | inl n ↦ rw (good, more, hp, split, n) panics
        | inr (m, hm) ↦
            elim (Option-cases (compact_payload_loop fuel (take n2 arr) (take (n2 + 1) payload))) [
              | inl n ↦ rw (good, more, hp, split, hm, n) panics
              | inr (left, hl) ↦ elim (Option-cases (checked_rem (n1 - n2 + m) n1)) [
                | inl n ↦ rw (good, more, hp, split, hm, hl, n) panics
                | inr (z, hz) ↦
                    let r = offset-Undone n1 (drop n2 arr) (drop n2 payload) z in
                    elim (Option-cases
                      (compact_payload_offset n1 (drop n2 arr) (drop n2 payload) z)) [
                        | inl n ↦ rw (good, more, hp, split, hm, hl, hz, n) panics
                        | inr (right, hr) ↦
                            rw (good, more, hp, split, hm, hl, hz, hr)
                              (WhenReturns-intro λ out ho.
                                parts-Undone fuel arr payload n1 m z left right out good many hp v
                                  rest hm hz (WhenReturns-at l hl) (WhenReturns-at r hr) ho)
                      ]
              ]
            ]
      ]

  whole_level :
      (fuel : ℕ) (arr : List A) (payload : List ℕ) (n1 : ℕ) (out : List A)
      → sized arr payload ≡ true
      → 1 < length arr
      → get_smaller_or_equal_power_of_two (length arr) ≡ some n1
      → (length arr - n1 == 0) ≡ true
      → Undone (length arr) payload 0 arr out
      → LoopUndone (suc fuel) payload arr out
  unfolding distribute_payload_loop
  whole_level fuel arr payload n1 out good many hp exact (size, back) =
      (size, rw (size, good, lt→leb (length arr) 1 many, hp, exact) back)

  loop-Undone :
      (fuel : ℕ) (arr : List A) (payload : List ℕ)
      → length arr < 2 ^ 63
      → WhenReturns (LoopUndone fuel payload arr) (compact_payload_loop fuel arr payload)
  unfolding compact_payload_loop distribute_payload_loop
  loop-Undone zero arr payload b = panics
  loop-Undone (suc fuel) arr payload b = elim (Bool-cases (sized arr payload)) [
    | inr bad ↦ rw bad panics
    | inl good ↦ elim (dec_lt 1 (length arr)) [
      | no few ↦
          rw (good, le→leb (length arr) 1 (omega arith))
            (gives (refl, rw (good, le→leb (length arr) 1 (omega arith))))
      | yes many ↦
          let (n1, hp, v) =
            Returns-some (get_smaller_or_equal_power_of_two_correct (length arr) (omega arith) b) in
          elim (dec_lt n1 (length arr)) [
            | yes rest ↦ parts_level fuel arr payload n1 good many hp v rest (
                loop-Undone fuel (take (length arr - n1) arr) (take (length arr - n1 + 1) payload)
                  (omega (arith, length-take (length arr - n1) arr)))
            | no none_left ↦
                let exact = (==_iff (length arr - n1) 0).1 (omega arith) in
                rw (good, lt→leb (length arr) 1 many, hp, exact)
                  (WhenReturns-intro λ out ho.
                    whole_level fuel arr payload n1 out good many hp exact
                      (WhenReturns-at (offset-Undone (length arr) arr payload 0) ho))
          ]
    ]
  ]

  -- `compact_payload` on a slice shorter than 2^63 with a prefix sum of marks returns, and
  -- `distribute_payload` with the same payload takes its result back to the slice.
  pub distribute_payload-compact_payload :
      (arr : List A) (payload : List ℕ) (p : ℕ → ℕ)
      → length arr < 2 ^ 63
      → IsPrefixSum payload (length arr) p
      → Returns (λ out. distribute_payload out payload ≡ some arr) (compact_payload arr payload)
  unfolding compact_payload distribute_payload
  distribute_payload-compact_payload arr payload p b s =
      let (out, e, c) = Returns-some (compact_payload-Compacted arr payload p b s) in
      let (size, back) = WhenReturns-at (loop-Undone (length arr + 1) arr payload b) e in
      rw e (returns (rw size back))
