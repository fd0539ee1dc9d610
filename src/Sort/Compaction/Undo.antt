-- ===== src/Sort/Compaction/Undo.antt =====
-- crates/sort/src/compaction.rs: `distribute_payload_offset` undoes `compact_payload_offset`.
use rostl.Base.{
  ℕ, zero, suc, ◌+◌, ◌/◌, ◌≡◌, inl, inr, ap, sym, ◌∙◌, List, ◌++◌, some, true, false, arith, length,
  get_elem?, take, drop, length-append, take-append-drop, take-append, drop-append, length-take,
  length-drop, ◌==◌, Bool-cases, ==_iff, WhenReturns, Option-cases, inl, inr, WhenReturns-at,
  WhenReturns-intro, panics,
}
use rostl.Primitives.{Cmov}
use rostl.Primitives.Usize.{checked_sub, checked_rem}
use rostl.Sort.Swaps.{exchange_undo, cswap_undo}
use rostl.Sort.Compaction.{
  exchange_halves, swap_pair, sized, marked_before, choice_bit, compact_payload_offset,
  distribute_payload_offset,
}

module _ {A : Type 0} ⦃cm : Cmov A⦄ where
  -- `out` is as long as `arr` and is taken back to it.
  abbrev pub Undone : ℕ → List ℕ → ℕ → List A → List A → Type 0
  Undone fuel payload z arr out =
      (length out ≡ length arr) × (distribute_payload_offset fuel out payload z ≡ some arr)

  pair-Undone :
      (arr : List A) (payload : List ℕ) (m z : ℕ) {out : List A}
      → length arr ≡ 2
      → swap_pair arr payload m z ≡ some out
      → (length out ≡ length arr) × (swap_pair out payload m z ≡ some arr)
  unfolding swap_pair
  pair-Undone arr payload m z e h = elim (Option-cases (get_elem? payload 2)) [
    | inl n ↦ absurd (cc (rw n at h))
    | inr (p2, e2) ↦ elim (Option-cases (get_elem? payload 1)) [
      | inl n ↦ absurd (cc (rw (e2, n) at h))
      | inr (p1, e1) ↦ elim (Option-cases (checked_sub p2 p1)) [
        | inl n ↦ absurd (cc (rw (e2, e1, n) at h))
        | inr (last, el) ↦
            let (size, back) =
              cswap_undo 0 1 _ arr (omega arith) (omega arith) (rw (e2, e1, el) at h) in
            (size, rw (e2, e1, el) back)
      ]
    ]
  ]

  -- One level on a pair.
  pair_level :
      (fuel : ℕ) (arr : List A) (payload : List ℕ) (z m : ℕ) (out : List A)
      → sized arr payload ≡ true
      → marked_before payload (length arr / 2) ≡ some m
      → (length arr == 2) ≡ true
      → (length out ≡ length arr) × (swap_pair out payload m z ≡ some arr)
      → Undone (suc fuel) payload z arr out
  unfolding distribute_payload_offset
  pair_level fuel arr payload z m out good hm two (size, back) =
      (size, rw (size, good, hm, two) back)

  -- One level on two halves, undone from its parts.
  halves-Undone :
      (fuel : ℕ) (arr : List A) (payload : List ℕ) (z m zleft zright : ℕ) (left right out : List A)
      → sized arr payload ≡ true
      → marked_before payload (length arr / 2) ≡ some m
      → (length arr == 2) ≡ false
      → checked_rem z (length arr / 2) ≡ some zleft
      → checked_rem (z + m) (length arr / 2) ≡ some zright
      → Undone fuel (take (length arr / 2 + 1) payload) zleft (take (length arr / 2) arr) left
      → Undone fuel (drop (length arr / 2) payload) zright (drop (length arr / 2) arr) right
      → exchange_halves
          (length arr / 2)
          (choice_bit (length arr / 2) z zleft m)
          zright
          (left ++ right)
        ≡ some out
      → Undone (suc fuel) payload z arr out
  unfolding distribute_payload_offset exchange_halves
  halves-Undone fuel arr payload z m zleft zright left right out good hm big hl hr l r ho =
      let h = length arr / 2 in
      let kept : length left ≡ h = l.0 ∙ length-take h arr (omega arith) in
      let both : length (left ++ right) ≡ length arr =
        omega (arith, length-append left right, r.0, length-drop h arr) in
      let (size, back) = exchange_undo h h _ (left ++ right) (omega arith) (omega arith) ho in
      let same : length out ≡ length arr = size ∙ both in
      (
        same,
        rw
            (
              same,
              good,
              hm,
              big,
              hl,
              hr,
              back,
              take-append left right h (sym kept),
              drop-append left right h (sym kept),
              l.1,
              r.1,
            )
            (ap some (take-append-drop h arr)),
      )

  halves_level :
      (fuel : ℕ) (arr : List A) (payload : List ℕ) (z m : ℕ)
      → sized arr payload ≡ true
      → marked_before payload (length arr / 2) ≡ some m
      → (length arr == 2) ≡ false
      → ((a : List A) (q : List ℕ) (y : ℕ)
          → WhenReturns (Undone fuel q y a) (compact_payload_offset fuel a q y))
      → WhenReturns
          (Undone (suc fuel) payload z arr)
          (compact_payload_offset (suc fuel) arr payload z)
  unfolding compact_payload_offset
  halves_level fuel arr payload z m good hm big ih =
      let h = length arr / 2 in
      elim (Option-cases (checked_rem z h)) [
        | inl n ↦ rw (good, hm, big, n) panics
        | inr (zleft, el) ↦ elim (Option-cases (checked_rem (z + m) h)) [
          | inl n ↦ rw (good, hm, big, el, n) panics
          | inr (zright, er) ↦
              let l = ih (take h arr) (take (h + 1) payload) zleft in
              let r = ih (drop h arr) (drop h payload) zright in
              elim (Option-cases
                (compact_payload_offset fuel (take h arr) (take (h + 1) payload) zleft)) [
                  | inl n ↦ rw (good, hm, big, el, er, n) panics
                  | inr (left, hl) ↦
                      elim (Option-cases
                        (compact_payload_offset fuel (drop h arr) (drop h payload) zright)) [
                          | inl n ↦ rw (good, hm, big, el, er, hl, n) panics
                          | inr (right, hr) ↦
                              rw (good, hm, big, el, er, hl, hr)
                                (WhenReturns-intro λ out ho.
                                  halves-Undone fuel arr payload z m zleft zright left right out
                                    good hm big el er (WhenReturns-at l hl) (WhenReturns-at r hr)
                                    ho)
                        ]
                ]
        ]
      ]

  pub offset-Undone :
      (fuel : ℕ) (arr : List A) (payload : List ℕ) (z : ℕ)
      → WhenReturns (Undone fuel payload z arr) (compact_payload_offset fuel arr payload z)
  unfolding compact_payload_offset
  offset-Undone zero arr payload z = panics
  offset-Undone (suc fuel) arr payload z = elim (Bool-cases (sized arr payload)) [
    | inr bad ↦ rw bad panics
    | inl good ↦ elim (Option-cases (marked_before payload (length arr / 2))) [
      | inl n ↦ rw (good, n) panics
      | inr (m, hm) ↦ elim (Bool-cases (length arr == 2)) [
        | inl two ↦
            rw (good, hm, two)
              (WhenReturns-intro λ out ho.
                pair_level fuel arr payload z m out good hm two
                  (pair-Undone arr payload m z ((==_iff (length arr) 2).0 two) ho))
        | inr big ↦ halves_level fuel arr payload z m good hm big (offset-Undone fuel)
      ]
    ]
  ]
