-- ===== src/Sort/Swaps.antt =====
-- Runs of conditional swaps whose addresses and choices are fixed beforehand: the common shape of
-- the loops in crates/sort/src/{compaction,rotate}.rs. Where each entry comes from is a map on
-- indices.
use mathlib.Core.List.Perm
use rostl.Base.{
  ℕ, suc, ◌+◌, ◌-◌, ◌≤◌, ◌<◌, ◌≡◌, refl, ap, sym, ◌∙◌, Bool, ◌&&◌, List, Perm, arith, if◌then◌else◌,
  ltb, leb, length, get_elem?, for_range, for_range-Returns, list_ext, some, Returns-at,
  Returns-some, Returns, Returns-imp,
}
use rostl.Primitives.{Cmov}
use rostl.Primitives.CswapIndex.{cswap, swapped, cswap-Swapped}

-- `out` holds the entries of `arr`, the one at `k` taken from `σ k`.
pub record Moved {A : Type 0} (arr : List A) (σ : ℕ → ℕ) (out : List A) : Type 0 where
  pub size : length out ≡ length arr
  pub entry : (k : ℕ) → get_elem? out k ≡ get_elem? arr (σ k)
  pub perm : Perm out arr

-- Where an entry comes from after the first `n` entries are exchanged with those `d` further on.
abbrev pub partner : ℕ → (ℕ → Bool) → ℕ → ℕ → ℕ
partner d cond n k =
    if ltb k n && cond k
    then k + d
    else if leb d k && (ltb (k - d) n && cond (k - d))
    then k - d
    else k

module _ {A : Type 0} where
  pub Moved-refl : (arr : List A) → Moved arr (λ k. k) arr
  Moved-refl arr = record { size = refl; entry = λ k. refl; perm = Perm.rfl }

  -- A list is determined by where its entries come from.
  pub Moved-eq :
      {arr out out' : List A} {σ τ : ℕ → ℕ}
      → Moved arr σ out
      → Moved arr τ out'
      → ((k : ℕ) → σ k ≡ τ k)
      → out ≡ out'
  Moved-eq {arr} {out} {out'} m m' e =
      list_ext out out' λ k. m.entry k ∙ ap (get_elem? arr) (e k) ∙ sym (m'.entry k)

  -- Exchanging twice with the same choices gives the old list back.
  pub Moved-undo :
      {arr mid out : List A} {σ τ : ℕ → ℕ}
      → Moved arr σ mid
      → Moved mid τ out
      → ((k : ℕ) → σ (τ k) ≡ k)
      → out ≡ arr
  Moved-undo {arr} {mid} {out} {σ} {τ} m m' e =
      list_ext out arr λ k. m'.entry k ∙ m.entry (τ k) ∙ ap (get_elem? arr) (e k)

pub partner_involutive :
    (d : ℕ) (cond : ℕ → Bool) (n k : ℕ) → n ≤ d → partner d cond n (partner d cond n k) ≡ k
partner_involutive d cond n k h = ground arith

swapped_twice : (i j : ℕ) (choice : Bool) (k : ℕ) → swapped i j choice (swapped i j choice k) ≡ k
swapped_twice i j choice k = ground arith

module _ {A : Type 0} ⦃m : Cmov A⦄ where
  pub swaps-Moved :
      (left right : ℕ → ℕ) (cond : ℕ → Bool) (σ : ℕ → ℕ → ℕ) (arr : List A) (n : ℕ)
      → ((k : ℕ) → σ 0 k ≡ k)
      → ((i k : ℕ) → i < n → σ (suc i) k ≡ σ i (swapped (left i) (right i) (cond i) k))
      → ((i : ℕ) → i < n → (left i < right i) × (right i < length arr))
      → Returns (Moved arr (σ n)) (for_range n 0 (λ i a. cswap a (left i) (right i) (cond i)) arr)
  swaps-Moved left right cond σ arr n start step inside =
      for_range-Returns (λ i. Moved arr (σ i)) n _ n 0 arr (omega arith)
        (λ i a lo hi s.
          Returns-imp
            (cswap-Swapped a (left i) (right i) (cond i) (inside i hi).0
              (omega (arith, s.size, (inside i hi).1)))
            λ b w. record {
              size = w.size ∙ s.size;
              entry = λ k.
                  w.entry k
                  ∙ s.entry (swapped (left i) (right i) (cond i) k)
                  ∙ ap (get_elem? arr) (sym (step i k hi));
              perm = Perm.trans w.perm s.perm;
            })
        (record { size = refl; entry = λ k. ap (get_elem? arr) (sym (start k)); perm = Perm.rfl })

  -- `for i in 0..n { arr.cswap(i, i + d, cond(i)) }`
  pub exchange-Moved :
      (d n : ℕ) (cond : ℕ → Bool) (arr : List A)
      → n ≤ d
      → n + d ≤ length arr
      → Returns
          (Moved arr (partner d cond n))
          (for_range n 0 (λ i a. cswap a i (i + d) (cond i)) arr)
  exchange-Moved d n cond arr h b =
      swaps-Moved (λ i. i) (λ i. i + d) cond (partner d cond) arr n (λ k. ground arith)
        (λ i k hi. ground arith) (λ i hi. (omega arith, omega arith))

  -- The same exchange once more gives the old list back.
  pub exchange_undo :
      (d n : ℕ) (cond : ℕ → Bool) (arr : List A) {out : List A}
      → n ≤ d
      → n + d ≤ length arr
      → for_range n 0 (λ i a. cswap a i (i + d) (cond i)) arr ≡ some out
      → (length out ≡ length arr)
        × (for_range n 0 (λ i a. cswap a i (i + d) (cond i)) out ≡ some arr)
  exchange_undo d n cond arr {out} h b e =
      let w = Returns-at (exchange-Moved d n cond arr h b) e in
      let (back, e', w') = Returns-some (exchange-Moved d n cond out h (omega (arith, w.size))) in
      let same : back ≡ arr = Moved-undo w w' (λ k. partner_involutive d cond n k h) in
      (w.size, e' ∙ ap some same)

  pub cswap_undo :
      (i j : ℕ) (choice : Bool) (arr : List A) {out : List A}
      → i < j
      → j < length arr
      → cswap arr i j choice ≡ some out
      → (length out ≡ length arr) × (cswap out i j choice ≡ some arr)
  cswap_undo i j choice arr {out} h b e =
      let w = Returns-at (cswap-Swapped arr i j choice h b) e in
      let (back, e', w') = Returns-some (cswap-Swapped out i j choice h (omega (arith, w.size))) in
      let same : back ≡ arr = list_ext back arr λ k.
        w'.entry k
        ∙ w.entry (swapped i j choice k)
        ∙ ap (get_elem? arr) (swapped_twice i j choice k) in
      (w.size, e' ∙ ap some same)
