-- ===== src/Sort/Rotate/Reverse.antt =====
-- crates/sort/src/rotate.rs: what `reverse_region` returns, and three of them in a row.
use native.Mathlib.Decide.{dec_lt}
use rostl.Base.{
  ℕ, suc, ◌+◌, ◌-◌, ◌/◌, ◌≤◌, ◌<◌, Bool, true, false, ◌&&◌, ◌||◌, List, if◌then◌else◌, leb, ltb,
  length, arith, Returns, Returns-imp, ◌≡◌, get_elem?, ap, ◌∙◌,
}
use rostl.Primitives.{Cmov}
use rostl.Primitives.CswapIndex.{swapped}
use rostl.Primitives.Usize.{checked_sub_lem}
use rostl.Sort.Swaps.{Moved, swaps-Moved}
use rostl.Sort.Rotate.{reverse_region}

-- Where the entries come from while the region's entries below `lo` and from `hi` are done.
abbrev mirrored : ℕ → ℕ → Bool → ℕ → ℕ → ℕ → ℕ
mirrored start stop enable lo hi k =
    if enable && ((leb start k && ltb k lo) || (leb hi k && ltb k stop))
    then start + stop - 1 - k
    else k

-- The middle entry of an odd region stays.
abbrev pub mirror : ℕ → ℕ → Bool → ℕ → ℕ
mirror start stop enable k =
    if enable && (leb start k && ltb k stop) then start + stop - 1 - k else k

mirrored_none :
    (start stop : ℕ) (enable : Bool) (k : ℕ)
    → mirrored start stop enable (start + 0) (stop - 0) k ≡ k
mirrored_none start stop true k = ground arith
mirrored_none start stop false k = ground arith

exchanged :
    (start stop lo hi k : ℕ)
    → start ≤ lo
    → lo < hi
    → hi < stop
    → lo + hi + 1 ≡ start + stop
    → mirrored start stop true (suc lo) hi k
      ≡ mirrored start stop true lo (suc hi) (swapped lo hi true k)
exchanged start stop lo hi k h1 h2 h3 e = elim (dec_lt k lo) [
  | yes before ↦ ground arith
  | no in_or_after ↦ elim (dec_lt hi k) [ yes after ↦ ground arith | no between ↦ ground arith ]
]

mirrored_step :
    (start stop : ℕ) (enable : Bool) (i k : ℕ)
    → i < (stop - start) / 2
    → mirrored start stop enable (start + suc i) (stop - suc i) k
      ≡ mirrored start stop enable
          (start + i)
          (stop - i)
          (swapped (start + i) (stop - 1 - i) enable k)
mirrored_step start stop true i k h =
    let e1 : start + suc i ≡ suc (start + i) = omega arith in
    let e2 : stop - suc i ≡ stop - 1 - i = omega arith in
    let e3 : stop - i ≡ suc (stop - 1 - i) = omega arith in
    rw (e1, e2, e3)
      (exchanged start stop (start + i) (stop - 1 - i) k (omega arith) (omega arith) (omega arith)
        (omega arith))
mirrored_step start stop false i k h = ground arith

mirrored_all :
    (start stop : ℕ) (enable : Bool) (k : ℕ)
    → start ≤ stop
    → mirrored start stop enable (start + (stop - start) / 2) (stop - (stop - start) / 2) k
      ≡ mirror start stop enable k
mirrored_all start stop true k h = ground arith
mirrored_all start stop false k h = ground arith

pub reverse_region-Moved :
    {A : Type 0} ⦃m : Cmov A⦄ (arr : List A) (start stop : ℕ) (enable : Bool)
    → start ≤ stop
    → stop ≤ length arr
    → Returns (Moved arr (mirror start stop enable)) (reverse_region arr start stop enable)
unfolding reverse_region
reverse_region-Moved arr start stop enable h b = rw (checked_sub_lem stop start h) (
    Returns-imp
      (swaps-Moved (λ i. start + i) (λ i. stop - 1 - i) (λ i. enable)
        (λ i. mirrored start stop enable (start + i) (stop - i)) arr ((stop - start) / 2)
        (mirrored_none start stop enable) (λ i k hi. mirrored_step start stop enable i k hi)
        (λ i hi. (omega arith, omega arith)))
      λ out s. record {
        size = s.size;
        entry = λ k. s.entry k ∙ ap (get_elem? arr) (mirrored_all start stop enable k h);
        perm = s.perm;
      })

-- Where the entries come from after the three reversals of a round.
abbrev pub turned : ℕ → ℕ → Bool → ℕ → ℕ
turned n s enable k = mirror 0 s enable (mirror s n enable (mirror 0 n enable k))

-- They rotate by `s`.
pub turned_lem :
    (n s k : ℕ) → s < n → k < n → turned n s true k ≡ (if ltb (k + s) n then k + s else k + s - n)
turned_lem n s k h b = ground arith
