-- ===== src/Sort/Compaction/Offset.antt =====
-- crates/sort/src/compaction.rs: what `compact_payload_offset` does on a power of two of entries.
use native.Mathlib.Nat.{two-pow-succ, mod-lt}
use rostl.Base.{
  ℕ, zero, suc, ◌+◌, ◌-◌, ◌/◌, ◌%◌, ◌^◌, ◌<◌, ◌≡◌, List, arith, length, take, drop, length-take,
  length-drop, Returns, Returns-bind, ◌==◌, ne→==, true, ==_iff, subst, refl,
}
use rostl.Primitives.{Cmov}
use rostl.Primitives.Usize.{checked_rem_lem}
use rostl.Primitives.Powers.Laws.{pow_pos}
use rostl.Sort.Compaction.{sized, compact_payload_offset}
use rostl.Sort.Compaction.PrefixSum.{
  IsPrefixSum, IsPrefixSum-take, IsPrefixSum-drop, grows, marked_before_lem,
}
use rostl.Sort.Compaction.Halves.{Placed, swap_pair-Placed, halves-Placed}

pub sized_lem :
    {A : Type 0} (arr : List A) {payload : List ℕ} {n : ℕ} {p : ℕ → ℕ}
    → IsPrefixSum payload n p
    → length arr ≡ n
    → sized arr payload ≡ true
sized_lem arr {payload} s e = (==_iff (length arr + 1) (length payload)).1 (omega (arith, s.size))

module _ {A : Type 0} ⦃cm : Cmov A⦄ where
  -- On 2^(k+1) entries, with `z` below their number, with a prefix sum of marks as the payload and
  -- with more than `k` units of fuel, the marked entries end up in order from `z` on, cyclically.
  pub compact_payload_offset-Placed :
      (k fuel : ℕ) (arr : List A) (payload : List ℕ) (p : ℕ → ℕ) (z : ℕ)
      → length arr ≡ 2 ^ suc k
      → k < fuel
      → IsPrefixSum payload (2 ^ suc k) p
      → z < 2 ^ suc k
      → Returns (Placed arr p (2 ^ suc k) z) (compact_payload_offset fuel arr payload z)
  unfolding compact_payload_offset
  compact_payload_offset-Placed k zero arr payload p z e f s hz = absurd (omega arith)
  compact_payload_offset-Placed zero (suc fuel) arr payload p z e f s hz =
      let half : length arr / 2 ≡ 1 = omega arith in
      let two : (length arr == 2) ≡ true = (==_iff (length arr) 2).1 e in
      rw (sized_lem arr s e, half, marked_before_lem s 1 (omega arith), two)
        (swap_pair-Placed arr payload p z e s hz)
  compact_payload_offset-Placed (suc k) (suc fuel) arr payload p z e f s hz =
      let h = 2 ^ suc k in
      let pos : 0 < 2 ^ k = pow_pos k in
      let dbl : 2 ^ suc (suc k) ≡ h + h = two-pow-succ (suc k) in
      let more : 2 ^ suc k ≡ 2 ^ k + 2 ^ k = two-pow-succ k in
      let half : length arr / 2 ≡ h = omega arith in
      let s' : IsPrefixSum payload (h + h) p = subst (λ n. IsPrefixSum payload n p) dbl s in
      let m = p h - p 0 in
      rw
        (
          sized_lem arr s e,
          half,
          marked_before_lem s h (omega arith),
          ne→== (length arr) 2 (omega arith),
          checked_rem_lem z h (omega arith),
          checked_rem_lem (z + m) h (omega arith),
          dbl,
        )
        (Returns-bind
          (compact_payload_offset-Placed k fuel (take h arr) (take (h + 1) payload) p (z % h)
            (length-take h arr (omega arith)) (omega arith) (IsPrefixSum-take s' h (omega arith))
            (mod-lt z (omega arith)))
          λ left l.
            Returns-bind
              (compact_payload_offset-Placed k fuel (drop h arr) (drop h payload) (λ i. p (h + i))
                ((z + m) % h) (omega (arith, length-drop h arr)) (omega arith)
                (IsPrefixSum-drop s' h h refl) (mod-lt (z + m) (omega arith)))
              λ right r. halves-Placed arr left right p h z (omega arith) (grows s') l r)
