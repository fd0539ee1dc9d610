-- ===== src/Sort/Compaction/Halves.antt =====
-- crates/sort/src/compaction.rs: one level of `compact_payload_offset`, on two entries and on two
-- compacted halves.
use Prim.Native.Nat.{bit_and}
use native.Mathlib.Decide.{dec_lt}
use mathlib.Core.List.Perm
use rostl.Base.{
  ℕ, zero, suc, ◌+◌, ◌-◌, ◌*◌, ◌%◌, ◌≤◌, ◌<◌, ◌≡◌, ◌⊎◌, inl, inr, refl, ap, sym, ◌∙◌, not, xor,
  List, ◌++◌, Perm, arith, length, get_elem?, take, drop, length-append, get_elem?-take,
  get_elem?-drop, get_elem?-append, take-append-drop, Returns, Returns-imp, ◌==◌, leb, lt→ltb,
  le→ltb,
}
use rostl.Primitives.{Cmov}
use rostl.Primitives.CswapIndex.{swapped, cswap-Swapped}
use rostl.Primitives.Usize.{bit_not, checked_sub_lem}
use rostl.Sort.Swaps.{partner, exchange-Moved}
use rostl.Sort.Compaction.{exchange_halves, choice_bit, swap_pair}
use rostl.Sort.Compaction.PrefixSum.{IsPrefixSum}
use rostl.Sort.Compaction.Places.{reduce, left_place, right_place}

-- The marked entries of `arr` stand in `out` in their order, from `z` on, cyclically.
pub record Placed {A : Type 0} (arr : List A) (p : ℕ → ℕ) (n z : ℕ) (out : List A) : Type 0 where
  pub size : length out ≡ n
  pub place :
      (i : ℕ)
      → i < n
      → p (suc i) ≡ suc (p i)
      → get_elem? out ((z + (p i - p 0)) % n) ≡ get_elem? arr i
  pub perm : Perm out arr

pair_bit : (m l : ℕ) → m ≤ 1 → l ≤ 1 → bit_and (bit_not m) l ≡ (1 - m) * l
pair_bit zero zero a b = refl
pair_bit zero (suc zero) a b = refl
pair_bit (suc zero) zero a b = refl
pair_bit (suc zero) (suc zero) a b = refl
pair_bit m l a b = absurd (omega arith)

-- Where the entries of a pair come from, if the `i`-th is marked and has rank `r`.
pair_place :
    (m l z r i : ℕ)
    → m ≤ 1
    → l ≤ 1
    → z < 2
    → ((i ≡ 0) × (m ≡ 1) × (r ≡ 0)) ⊎ ((i ≡ 1) × (l ≡ 1) × (r ≡ m))
    → swapped 0 1 (not ((1 - m) * l == z)) ((z + r) % 2) ≡ i
pair_place zero l z r i a b c h = ground arith
pair_place (suc zero) l z r i a b c h = ground arith
pair_place m l z r i a b c h = absurd (omega arith)

module _ {A : Type 0} ⦃cm : Cmov A⦄ where
  pub swap_pair-Placed :
      (arr : List A) (payload : List ℕ) (p : ℕ → ℕ) (z : ℕ)
      → length arr ≡ 2
      → IsPrefixSum payload 2 p
      → z < 2
      → Returns (Placed arr p 2 z) (swap_pair arr payload (p 1 - p 0) z)
  unfolding swap_pair
  swap_pair-Placed arr payload p z e s h =
      let s0 = s.step 0 (omega arith) in
      let s1 = s.step 1 (omega arith) in
      rw
        (
          s.entry 2 (omega arith),
          s.entry 1 (omega arith),
          checked_sub_lem (p 2) (p 1) (omega arith),
          pair_bit (p 1 - p 0) (p 2 - p 1) (omega arith) (omega arith),
        )
        (Returns-imp (cswap-Swapped arr 0 1 _ (omega arith) (omega arith)) λ out w. record {
          size = w.size ∙ e;
          place = λ i hi marked.
              w.entry ((z + (p i - p 0)) % 2)
              ∙ ap (get_elem? arr) (
                  pair_place (p 1 - p 0) (p 2 - p 1) z (p i - p 0) i (omega arith) (omega arith) h
                    (marked_index i hi marked s0 s1));
          perm = w.perm;
        })
    where
      marked_index :
          (i : ℕ)
          → i < 2
          → p (suc i) ≡ suc (p i)
          → (p 1 ≡ p 0) ⊎ (p 1 ≡ suc (p 0))
          → (p 2 ≡ p 1) ⊎ (p 2 ≡ suc (p 1))
          → ((i ≡ 0) × (p 1 - p 0 ≡ 1) × (p i - p 0 ≡ 0))
            ⊎ ((i ≡ 1) × (p 2 - p 1 ≡ 1) × (p i - p 0 ≡ p 1 - p 0))
      marked_index zero hi marked a b = inl (refl, omega arith, omega arith)
      marked_index (suc zero) hi marked a b = inr (refl, omega arith, refl)
      marked_index i hi marked a b = absurd (omega arith)

-- Merging the two halves, cyclically compacted from `z` and from behind the left half's entries.
module _ {A : Type 0} (arr left right : List A) (p : ℕ → ℕ) (h z : ℕ) (hz : z < h + h)
    (g : (i j : ℕ) → i ≤ j → j ≤ h + h → (p i ≤ p j) × (p j ≤ p i + (j - i)))
    (l : Placed (take h arr) p h (z % h) left)
    (r : Placed (drop h arr) (λ i. p (h + i)) h ((z + (p h - p 0)) % h) right) where
  abbrev from : ℕ → ℕ
  from = partner h (λ j. xor (choice_bit h z (z % h) (p h - p 0)) (leb ((z + (p h - p 0)) % h) j)) h

  place_left :
      (i : ℕ)
      → i < h
      → p (suc i) ≡ suc (p i)
      → get_elem? (left ++ right) (from ((z + (p i - p 0)) % (h + h))) ≡ get_elem? arr i
  place_left i hi marked =
      let m = p h - p 0 in
      let rank = p i - p 0 in
      let q = (z % h + rank) % h in
      let low = g 0 i (omega arith) (omega arith) in
      let mid = g (suc i) h (omega arith) (omega arith) in
      let whole = g 0 h (omega arith) (omega arith) in
      let zs = reduce z h (omega arith) in
      let qs = reduce (z % h + rank) h (omega arith) in
      let moved : from ((z + rank) % (h + h)) ≡ q =
        left_place h z m rank (z % h) ((z + m) % h) q ((z + rank) % (h + h)) hz (omega arith)
          (omega arith) zs (reduce (z + m) h (omega arith)) qs
          (reduce (z + rank) (h + h) (omega arith)) in
      ap (get_elem? (left ++ right)) moved
      ∙ get_elem?-append left right q
      ∙ rw (lt→ltb q (length left) (omega (arith, l.size)))
          (l.place i hi marked ∙ get_elem?-take h arr i hi)

  place_right :
      (i : ℕ)
      → i < h
      → p (h + suc i) ≡ suc (p (h + i))
      → get_elem? (left ++ right) (from ((z + (p (h + i) - p 0)) % (h + h))) ≡ get_elem? arr (h + i)
  place_right i hi marked =
      let m = p h - p 0 in
      let rank = p (h + i) - p h in
      let zr = (z + m) % h in
      let q = (zr + rank) % h in
      let start : p (h + 0) ≡ p h = ap p {x = h + 0} {y = h} (omega arith) in
      let whole = g 0 h (omega arith) (omega arith) in
      let low = g h (h + i) (omega arith) (omega arith) in
      let mid = g (h + suc i) (h + h) (omega arith) (omega arith) in
      let high = g h (h + h) (omega arith) (omega arith) in
      let zs = reduce (z + m) h (omega arith) in
      let qs = reduce (zr + rank) h (omega arith) in
      let sum : z + (p (h + i) - p 0) ≡ z + m + rank = omega arith in
      let moved : from ((z + m + rank) % (h + h)) ≡ q + h =
        right_place h z m rank (z % h) zr q ((z + m + rank) % (h + h)) hz (omega arith)
          (omega arith) (reduce z h (omega arith)) zs qs
          (reduce (z + m + rank) (h + h) (omega arith)) in
      ap (λ t. get_elem? (left ++ right) (from (t % (h + h)))) sum
      ∙ ap (get_elem? (left ++ right)) moved
      ∙ get_elem?-append left right (q + h)
      ∙ rw (le→ltb (q + h) (length left) (omega (arith, l.size))) (
          ap (get_elem? right) {x = q + h - length left} {y = (zr + (p (h + i) - p (h + 0))) % h}
            (omega (arith, l.size, ap (λ t. (zr + (p (h + i) - t)) % h) start))
          ∙ r.place i hi marked
          ∙ get_elem?-drop h arr i)

  place_both :
      (i : ℕ)
      → i < h + h
      → p (suc i) ≡ suc (p i)
      → get_elem? (left ++ right) (from ((z + (p i - p 0)) % (h + h))) ≡ get_elem? arr i
  place_both i hi marked = elim (dec_lt i h) [
    | yes low ↦ place_left i low marked
    | no high ↦
        let k = i - h in
        let e : h + k ≡ i = omega arith in
        let e' : h + suc k ≡ suc i = omega arith in
        rw e at (place_right k (omega arith) (ap p e' ∙ marked ∙ ap (λ t. suc (p t)) (sym e)))
  ]

  halves_perm : Perm (left ++ right) arr
  halves_perm = rw (take-append-drop h arr) at (Perm.append l.perm r.perm)

  pub halves-Placed :
      ⦃cm : Cmov A⦄
      → Returns (Placed arr p (h + h) z) (
          exchange_halves h
            (choice_bit h z (z % h) (p h - p 0))
            ((z + (p h - p 0)) % h)
            (left ++ right))
  unfolding exchange_halves
  halves-Placed =
      let both : length (left ++ right) ≡ h + h =
        omega (arith, length-append left right, l.size, r.size) in
      Returns-imp (exchange-Moved h h _ (left ++ right) (omega arith) (omega (arith, both)))
        λ out w. record {
          size = omega (arith, w.size, both);
          place = λ i hi marked. w.entry ((z + (p i - p 0)) % (h + h)) ∙ place_both i hi marked;
          perm = Perm.trans w.perm halves_perm;
        }
