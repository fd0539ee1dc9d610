-- ===== src/Sort/Compaction/Ends.antt =====
-- crates/sort/src/compaction.rs: how `compact_payload` joins its two parts.
use native.Mathlib.Decide.{dec_lt}
use native.Mathlib.Nat.{mod-eq_of_lt}
use mathlib.Core.List.Perm
use rostl.Base.{
  ℕ, suc, ◌+◌, ◌-◌, ◌%◌, ◌≤◌, ◌<◌, ◌≡◌, ap, sym, ◌∙◌, List, ◌++◌, Perm, arith, length, get_elem?,
  take, drop, length-append, get_elem?-take, get_elem?-drop, get_elem?-append, take-append-drop,
  Returns, Returns-imp, leb, lt→ltb, le→ltb,
}
use rostl.Primitives.{Cmov}
use rostl.Sort.Swaps.{partner, exchange-Moved}
use rostl.Sort.Compaction.{exchange_ends}
use rostl.Sort.Compaction.PrefixSum.{IsPrefixSum, grows}
use rostl.Sort.Compaction.Places.{reduce, start_place, end_place}
use rostl.Sort.Compaction.Halves.{Placed}

-- The marked entries of `arr` stand at the front of `out`, in their order.
pub record Compacted {A : Type 0} (arr : List A) (p : ℕ → ℕ) (n : ℕ) (out : List A) : Type 0 where
  pub size : length out ≡ n
  pub place : (i : ℕ) → i < n → p (suc i) ≡ suc (p i) → get_elem? out (p i - p 0) ≡ get_elem? arr i
  pub perm : Perm out arr

module _ {A : Type 0} where
  pub Compacted-short :
      (arr : List A) (p : ℕ → ℕ) (n : ℕ) → length arr ≡ n → n ≤ 1 → Compacted arr p n arr
  Compacted-short arr p n e h = record {
    size = e;
    place = λ i hi marked.
        ap (get_elem? arr) {x = p i - p 0} {y = i}
          (omega (arith, ap p {x = i} {y = 0} (omega arith)));
    perm = Perm.rfl;
  }

  pub Compacted-of_Placed :
      {arr out : List A} {payload : List ℕ} {p : ℕ → ℕ} {n : ℕ}
      → IsPrefixSum payload n p
      → Placed arr p n 0 out
      → Compacted arr p n out
  Compacted-of_Placed {out = out} {p = p} {n = n} s w = record {
    size = w.size;
    place = λ i hi marked.
        let g0 = grows s 0 i (omega arith) (omega arith) in
        let low : 0 + (p i - p 0) < n = omega arith in
        ap (get_elem? out) {x = p i - p 0} {y = (0 + (p i - p 0)) % n}
          (omega (arith, mod-eq_of_lt low))
        ∙ w.place i hi marked;
    perm = w.perm;
  }

-- Joining a compacted left part of `n2` entries and a cyclically compacted right part of `n1`.
module _ {A : Type 0} (arr left right : List A) (p : ℕ → ℕ) (n1 n2 : ℕ) (short : n2 < n1)
    (g : (i j : ℕ) → i ≤ j → j ≤ n2 + n1 → (p i ≤ p j) × (p j ≤ p i + (j - i)))
    (l : Compacted (take n2 arr) p n2 left)
    (r : Placed (drop n2 arr) (λ i. p (n2 + i)) n1 ((n1 - n2 + (p n2 - p 0)) % n1) right) where
  abbrev from : ℕ → ℕ
  from = partner n1 (leb (p n2 - p 0)) n2

  place_left :
      (i : ℕ)
      → i < n2
      → p (suc i) ≡ suc (p i)
      → get_elem? (left ++ right) (from (p i - p 0)) ≡ get_elem? arr i
  place_left i hi marked =
      let rank = p i - p 0 in
      let low = g 0 i (omega arith) (omega arith) in
      let mid = g (suc i) n2 (omega arith) (omega arith) in
      let whole = g 0 n2 (omega arith) (omega arith) in
      ap (get_elem? (left ++ right))
        (start_place n1 n2 (p n2 - p 0) rank short (omega arith) (omega arith))
      ∙ get_elem?-append left right rank
      ∙ rw (lt→ltb rank (length left) (omega (arith, l.size)))
          (l.place i hi marked ∙ get_elem?-take n2 arr i hi)

  place_right :
      (i : ℕ)
      → i < n1
      → p (n2 + suc i) ≡ suc (p (n2 + i))
      → get_elem? (left ++ right) (from (p (n2 + i) - p 0)) ≡ get_elem? arr (n2 + i)
  place_right i hi marked =
      let m = p n2 - p 0 in
      let rank = p (n2 + i) - p n2 in
      let z = (n1 - n2 + m) % n1 in
      let q = (z + rank) % n1 in
      let start : p (n2 + 0) ≡ p n2 = ap p {x = n2 + 0} {y = n2} (omega arith) in
      let whole = g 0 n2 (omega arith) (omega arith) in
      let low = g n2 (n2 + i) (omega arith) (omega arith) in
      let mid = g (n2 + suc i) (n2 + n1) (omega arith) (omega arith) in
      let high = g n2 (n2 + n1) (omega arith) (omega arith) in
      let zs = reduce (n1 - n2 + m) n1 (omega arith) in
      let sum : p (n2 + i) - p 0 ≡ m + rank = omega arith in
      let moved : from (m + rank) ≡ q + n2 =
        end_place n1 n2 m rank z q short (omega arith) (omega arith) zs
          (reduce (z + rank) n1 (omega arith)) in
      let same : q + n2 - length left ≡ (z + (p (n2 + i) - p (n2 + 0))) % n1 =
        omega (arith, l.size, ap (λ t. (z + (p (n2 + i) - t)) % n1) start) in
      ap (λ t. get_elem? (left ++ right) (from t)) sum
      ∙ ap (get_elem? (left ++ right)) moved
      ∙ get_elem?-append left right (q + n2)
      ∙ rw (le→ltb (q + n2) (length left) (omega (arith, l.size)))
          (ap (get_elem? right) same ∙ r.place i hi marked ∙ get_elem?-drop n2 arr i)

  place_both :
      (i : ℕ)
      → i < n2 + n1
      → p (suc i) ≡ suc (p i)
      → get_elem? (left ++ right) (from (p i - p 0)) ≡ get_elem? arr i
  place_both i hi marked = elim (dec_lt i n2) [
    | yes low ↦ place_left i low marked
    | no high ↦
        let k = i - n2 in
        let e : n2 + k ≡ i = omega arith in
        let e' : n2 + suc k ≡ suc i = omega arith in
        rw e at (place_right k (omega arith) (ap p e' ∙ marked ∙ ap (λ t. suc (p t)) (sym e)))
  ]

  pub ends-Compacted :
      ⦃cm : Cmov A⦄
      → Returns (Compacted arr p (n2 + n1)) (exchange_ends n1 n2 (p n2 - p 0) (left ++ right))
  unfolding exchange_ends
  ends-Compacted =
      let both : length (left ++ right) ≡ n2 + n1 =
        omega (arith, length-append left right, l.size, r.size) in
      Returns-imp (exchange-Moved n1 n2 _ (left ++ right) (omega arith) (omega (arith, both)))
        λ out w. record {
          size = omega (arith, w.size, both);
          place = λ i hi marked. w.entry (p i - p 0) ∙ place_both i hi marked;
          perm = Perm.trans w.perm (rw (take-append-drop n2 arr) at (Perm.append l.perm r.perm));
        }
