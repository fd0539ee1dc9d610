-- ===== src/Sort/Compaction/PrefixSum.antt =====
-- crates/sort/src/compaction.rs: what a payload is, a prefix sum of marks, and its slices.
use rostl.Base.{
  ℕ, zero, suc, ◌+◌, ◌-◌, ◌≤◌, ◌<◌, ◌≡◌, ◌⊎◌, ap, ◌∙◌, some, List, arith, length, get_elem?, take,
  drop, length-take, length-drop, get_elem?-take, get_elem?-drop,
}
use rostl.Primitives.Usize.{checked_sub_lem}
use rostl.Sort.Compaction.{marked_before}

add_suc : (a b : ℕ) → a + suc b ≡ suc (a + b)
add_suc a b = omega arith

-- `payload` holds `p 0`, …, `p n`, and each step adds 0 or 1.
pub record IsPrefixSum (payload : List ℕ) (n : ℕ) (p : ℕ → ℕ) : Type 0 where
  pub size : length payload ≡ suc n
  pub entry : (i : ℕ) → i ≤ n → get_elem? payload i ≡ some (p i)
  pub step : (i : ℕ) → i < n → (p (suc i) ≡ p i) ⊎ (p (suc i) ≡ suc (p i))

module _ {payload : List ℕ} {n : ℕ} {p : ℕ → ℕ} (s : IsPrefixSum payload n p) where
  grows_by : (i d : ℕ) → i + d ≤ n → (p i ≤ p (i + d)) × (p (i + d) ≤ p i + d)
  grows_by i zero h = omega (arith, ap p {x = i + 0} {y = i} (omega arith))
  grows_by i (suc d) h = omega (
    arith,
    grows_by i d (omega arith),
    s.step (i + d) (omega arith),
    ap p {x = i + suc d} {y = suc (i + d)} (omega arith),
  )

  -- The sum grows, and by one a step at most.
  pub grows : (i j : ℕ) → i ≤ j → j ≤ n → (p i ≤ p j) × (p j ≤ p i + (j - i))
  grows i j h b =
      omega (arith, grows_by i (j - i) (omega arith), ap p {x = i + (j - i)} {y = j} (omega arith))

  -- The slice `payload[..h + 1]`.
  pub IsPrefixSum-take : (h : ℕ) → h ≤ n → IsPrefixSum (take (h + 1) payload) h p
  IsPrefixSum-take h b = record {
    size = length-take (h + 1) payload (omega (arith, s.size)) ∙ omega arith;
    entry = λ i hi. get_elem?-take (h + 1) payload i (omega arith) ∙ s.entry i (omega arith);
    step = λ i hi. s.step i (omega arith);
  }

  -- The slice `payload[h..]`.
  pub IsPrefixSum-drop : (h k : ℕ) → h + k ≡ n → IsPrefixSum (drop h payload) k (λ i. p (h + i))
  IsPrefixSum-drop h k e = record {
    size = omega (arith, length-drop h payload, s.size);
    entry = λ i hi. get_elem?-drop h payload i ∙ s.entry (h + i) (omega arith);
    step = λ i hi. rw (add_suc h i) (s.step (h + i) (omega arith));
  }

  pub marked_before_lem : (i : ℕ) → i ≤ n → marked_before payload i ≡ some (p i - p 0)
  unfolding marked_before
  marked_before_lem i h =
      rw (s.entry i h, s.entry 0 (omega arith))
        (checked_sub_lem (p i) (p 0) (grows 0 i (omega arith) h).0)
