-- ===== src/Oram/Recursive/Fresh.antt =====
-- crates/oram/src/recursive_oram.rs: the map that `new` makes for a size up to `linear_map_size`.
use rostl.Base.{
  ℕ, zero, suc, ◌+◌, ◌-◌, ◌*◌, ◌/◌, ◌%◌, ◌^◌, ◌≤◌, ◌<◌, ◌≡◌, refl, ap, ◌∙◌, arith, min, some, List,
  [], ◌∷◌, length, length-drop, drop, Returns, returns, lt→ltb, le→ltb, le→leb, ne→==,
}
use rostl.Primitives.{Cmov}
use rostl.Oram.Linear.Access.{entry_or}
use rostl.Oram.Circuit.Blocks.{Block}
use rostl.Oram.Recursive.{
  RecursivePositionMap, InternalNode, node_default, fan_out, level_0_buckets, linear_map_size,
  random_positions, inner_of, first_level_of, empty_levels, fill_levels, levels_of, new,
}
use rostl.Oram.Recursive.Flat.{IsFlat, position_of}

-- So many draws.
abbrev draws : (ℕ → ℕ → ℕ) → ℕ → ℕ → ℕ → List ℕ
draws rng start zero bound = []
draws rng start (suc count) bound = rng start bound ∷ draws rng (suc start) count bound

random_positions-draws :
    (rng : ℕ → ℕ → ℕ) (start count bound : ℕ)
    → 0 < bound
    → random_positions rng start count bound ≡ some (draws rng start count bound)
unfolding random_positions
random_positions-draws rng start zero bound h = refl
random_positions-draws rng start (suc count) bound h =
    rw
      (
        ne→== bound 0 (λ e. omega (arith, e, h)),
        random_positions-draws rng (suc start) count bound h,
      )
      refl

length-draws :
    (rng : ℕ → ℕ → ℕ) (start count bound : ℕ) → length (draws rng start count bound) ≡ count
length-draws rng start zero bound = refl
length-draws rng start (suc count) bound = ap suc (length-draws rng (suc start) count bound)

entry_or-draws :
    (rng : ℕ → ℕ → ℕ) (start count bound j : ℕ)
    → j < count
    → entry_or (draws rng start count bound) j 0 ≡ rng (start + j) bound
entry_or-draws rng start zero bound j h = absurd (omega arith)
entry_or-draws rng start (suc count) bound zero h = ap (λ i. rng i bound) (omega arith)
entry_or-draws rng start (suc count) bound (suc j) h =
    entry_or-draws rng (suc start) count bound j (omega arith) ∙ ap (λ i. rng i bound) (omega arith)

length-inner_of : (m : ℕ) (ps : List ℕ) → length (inner_of m ps) ≡ m
length-inner_of zero ps = refl
length-inner_of (suc m) [] = ap suc (length-inner_of m [])
length-inner_of (suc m) (p ∷ ps) = ap suc (length-inner_of m ps)

entry_or-inner_of :
    (m : ℕ) (ps : List ℕ) (j : ℕ)
    → j < m
    → j < length ps
    → entry_or (inner_of m ps) j 0 ≡ entry_or ps j 0
entry_or-inner_of zero ps j h hp = absurd (omega arith)
entry_or-inner_of (suc m) [] j h hp = absurd (omega arith)
entry_or-inner_of (suc m) (p ∷ ps) zero h hp = refl
entry_or-inner_of (suc m) (p ∷ ps) (suc j) h hp =
    entry_or-inner_of m ps j (omega arith) (omega arith)

entry_or-drop : (m : ℕ) (ps : List ℕ) (j : ℕ) → entry_or (drop m ps) j 0 ≡ entry_or ps (m + j) 0
entry_or-drop zero ps j = ap (λ i. entry_or ps i 0) (omega arith)
entry_or-drop (suc m) [] j = refl
entry_or-drop (suc m) (p ∷ ps) j =
    entry_or-drop m ps j
    ∙ ap (λ i. entry_or (p ∷ ps) i 0) {x = suc (m + j)} {y = suc m + j} (omega arith)

length-first_level_of : (b : ℕ) (ps : List ℕ) → length (first_level_of b ps) ≡ b
length-first_level_of zero ps = refl
length-first_level_of (suc b) ps = ap suc (length-first_level_of b (drop fan_out ps))

sizes-first_level_of :
    (b : ℕ) (ps : List ℕ) (i : ℕ)
    → i < b
    → length (entry_or (first_level_of b ps) i node_default.default).positions ≡ fan_out
sizes-first_level_of zero ps i h = absurd (omega arith)
sizes-first_level_of (suc b) ps zero h = length-inner_of fan_out ps
sizes-first_level_of (suc b) ps (suc i) h = sizes-first_level_of b (drop fan_out ps) i (omega arith)

-- The first level holds the positions in their order.
entry_or-first_level_of :
    (b : ℕ) (ps : List ℕ) (q r : ℕ)
    → q < b
    → r < fan_out
    → fan_out * q + r < length ps
    → entry_or (entry_or (first_level_of b ps) q node_default.default).positions r 0
      ≡ entry_or ps (fan_out * q + r) 0
entry_or-first_level_of zero ps q r h hr hp = absurd (omega arith)
entry_or-first_level_of (suc b) ps zero r h hr hp =
    entry_or-inner_of fan_out ps r hr (omega (arith, hp)) ∙ ap (λ i. entry_or ps i 0) (omega arith)
entry_or-first_level_of (suc b) ps (suc q) r h hr hp =
    entry_or-first_level_of b (drop fan_out ps) q r (omega arith) hr
      (omega (arith, hp, length-drop fan_out ps))
    ∙ entry_or-drop fan_out ps (fan_out * q + r)
    ∙ ap (λ i. entry_or ps i 0) (omega arith)

-- A new map of one level: full nodes, and for every key a draw.
pub record FreshMap (rng : ℕ → ℕ → ℕ) (n : ℕ) (out : RecursivePositionMap) : Type 0 where
  pub flat : IsFlat out
  pub size : out.n ≡ n
  pub indices : n ≤ length out.linear_oram.entries * fan_out
  pub positions : (j : ℕ) → j < n → position_of out j ≡ rng j n

module _ ⦃mb : Cmov (Block InternalNode)⦄ (rng : ℕ → ℕ → ℕ) (n : ℕ) (low : 0 < n)
    (high : n ≤ linear_map_size) where
  no_levels : levels_of n ≡ 0
  no_levels = rw (le→leb n linear_map_size high, le→ltb 2048 n high) refl

  abbrev buckets : ℕ
  buckets = min ((n + fan_out - 1) / fan_out) level_0_buckets

  abbrev made : RecursivePositionMap
  made = record {
    linear_oram = record { entries = first_level_of buckets (draws rng 0 n n) };
    recursive_orams = [];
    n = n;
    h = 0;
  }

  made-FreshMap : FreshMap rng n made
  made-FreshMap =
      let ps = draws rng 0 n n in
      let size = length-first_level_of buckets ps in
      record {
        flat = record {
          levels = refl;
          buckets = omega (arith, size);
          nodes = λ i h. sizes-first_level_of buckets ps i (omega (arith, h, size));
        };
        size = refl;
        indices = omega (arith, size, high);
        positions = λ j h.
            entry_or-first_level_of buckets ps (j / fan_out) (j % fan_out) (omega (arith, h, high))
              (omega arith) (omega (arith, length-draws rng 0 n n, h))
            ∙ ap (λ i. entry_or ps i 0) {x = fan_out * (j / fan_out) + j % fan_out} {y = j}
                (omega arith)
            ∙ entry_or-draws rng 0 n n j h
            ∙ ap (λ i. rng i n) (omega arith);
      }

  -- For a size n from 1 to linear_map_size, new returns a map without further levels, whose nodes are full and cover every
  -- key below n, and whose position of a key j below n is the j-th draw below n.
  pub new-FreshMap : Returns (FreshMap rng n) (new rng n)
  unfolding new empty_levels fill_levels
  new-FreshMap =
      let curr : min linear_map_size n * 1 ≡ n = omega (arith, high) in
      let bound : min n n % 2 ^ 32 ≡ n = omega (arith, high) in
      rw (no_levels, lt→ltb 0 n low, le→leb n linear_map_size high)
        (rw curr (rw bound (rw (random_positions-draws rng 0 n n low) (returns made-FreshMap))))
