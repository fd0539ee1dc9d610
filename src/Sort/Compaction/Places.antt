-- ===== src/Sort/Compaction/Places.antt =====
-- Where an entry goes when two cyclically compacted halves are merged (crates/sort/src/compaction.rs).
use native.Mathlib.Nat.{mod-eq_of_lt, mod-eq-sub-mod}
use rostl.Base.{ℕ, ◌+◌, ◌-◌, ◌%◌, ◌≤◌, ◌<◌, ◌≡◌, xor, arith, leb, ◌⊎◌}
use rostl.Sort.Swaps.{partner}

-- `r` is `x` reduced below `h`, once or twice at most.
abbrev pub Reduced : ℕ → ℕ → ℕ → Type 0
Reduced x h r = (r < h) × ((x ≡ r) ⊎ (x ≡ r + h) ⊎ (x ≡ r + h + h))

pub reduce : (x h : ℕ) → x < h + h + h → Reduced x h (x % h)
reduce x h b = grind (arith, mod-eq_of_lt, mod-eq-sub-mod)

-- An entry of the left half, the `r`-th that is marked.
pub left_place :
    (h z m r zl zr q x : ℕ)
    → z < h + h
    → m ≤ h
    → r < m
    → Reduced z h zl
    → Reduced (z + m) h zr
    → Reduced (zl + r) h q
    → Reduced (z + r) (h + h) x
    → partner h (λ j. xor (xor (leb h (zl + m)) (leb h z)) (leb zr j)) h x ≡ q
left_place h z m r zl zr q x b1 b2 b3 e1 e2 e3 e4 = ground arith

-- An entry of the right half, the `r`-th there.
pub right_place :
    (h z m r zl zr q x : ℕ)
    → z < h + h
    → m ≤ h
    → r < h
    → Reduced z h zl
    → Reduced (z + m) h zr
    → Reduced (zr + r) h q
    → Reduced (z + m + r) (h + h) x
    → partner h (λ j. xor (xor (leb h (zl + m)) (leb h z)) (leb zr j)) h x ≡ q + h
right_place h z m r zl zr q x b1 b2 b3 e1 e2 e3 e4 = ground arith

-- An entry of the long right part, the `r`-th there, in a slice of `n2 + n1`.
pub end_place :
    (n1 n2 m r z q : ℕ)
    → n2 < n1
    → m ≤ n2
    → r < n1
    → Reduced (n1 - n2 + m) n1 z
    → Reduced (z + r) n1 q
    → partner n1 (leb m) n2 (m + r) ≡ q + n2
end_place n1 n2 m r z q b1 b2 b3 e1 e2 = ground arith

-- An entry of the short left part stays.
pub start_place : (n1 n2 m r : ℕ) → n2 < n1 → m ≤ n2 → r < m → partner n1 (leb m) n2 r ≡ r
start_place n1 n2 m r b1 b2 b3 = ground arith
