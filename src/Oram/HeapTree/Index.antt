-- ===== src/Oram/HeapTree/Index.antt =====
-- crates/oram/src/heap_tree.rs: every node has a place of its own in the vector.
use native.Mathlib.Nat.{two-pow-succ, pow-le-pow_right, mod-lt, mod-eq_of_lt}
use native.Mathlib.Decide.{dec_lt}
use rostl.Base.{
  ℕ, suc, ◌+◌, ◌-◌, ◌%◌, ◌^◌, ◌≤◌, ◌<◌, ◌≡◌, refl, sym, ap, ◌∙◌, arith, Bool, Bool-cases, inl, inr,
  ==_iff, eq→==, ◌&&◌, none, some, ltb, ◌==◌, length, get_elem?-set, get_elem?-replicate, store_lem,
  set, replicate, if◌then◌else◌, ◌>>=◌, lt→ltb, le→ltb,
}
use rostl.Base.Bits.{bit_and-mask}
use rostl.Primitives.Powers.Laws.{pow_pos}
use rostl.Oram.HeapTree.{HeapTree, new_with, get_index, get_path_at_depth, set_path_at_depth}

-- The place of a node: the nodes of the smaller depths come first.
abbrev pub place : ℕ → ℕ → ℕ
place depth path = 2 ^ depth - 1 + path % 2 ^ depth

-- A tree has all its nodes, and positions tell its leaves apart.
pub record IsTree {A : Type 0} (self : HeapTree A) : Type 0 where
  pub size : length self.tree ≡ 2 ^ self.height - 1
  pub bound : self.height ≤ 33

power_mono : (i j : ℕ) → i ≤ j → 2 ^ i ≤ 2 ^ j
power_mono i j h = pow-le-pow_right {n = 2} (omega arith) {i = i} {j = j} h

module _ {A : Type 0} (self : HeapTree A) where
  pub get_index_lem :
      (depth path : ℕ)
      → self.height ≤ 33
      → get_index self depth path
        ≡ (if ltb depth self.height then some (place depth path) else none)
  unfolding get_index
  get_index_lem depth path b = elim (dec_lt depth self.height) [
    | no out ↦ rw (le→ltb depth self.height (omega arith)) refl
    | yes inside ↦
        let small : (2 ^ depth - 1) % 2 ^ 32 ≡ 2 ^ depth - 1 =
          mod-eq_of_lt (omega (arith, power_mono depth 32 (omega arith), pow_pos depth)) in
        rw
          (
            lt→ltb depth self.height inside,
            lt→ltb depth 64 (omega arith),
            small,
            bit_and-mask depth path,
          )
          refl
  ]

  pub place_inside : (depth path : ℕ) → depth < self.height → place depth path < 2 ^ self.height - 1
  place_inside depth path h = omega (
    arith,
    mod-lt path {m = 2 ^ depth} (pow_pos depth),
    pow_pos depth,
    two-pow-succ depth,
    power_mono (suc depth) self.height (omega arith),
  )

-- Nodes at different depths, or with different paths, have different places.
pub place_injective :
    (d1 p1 d2 p2 : ℕ) → place d1 p1 ≡ place d2 p2 → (d1 ≡ d2) × (p1 % 2 ^ d1 ≡ p2 % 2 ^ d2)
place_injective d1 p1 d2 p2 e = elim (dec_lt d1 d2) [
  | yes h ↦ absurd (
      omega (
        arith,
        mod-lt p1 {m = 2 ^ d1} (pow_pos d1),
        pow_pos d2,
        two-pow-succ d1,
        power_mono (suc d1) d2 (omega arith),
      ))
  | no h1 ↦ elim (dec_lt d2 d1) [
    | yes h ↦ absurd (
        omega (
          arith,
          mod-lt p2 {m = 2 ^ d2} (pow_pos d2),
          pow_pos d1,
          two-pow-succ d2,
          power_mono (suc d2) d1 (omega arith),
        ))
    | no h2 ↦
        let same : d1 ≡ d2 = omega arith in (same, omega (arith, ap (λ d. 2 ^ d) same, pow_pos d1))
  ]
]

-- Whether two depths and paths lead to the same node.
abbrev pub same_node : ℕ → ℕ → ℕ → ℕ → Bool
same_node d1 p1 d2 p2 = d1 == d2 && (p1 % 2 ^ d1 == p2 % 2 ^ d2)

place_same : (d1 p1 d2 p2 : ℕ) → (place d1 p1 == place d2 p2) ≡ same_node d1 p1 d2 p2
place_same d1 p1 d2 p2 = elim (Bool-cases (place d1 p1 == place d2 p2)) [
  | inl e ↦
      let (d, p) = place_injective d1 p1 d2 p2 ((==_iff (place d1 p1) (place d2 p2)).0 e) in
      e ∙ sym (rw (eq→== d1 d2 d, eq→== (p1 % 2 ^ d1) (p2 % 2 ^ d2) p) refl)
  | inr ne ↦ elim (Bool-cases (d1 == d2)) [
    | inr f ↦ ne ∙ sym (rw f refl)
    | inl g ↦ elim (Bool-cases (p1 % 2 ^ d1 == p2 % 2 ^ d2)) [
      | inr f ↦ ne ∙ sym (rw (g, f) refl)
      | inl g' ↦
          let d = (==_iff d1 d2).0 g in
          let p = (==_iff (p1 % 2 ^ d1) (p2 % 2 ^ d2)).0 g' in
          let e : place d1 p1 ≡ place d2 p2 = omega (arith, ap (λ d. 2 ^ d) d) in
          absurd (cc (ne, eq→== (place d1 p1) (place d2 p2) e))
    ]
  ]
]

module _ {A : Type 0} (self : HeapTree A) where
  -- A read after a write: the written value at the same node, the old one at another, and a panic
  -- below the leaves.
  pub get_path_at_depth-set_path_at_depth :
      (d1 p1 d2 p2 : ℕ) (value : A)
      → IsTree self
      → d1 < self.height
      → (set_path_at_depth self d1 p1 value >>= λ t. get_path_at_depth t d2 p2) ≡ (
          if ltb d2 self.height
          then (if same_node d1 p1 d2 p2 then some value else get_path_at_depth self d2 p2)
          else none)
  unfolding set_path_at_depth get_path_at_depth
  get_path_at_depth-set_path_at_depth d1 p1 d2 p2 value t h =
      let inside = place_inside self d1 p1 h in
      let tree = set self.tree (place d1 p1) value in
      let new_self : HeapTree A = record { tree = tree; height = self.height } in
      let at = get_index_lem new_self d2 p2 t.bound in
      rw
        (
          get_index_lem self d1 p1 t.bound,
          lt→ltb d1 self.height h,
          store_lem self.tree (place d1 p1) value (omega (arith, t.size)),
        )
        (elim (dec_lt d2 self.height) [
          | no out ↦ rw (at, le→ltb d2 self.height (omega arith)) refl
          | yes in_tree ↦
              rw (at, lt→ltb d2 self.height in_tree)
                (get_elem?-set self.tree (place d1 p1) (place d2 p2) value (omega (arith, t.size))
                  ∙ rw (place_same d1 p1 d2 p2) refl)
        ])

-- `new_with` of a height of at most 33 gives a tree whose every node holds the default value;
-- a read below the leaves panics.
pub get_path_at_depth-new_with :
    {A : Type 0} (height : ℕ) (default : A) (depth path : ℕ)
    → height ≤ 33
    → (new_with height default >>= λ t. get_path_at_depth t depth path)
      ≡ (if ltb depth height then some default else none)
unfolding new_with get_path_at_depth
get_path_at_depth-new_with height default depth path b =
    let n = 2 ^ height - 1 in
    let t : HeapTree _ = record { tree = replicate n default; height = height } in
    let at = get_index_lem t depth path b in
    rw (lt→ltb height 64 (omega arith)) (elim (dec_lt depth height) [
      | no out ↦ rw (at, le→ltb depth height (omega arith)) refl
      | yes inside ↦
          rw (at, lt→ltb depth height inside)
            (get_elem?-replicate n (place depth path) default (place_inside t depth path inside))
    ])
