-- ===== src/Structures/Heap/Update.antt =====
-- crates/datastructures/src/heap.rs: the loop of `update_min` over the levels of a path.
use Prim.Native.Nat.{bit_xor}
use mathlib.Core.Option.{some-injective}
use native.Mathlib.Decide.{ℕ_discrete}
use rostl.Base.{
  ℕ, zero, suc, ◌+◌, ◌-◌, ◌%◌, ◌^◌, ◌≤◌, ◌<◌, ◌≡◌, refl, sym, ap, ◌∙◌, subst, arith, inl, inr, ◌⊎◌,
  List, [], ◌∷◌, get_elem?, some, set, length-set, get_elem?-set, store_lem, lt→ltb, eq→==, ne→==,
  ◌==◌, Bool-cases, Returns, returns, Returns-bind, if◌then◌else◌,
}
use rostl.Base.Siblings.{other_child, xor_low, low_bits}
use rostl.Primitives.{Cmov}
use rostl.Primitives.Usize.{usize_max, checked_sub, checked_sub_lem}
use rostl.Oram.HeapTree.{HeapTree, get_path_at_depth, set_path_at_depth, get_sibling}
use rostl.Oram.HeapTree.Index.{place, place_injective, place_inside, IsTree, get_index_lem}
use rostl.Oram.Circuit.{Bucket}
use rostl.Oram.Circuit.Blocks.{Block, is_empty}
use rostl.Structures.Heap.{HeapElement, should_mov, least_of, with_sibling, update_levels}
use rostl.Structures.Heap.Least.{
  LeastOf, LeastOf-exact, rank, rank-empty, rank-full, least_of_lem, Below-le, moved_full,
  not_moved,
}
use rostl.Structures.Heap.Nodes.{Sourced, NodeOk}

module _ {V : Type 0} (tree : HeapTree (Bucket (HeapElement V))) where
  -- What holds above a depth holds of the elements from below it.
  Sourced-above :
      (i j p q : ℕ) (b : Block (HeapElement V))
      → i ≤ j
      → p % 2 ^ i ≡ q % 2 ^ i
      → Sourced tree j p b
      → Sourced tree i q b
  Sourced-above i j p q b h e (inl default) = inl default
  Sourced-above i j p q b h e (inr s) = inr (record {
    full = s.full;
    d = s.d;
    p = s.p;
    deeper = omega (arith, h, s.deeper);
    inside = s.inside;
    same = low_bits i j s.p p h s.same ∙ e;
    bucket = s.bucket;
    at = s.at;
    held = s.held;
  })

  -- The tree of least elements when the levels of the path from depth `k` on are done: `curr` is
  -- the node there, and every node is right but those of the path above.
  pub record Along (pos k : ℕ) (curr : Block (HeapElement V))
      (metadata : HeapTree (Block (HeapElement V))) : Type 0 where
    pub shape : IsTree metadata
    pub height : metadata.height ≡ tree.height
    pub bound : curr.value.key ≤ usize_max
    pub exact : curr.value.key ≡ rank curr
    pub at : k < tree.height → get_elem? metadata.tree (place k pos) ≡ some curr
    pub source : Sourced tree k pos curr
    pub nodes :
        (d p : ℕ)
        → d < tree.height
        → (d < k → ¬ (p % 2 ^ d ≡ pos % 2 ^ d))
        → NodeOk tree metadata d p

  -- The node at a depth of the path, before it is stored.
  record Level (pos j : ℕ) (least : Block (HeapElement V))
      (metadata : HeapTree (Block (HeapElement V))) (out : Block (HeapElement V)) : Type 0 where
    below_least : out.value.key ≤ least.value.key
    children :
        (p : ℕ) (c : Block (HeapElement V))
        → p % 2 ^ j ≡ pos % 2 ^ j
        → suc j < metadata.height
        → get_elem? metadata.tree (place (suc j) p) ≡ some c
        → out.value.key ≤ rank c
    exact : out.value.key ≡ rank out
    source : (out ≡ least) ⊎ Sourced tree j pos out

one_less : {j : ℕ} → checked_sub (suc j) 1 ≡ some j
one_less {j} =
    checked_sub_lem (suc j) 1 (omega arith) ∙ ap some {x = suc j - 1} {y = j} (omega arith)

module _ {V : Type 0} ⦃mb : Cmov (Block (HeapElement V))⦄ (tree : HeapTree (Bucket (HeapElement V)))
    (pos j : ℕ) (curr least : Block (HeapElement V)) (metadata : HeapTree (Block (HeapElement V)))
    (a : Along tree pos (suc j) curr metadata) (le : least.value.key ≤ curr.value.key)
    (exact : least.value.key ≡ rank least) (deep : suc j ≤ tree.height) where
  other : ℕ
  other = bit_xor pos (2 ^ j)

  -- The two children of the node: that of the path and its sibling.
  two_children :
      (out s : Block (HeapElement V))
      → out.value.key ≤ curr.value.key
      → out.value.key ≤ rank s
      → get_elem? metadata.tree (place (suc j) other) ≡ some s
      → (p : ℕ) (c : Block (HeapElement V)) → p % 2 ^ j ≡ pos % 2 ^ j
      → suc j < metadata.height
      → get_elem? metadata.tree (place (suc j) p) ≡ some c
      → out.value.key ≤ rank c
  unfolding other
  two_children out s below_curr below_s at_s p c same inside at_c =
      elim (ℕ_discrete (p % 2 ^ suc j) (pos % 2 ^ suc j)) [
        | yes on ↦
            let e = some-injective curr c (
              sym (a.at (omega (arith, inside, a.height)))
              ∙ ap (λ r. get_elem? metadata.tree (2 ^ suc j - 1 + r)) (sym on)
              ∙ at_c) in
            omega (arith, below_curr, a.exact, ap rank e)
        | no off ↦
            let e = some-injective s c (
              sym at_s
              ∙ ap (λ r. get_elem? metadata.tree (2 ^ suc j - 1 + r))
                  (sym (other_child j pos p same off))
              ∙ at_c) in
            omega (arith, below_s, ap rank e)
      ]

  -- The sibling is moved over the least element, or it is not.
  chosen :
      (inside : suc j < metadata.height) (s : Block (HeapElement V))
      → get_elem? metadata.tree (place (suc j) other) ≡ some s
      → Sourced tree (suc j) other s
      → Level tree pos j least metadata (if should_mov s least then s else least)
  unfolding other
  chosen inside s at source = elim (Bool-cases (should_mov s least)) [
    | inl e ↦
        let (full, lt) = moved_full s least e in
        rw e (record {
          below_least = omega (arith, lt);
          children = two_children s s (omega (arith, lt, le)) (omega (arith, rank-full s full)) at;
          exact = sym (rank-full s full);
          source =
              inr (Sourced-above tree j (suc j) other pos s (omega arith) (xor_low j pos) source);
        })
    | inr e ↦
        let not_above : least.value.key ≤ rank s = elim (Bool-cases (is_empty s)) [
          | inl empty ↦ omega (arith, rank-empty s empty, le, a.bound)
          | inr full ↦ omega (arith, rank-full s full, not_moved s least e full)
        ] in
        rw e (record {
          below_least = omega arith;
          children = two_children least s le not_above at;
          exact = exact;
          source = inl refl;
        })
  ]

  with_sibling-Level :
      Returns (Level tree pos j least metadata) (with_sibling metadata (suc j) pos least)
  unfolding with_sibling get_sibling get_path_at_depth other
  with_sibling-Level = elim (ℕ_discrete (suc j) metadata.height) [
    | yes leaf ↦ rw (eq→== (suc j) metadata.height leaf) (
        returns (record {
          below_least = omega arith;
          children = λ p c same inside. absurd (omega (arith, leaf, inside));
          exact = exact;
          source = inl refl;
        }))
    | no inner ↦
        let inside : suc j < metadata.height = omega (arith, inner, deep, a.height) in
        let node =
          a.nodes (suc j) other (omega (arith, inside, a.height))
            (λ h. absurd (omega (arith, h))) in
        rw
          (
            ne→== (suc j) metadata.height inner,
            one_less,
            lt→ltb j 32 (omega (arith, inside, a.shape.bound)),
            get_index_lem metadata (suc j) other a.shape.bound,
            lt→ltb (suc j) metadata.height inside,
            node.at,
            mb.cmov_lem least node.least (should_mov node.least least),
          )
          (returns (chosen inside node.least node.at node.source))
  ]

module _ {V : Type 0} (tree : HeapTree (Bucket (HeapElement V))) (pos j : ℕ)
    (curr out : Block (HeapElement V)) (metadata : HeapTree (Block (HeapElement V)))
    (elems : Bucket (HeapElement V)) (a : Along tree pos (suc j) curr metadata)
    (deep : suc j ≤ tree.height) where
  stored : HeapTree (Block (HeapElement V))
  stored = record { tree = set metadata.tree (place j pos) out; height = metadata.height }

  stored_at :
      (d p : ℕ)
      → get_elem? (set metadata.tree (place j pos) out) (place d p)
        ≡ (if place j pos == place d p then some out else get_elem? metadata.tree (place d p))
  stored_at d p =
      get_elem?-set metadata.tree (place j pos) (place d p) out
        (omega (arith, place_inside metadata j pos (omega (arith, deep, a.height)), a.shape.size))

  elsewhere :
      (d p : ℕ)
      → ¬ (place j pos ≡ place d p)
      → get_elem? (set metadata.tree (place j pos) out) (place d p)
        ≡ get_elem? metadata.tree (place d p)
  elsewhere d p ne = stored_at d p ∙ rw (ne→== (place j pos) (place d p) ne) refl

  -- A node that is not on the path above the stored one.
  kept_node :
      (d p : ℕ)
      → ¬ (place j pos ≡ place d p)
      → (suc d ≡ j → ¬ (p % 2 ^ d ≡ pos % 2 ^ d))
      → NodeOk tree metadata d p
      → NodeOk tree stored d p
  unfolding stored
  kept_node d p ne above node = record {
    least = node.least;
    at = elsewhere d p ne ∙ node.at;
    bound = node.bound;
    bucket = node.bucket;
    bucket_at = node.bucket_at;
    below = node.below;
    children = λ q c same inside at. node.children q c same inside (
        sym (
          elsewhere (suc d) q (λ e.
            let (depth, path) = place_injective j pos (suc d) q e in
            above (sym depth) (
              sym same
              ∙ low_bits d (suc d) q pos (omega arith) (sym path ∙ ap (λ k. pos % 2 ^ k) depth))))
        ∙ at);
    source = node.source;
  }

  -- The stored node.
  new_node :
      (least : Block (HeapElement V))
      → get_elem? tree.tree (place j pos) ≡ some elems
      → LeastOf curr elems least
      → Level tree pos j least metadata out
      → NodeOk tree stored j pos
  unfolding stored
  new_node least at_bucket l v = record {
    least = out;
    at = stored_at j pos ∙ rw (eq→== (place j pos) (place j pos) refl) refl;
    bound = omega (arith, v.below_least, l.below_first, a.bound, v.exact);
    bucket = elems;
    bucket_at = at_bucket;
    below =
        Below-le least.value.key (rank out) elems (omega (arith, v.below_least, v.exact)) l.below;
    children = λ q c same inside at. omega (
      arith,
      v.exact,
      v.children q c same inside (
          sym (elsewhere (suc j) q (λ e. omega (arith, (place_injective j pos (suc j) q e).0)))
          ∙ at),
    );
    source = elim v.source [
      | inr s ↦ s
      | inl same ↦ subst (Sourced tree j pos) (sym same) (elim l.source [
        | inl first ↦
            subst (Sourced tree j pos) (sym first)
              (Sourced-above tree j (suc j) pos pos curr (omega arith) refl a.source)
        | inr (full, held) ↦ inr (record {
          full = full;
          d = j;
          p = pos;
          deeper = omega arith;
          inside = omega (arith, deep);
          same = refl;
          bucket = elems;
          at = at_bucket;
          held = held;
        })
      ])
    ];
  }

  same_path :
      (depth p q : ℕ)
      → q % 2 ^ depth ≡ p % 2 ^ depth
      → NodeOk tree stored depth p
      → NodeOk tree stored depth q
  same_path depth p q e node = record {
    least = node.least;
    at = ap (λ r. get_elem? stored.tree (2 ^ depth - 1 + r)) e ∙ node.at;
    bound = node.bound;
    bucket = node.bucket;
    bucket_at = ap (λ r. get_elem? tree.tree (2 ^ depth - 1 + r)) e ∙ node.bucket_at;
    below = node.below;
    children = λ c b same. node.children c b (same ∙ e);
    source = Sourced-above tree depth depth p q node.least (omega arith) (sym e) node.source;
  }

  -- The loop's step, when the node is stored.
  stored-Along :
      (least : Block (HeapElement V))
      → get_elem? tree.tree (place j pos) ≡ some elems
      → LeastOf curr elems least
      → Level tree pos j least metadata out
      → Along tree pos j out stored
  unfolding stored new_node
  stored-Along least at_bucket l v =
      let here = new_node least at_bucket l v in
      record {
        shape = record {
          size = length-set metadata.tree (place j pos) out ∙ a.shape.size;
          bound = a.shape.bound;
        };
        height = a.height;
        bound = omega (arith, here.bound, v.exact);
        exact = v.exact;
        at = λ inside. here.at;
        source = here.source;
        nodes = λ d p h off. elim (ℕ_discrete (place j pos) (place d p)) [
          | yes e ↦
              let (depth, path) = place_injective j pos d p e in
              subst (λ k. NodeOk tree stored k p) depth
                (same_path j pos p (ap (λ k. p % 2 ^ k) depth ∙ sym path) here)
          | no ne ↦
              kept_node d p ne (λ e. off (omega (arith, e)))
                (a.nodes d p h λ below. elim (ℕ_discrete d j) [
                  | no differs ↦ off (omega (arith, below, differs))
                  | yes e ↦ λ same.
                      ne (ap (λ k. place k pos) (sym e) ∙ ap (λ r. 2 ^ d - 1 + r) (sym same))
                ])
        ];
      }

  set_path_lem : set_path_at_depth metadata j pos out ≡ some stored
  unfolding stored set_path_at_depth
  set_path_lem =
      let inside : j < metadata.height = omega (arith, deep, a.height) in
      rw
        (
          get_index_lem metadata j pos a.shape.bound,
          lt→ltb j metadata.height inside,
          store_lem metadata.tree (place j pos) out
              (omega (arith, place_inside metadata j pos inside, a.shape.size)),
        )
        refl

-- The levels are the path's buckets above a depth, the lowest first.
abbrev pub Upward :
    {V : Type 0}
    → HeapTree (Bucket (HeapElement V))
    → ℕ
    → ℕ
    → List (Bucket (HeapElement V))
    → Type 0
Upward tree pos zero [] = zero ≡ zero
Upward tree pos zero (elems ∷ levels) = suc zero ≡ zero
Upward tree pos (suc j) [] = suc zero ≡ zero
Upward tree pos (suc j) (elems ∷ levels) =
    (get_elem? tree.tree (place j pos) ≡ some elems) × Upward tree pos j levels

module _ {V : Type 0} ⦃mb : Cmov (Block (HeapElement V))⦄ (tree : HeapTree (Bucket (HeapElement V)))
    (pos : ℕ) where
  -- The loop returns, and leaves every node right.
  pub update_levels-Along :
      (k : ℕ) (curr : Block (HeapElement V)) (metadata : HeapTree (Block (HeapElement V)))
      (levels : List (Bucket (HeapElement V)))
      → Along tree pos k curr metadata
      → k ≤ tree.height
      → Upward tree pos k levels
      → Returns
          (λ out. (root : Block (HeapElement V)) × Along tree pos 0 root out)
          (update_levels pos k curr metadata levels)
  unfolding update_levels
  update_levels-Along zero curr metadata [] a deep up = returns (curr, a)
  update_levels-Along zero curr metadata (elems ∷ levels) a deep up = absurd (omega (arith, up))
  update_levels-Along (suc j) curr metadata [] a deep up = absurd (omega (arith, up))
  update_levels-Along (suc j) curr metadata (elems ∷ levels) a deep up =
      let l = least_of_lem curr elems in
      Returns-bind
        (with_sibling-Level tree pos j curr (least_of curr elems) metadata a l.below_first
          (LeastOf-exact curr elems (least_of curr elems) l a.exact) deep)
        λ out v.
          let a' =
            stored-Along tree pos j curr out metadata elems a deep (least_of curr elems) up.0 l v in
          rw (one_less, set_path_lem tree pos j curr out metadata elems a deep)
            (update_levels-Along j out _ levels a' (omega (arith, deep)) up.1)
