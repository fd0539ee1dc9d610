-- ===== src/Structures/Heap/Nodes.antt =====
-- crates/datastructures/src/heap.rs: what the tree of least elements holds, and `find_min`.
use mathlib.Core.Option.{some-injective}
use rostl.Base.{
  ℕ, zero, suc, ◌%◌, ◌^◌, ◌≤◌, ◌<◌, ◌≡◌, refl, sym, ap, ◌∙◌, subst, arith, true, false, inl, inr,
  ◌⊎◌, List, [], get_elem?, some, take, length, le→leb, lt→ltb, Returns, returns, lt_of_get_elem?,
}
use rostl.Primitives.{Cmov}
use rostl.Primitives.Usize.{usize_max}
use rostl.Oram.HeapTree.{HeapTree, get_path_at_depth}
use rostl.Oram.HeapTree.Index.{place, IsTree, get_index_lem}
use rostl.Oram.Circuit.{Bucket, concat}
use rostl.Oram.Circuit.Blocks.{Block, is_empty, stash_size}
use rostl.Oram.Circuit.Filled.{filled}
use rostl.Oram.Circuit.State.{IsCircuitOram, content}
use rostl.Oram.Circuit.Location.{node_at}
use rostl.Structures.Heap.{Heap, HeapElement, find_min, least_of}
use rostl.Structures.Heap.Least.{
  In, Below, rank, rank-empty, least_of_lem, Below-le, In-append_left, In-append_right, In-filled,
  In-concat, Below-append, Below-filled, Below-concat,
}

-- A full block stands in the tree at the node or below it.
pub record Deeper {V : Type 0} (tree : HeapTree (Bucket (HeapElement V))) (depth path : ℕ)
    (b : Block (HeapElement V)) : Type 0 where
  pub full : is_empty b ≡ false
  pub d : ℕ
  pub p : ℕ
  pub deeper : depth ≤ d
  pub inside : d < tree.height
  pub same : p % 2 ^ depth ≡ path % 2 ^ depth
  pub bucket : Bucket (HeapElement V)
  pub at : get_elem? tree.tree (place d p) ≡ some bucket
  pub held : In b bucket

-- Where a least element comes from: it is empty, or stands below.
abbrev pub Sourced :
    {V : Type 0} → HeapTree (Bucket (HeapElement V)) → ℕ → ℕ → Block (HeapElement V) → Type 0
Sourced tree depth path b = (is_empty b ≡ true) ⊎ Deeper tree depth path b

-- A node of the tree of least elements: its rank is not above the keys of the bucket and the ranks of
-- the nodes below, and its element comes from there. Nodes that were never updated are empty, with
-- the key 0.
pub record NodeOk {V : Type 0} (tree : HeapTree (Bucket (HeapElement V)))
    (metadata : HeapTree (Block (HeapElement V))) (depth path : ℕ) : Type 0 where
  pub least : Block (HeapElement V)
  pub at : get_elem? metadata.tree (place depth path) ≡ some least
  pub bound : rank least ≤ usize_max
  pub bucket : Bucket (HeapElement V)
  pub bucket_at : get_elem? tree.tree (place depth path) ≡ some bucket
  pub below : Below (rank least) bucket
  pub children :
      (p : ℕ) (c : Block (HeapElement V))
      → p % 2 ^ depth ≡ path % 2 ^ depth
      → suc depth < metadata.height
      → get_elem? metadata.tree (place (suc depth) p) ≡ some c
      → rank least ≤ rank c
  pub source : Sourced tree depth path least

-- Every node is right, whatever the key of an empty root is.
pub record IsOrdered {V : Type 0} (self : Heap V) : Type 0 where
  pub state : IsCircuitOram self.oram
  pub tree : IsTree self.metadata
  pub height : self.metadata.height ≡ self.oram.h
  pub nodes : (d p : ℕ) → d < self.oram.h → NodeOk self.oram.tree self.metadata d p

-- Also the root's key is its rank, but for a memory without elements: a new heap's root has the
-- key 0.
pub record IsHeap {V : Type 0} (self : Heap V) : Type 0 where
  pub ordered : IsOrdered self
  pub root :
      (b : Block (HeapElement V))
      → get_elem? self.metadata.tree (place 0 0) ≡ some b
      → (b.value.key ≡ rank b) ⊎ (content self.oram ≡ [])

-- An element with the least key of the memory, or, when every key of the memory is the largest one
-- or there is none, maybe an empty block.
pub record IsLeast {V : Type 0} (self : Heap V) (b : Block (HeapElement V)) : Type 0 where
  pub below : Below b.value.key (content self.oram)
  pub source :
      ((is_empty b ≡ true) × ((b.value.key ≡ usize_max) ⊎ (content self.oram ≡ [])))
      ⊎ ((is_empty b ≡ false) × In b (content self.oram))

module _ {V : Type 0} (self : Heap V) (t : IsOrdered self) where
  root : Block (HeapElement V)
  root = (t.nodes 0 0 (omega (arith, t.state.low))).least

  root_at : (p : ℕ) → get_elem? self.metadata.tree (place 0 p) ≡ some root
  unfolding root
  root_at p =
      ap (get_elem? self.metadata.tree) {x = place 0 p} {y = place 0 0} (omega arith)
      ∙ (t.nodes 0 0 (omega (arith, t.state.low))).at

  -- The root's key is the least one.
  root-le : (d p : ℕ) (h : d < self.oram.h) → rank root ≤ rank (t.nodes d p h).least
  root-le zero p h =
      let same = some-injective _ _ (sym (root_at p) ∙ (t.nodes zero p h).at) in
      omega (arith, ap rank same)
  root-le (suc d) p h =
      let above = t.nodes d p (omega (arith, h)) in
      let here = t.nodes (suc d) p h in
      omega (
        arith,
        root-le d p (omega (arith, h)),
        above.children p here.least refl (omega (arith, h, t.height)) here.at,
      )

  root-Below : Below (rank root) (concat self.oram.tree.tree)
  root-Below = Below-concat (rank root) self.oram.tree.tree λ j c at.
      let (d, p, inside, at_place) = node_at self.oram.h j (
        omega (
          arith,
          lt_of_get_elem? self.oram.tree.tree j at,
          t.state.tree.tree.size,
          ap (λ h. 2 ^ h) t.state.height,
        )) in
      let node = t.nodes d p inside in
      let same : node.bucket ≡ c =
        some-injective node.bucket c
          (sym node.bucket_at ∙ ap (get_elem? self.oram.tree.tree) at_place ∙ at) in
      subst (Below (rank root)) same
        (Below-le (rank node.least) (rank root) node.bucket (root-le d p inside) node.below)

  front : List (Block (HeapElement V))
  front = take stash_size self.oram.stash

  root_source : (is_empty root ≡ true) ⊎ ((is_empty root ≡ false) × In root (content self.oram))
  unfolding root front
  root_source = elim (t.nodes 0 0 (omega (arith, t.state.low))).source [
    | inl e ↦ inl e
    | inr s ↦ inr (
      s.full,
      In-append_right _ (filled front) _
          (In-filled _ _ s.full (In-concat _ self.oram.tree.tree _ s.bucket s.at s.held)),
    )
  ]

module _ {V : Type 0} ⦃mb : Cmov (Block (HeapElement V))⦄ (self : Heap V) (t : IsHeap self) where
  top : Block (HeapElement V)
  top = root self t.ordered

  stash : List (Block (HeapElement V))
  stash = front self t.ordered

  top_key : (top.value.key ≡ rank top) ⊎ (content self.oram ≡ [])
  unfolding top
  top_key = t.root top (root_at self t.ordered 0)

  top-IsLeast :
      (b : Block (HeapElement V))
      → b ≡ top
      → ((is_empty b ≡ true) × ((b.value.key ≡ usize_max) ⊎ (content self.oram ≡ [])))
        ⊎ ((is_empty b ≡ false) × In b (content self.oram))
  unfolding top
  top-IsLeast b same = elim (root_source self t.ordered) [
    | inr (full, held) ↦
        inr (ap is_empty same ∙ full, subst (λ x. In x (content self.oram)) (sym same) held)
    | inl empty ↦ inl (
      ap is_empty same ∙ empty,
      elim top_key [
        | inl exact ↦ inl (ap (λ x. x.value.key) same ∙ exact ∙ rank-empty top empty)
        | inr none_held ↦ inr none_held
      ],
    )
  ]

  least_of-IsLeast : IsLeast self (least_of top stash)
  unfolding top stash front
  least_of-IsLeast =
      let r = least_of_lem top stash in
      let l = least_of top stash in
      record {
        below = elim top_key [
          | inl exact ↦ Below-append l.value.key _ _ (Below-filled l.value.key stash r.below) (
              Below-filled l.value.key _ (
                Below-le (rank top) l.value.key _ (omega (arith, r.below_first, exact))
                  (root-Below self t.ordered)))
          | inr none_held ↦ rw none_held refl
        ];
        source = elim r.source [
          | inl same ↦ top-IsLeast l same
          | inr (full, i) ↦ inr (full, In-append_left _ _ _ (In-filled l stash full i))
        ];
      }

  -- find_min of a heap returns an element with the least key of the memory; when every key is the
  -- largest one, or there is no element, that may be an empty block.
  pub find_min-IsLeast : Returns (IsLeast self) (find_min self)
  unfolding find_min get_path_at_depth front top stash
  find_min-IsLeast =
      rw
        (
          get_index_lem self.metadata 0 0 t.ordered.tree.bound,
          lt→ltb 0 self.metadata.height (omega (arith, t.ordered.height, t.ordered.state.low)),
          root_at self t.ordered 0,
          le→leb stash_size (length self.oram.stash) (omega (arith, t.ordered.state.stash)),
        )
        (returns least_of-IsLeast)
