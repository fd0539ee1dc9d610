-- ===== src/Oram/Circuit/State.antt =====
-- crates/oram/src/circuit_oram.rs: what holds of a Circuit ORAM between operations, and how a path
-- is read and written back.
use mathlib.Core.List
use mathlib.Core.List.Perm
use native.Mathlib.Nat.{pow-le-pow_right}
use rostl.Base.{
  ℕ, zero, suc, ◌+◌, ◌-◌, ◌*◌, ◌^◌, ◌≤◌, ◌<◌, ◌≡◌, refl, ap, sym, subst, ◌∙◌, List, [], ◌∷◌, ◌++◌,
  arith, length, take, drop, length-append, length-take, length-drop, drop-append, eq→==, lt→ltb,
  le→leb, Returns, returns, Returns-bind,
}
use rostl.Oram.HeapTree.{HeapTree}
use rostl.Oram.Circuit.Blocks.{Block, bucket_size, stash_size}
use rostl.Oram.Circuit.{
  Bucket, CircuitOram, with_stash, concat, chunks, path_end, read_path, write_path,
  read_path_and_get_nodes, write_back_path,
}
use rostl.Oram.Circuit.Filled.{filled}
use rostl.Oram.Circuit.Parts.{Shaped, chunks-concat, length-concat, drop_all}
use rostl.Oram.Circuit.Paths.{IsOramTree, ReadPath, read_buckets-ReadPath}
use rostl.Oram.Circuit.PathWrites.{WritePath, write_buckets-WritePath}
use rostl.Oram.Circuit.Stash.{OnStash, chunks-Shaped}

-- The state between operations: a tree of the height, with as many leaves as `max_n` says, every
-- block of it on its path, and a stash with room for a path. Positions have 32 bits, so that a
-- height of 33 makes the evictions divide by zero.
pub record IsCircuitOram {V : Type 0} (self : CircuitOram V) : Type 0 where
  pub tree : IsOramTree self.tree
  pub height : self.tree.height ≡ self.h
  pub low : 2 ≤ self.h
  pub high : self.h ≤ 32
  pub leaves : self.max_n ≡ 2 ^ (self.h - 1)
  pub stash : length self.stash ≡ stash_size + self.h * bucket_size
  pub counter : self.evict_counter < self.max_n

-- The blocks of the memory: those of the stash proper and those of the tree.
abbrev pub content : {V : Type 0} → CircuitOram V → List (Block V)
content self = filled (take stash_size self.stash) ++ filled (concat self.tree.tree)

-- The path is in the stash, behind the stash's own blocks.
pub record ReadNodes {V : Type 0} (self : CircuitOram V) (pos : ℕ) (out : CircuitOram V)
    : Type 0 where
  pub old : List (Bucket V)
  pub path : ReadPath self.tree pos 0 self.tree.height old
  pub result : out ≡ with_stash self (take stash_size self.stash ++ concat old)

abbrev pub with_tree : {V : Type 0} → CircuitOram V → HeapTree (Bucket V) → CircuitOram V
with_tree self tree = record {
  max_n = self.max_n;
  h = self.h;
  stash = self.stash;
  tree = tree;
  evict_counter = self.evict_counter;
}

module _ {V : Type 0} where
  pub take_all : (n : ℕ) (xs : List (Block V)) → length xs ≡ n → take n xs ≡ xs
  take_all zero [] e = refl
  take_all zero (x ∷ xs) e = absurd (omega (arith, e))
  take_all (suc n) [] e = refl
  take_all (suc n) (x ∷ xs) e = ap (◌∷◌ x) (take_all n xs (omega (arith, e)))

  module _ (self : CircuitOram V) (pos : ℕ) (t : IsCircuitOram self) (h : pos < self.max_n) where
    inside_tree : pos < 2 ^ self.tree.height
    inside_tree = omega (
      arith,
      h,
      t.leaves,
      ap (λ k. 2 ^ k) t.height,
      pow-le-pow_right {n = 2} (omega arith) {i = self.h - 1} {j = self.h} (omega arith),
    )

    -- The path's buckets, one after the other.
    FlatPath : List (Block V) → Type 0
    FlatPath path =
        (old : List (Bucket V)) × ReadPath self.tree pos 0 self.tree.height old
        × (path ≡ concat old)

    tree_read_path-FlatPath : Returns FlatPath (read_path self.tree pos (self.h * bucket_size))
    unfolding read_path FlatPath
    tree_read_path-FlatPath =
        let same : self.h * bucket_size ≡ self.tree.height * bucket_size =
          omega (arith, t.height) in
        rw
          (
            lt→ltb self.tree.height 64 (omega (arith, t.high, t.height)),
            lt→ltb pos (2 ^ self.tree.height) inside_tree,
            eq→== (self.h * bucket_size) (self.tree.height * bucket_size) same,
          )
          (Returns-bind
            (read_buckets-ReadPath self.tree pos self.tree.height 0 t.tree (omega arith))
            λ old r. returns (old, r, refl))

    -- Reading a path returns, and puts the buckets of the path behind the stash.
    pub read_path_and_get_nodes-ReadNodes :
        Returns (ReadNodes self pos) (read_path_and_get_nodes self pos)
    unfolding read_path_and_get_nodes FlatPath
    read_path_and_get_nodes-ReadNodes =
        let no_rest = drop_all (path_end self) self.stash (omega (arith, t.stash)) in
        rw
          (
            lt→ltb pos self.max_n h,
            le→leb (path_end self) (length self.stash) (omega (arith, t.stash)),
            no_rest,
          )
          (Returns-bind tree_read_path-FlatPath λ path f. returns (record {
            old = f.0;
            path = f.1;
            result =
                ap (λ p. with_stash self (take stash_size self.stash ++ p))
                  (List.append-nil path ∙ f.2);
          }))

    -- The stash after that.
    pub ReadPath-OnStash :
        (old : List (Bucket V))
        → ReadPath self.tree pos 0 self.tree.height old
        → OnStash self.h pos (take stash_size self.stash ++ concat old)
    ReadPath-OnStash old r =
        let size = length-take stash_size self.stash (omega (arith, t.stash)) in
        let shape : Shaped self.h old = subst (λ n. Shaped n old) t.height r.shape in
        record {
          size =
              length-append (take stash_size self.stash) (concat old)
              ∙ omega (arith, size, length-concat self.h old shape);
          fit =
              rw
                (
                  drop-append (take stash_size self.stash) (concat old) stash_size (sym size),
                  chunks-concat self.h old shape,
                )
                r.fit;
        }

    -- A write back returns, and exchanges the path in the tree for the one in the stash.
    pub write_back_path-WritePath :
        (old : List (Bucket V)) (stash : List (Block V))
        → ReadPath self.tree pos 0 self.tree.height old
        → OnStash self.h pos stash
        → Returns
            (λ out.
              (tree : HeapTree (Bucket V)) × WritePath self.tree pos 0 old
                (chunks self.h (drop stash_size stash))
                tree
              × (out ≡ with_tree (with_stash self stash) tree))
            (write_back_path (with_stash self stash) pos)
    unfolding write_back_path write_path
    write_back_path-WritePath old stash r s =
        let path = drop stash_size stash in
        let size : length path ≡ self.h * bucket_size =
          length-drop stash_size stash ∙ omega (arith, s.size) in
        let size' : length path ≡ self.tree.height * bucket_size = size ∙ omega (arith, t.height) in
        let new = chunks self.h path in
        let shape = subst (λ n. Shaped n new) (sym t.height) (chunks-Shaped self.h path size) in
        rw
          (
            lt→ltb pos self.max_n h,
            le→leb (path_end self) (length stash) (omega (arith, s.size)),
            take_all (self.h * bucket_size) path size,
            lt→ltb self.tree.height 64 (omega (arith, t.high, t.height)),
            lt→ltb pos (2 ^ self.tree.height) inside_tree,
            eq→== (length path) (self.tree.height * bucket_size) size',
            ap (λ n. chunks n path) t.height,
          )
          (Returns-bind
            (write_buckets-WritePath pos self.tree.height 0 old new self.tree t.tree (omega arith)
              r.shape r.on_path shape s.fit)
            λ tree w. returns (tree, w, refl))
