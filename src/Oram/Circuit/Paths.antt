-- ===== src/Oram/Circuit/Paths.antt =====
-- crates/oram/src/circuit_oram.rs: `read_path` of the tree of buckets.
use rostl.Base.{
  ℕ, zero, suc, ◌+◌, ◌<◌, ◌≡◌, refl, ap₂, List, [], ◌∷◌, arith, length, some, get_elem?, lt→ltb,
  Returns, returns, Returns-bind,
}
use rostl.Oram.HeapTree.{HeapTree}
use rostl.Oram.HeapTree.Index.{place, IsTree, get_index_lem}
use rostl.Oram.Circuit.Blocks.{bucket_size}
use rostl.Oram.Circuit.{Bucket, read_buckets}
use rostl.Oram.Circuit.Filled.{All, Fits}
use rostl.Oram.Circuit.Levels.{LevelsFit}
use rostl.Oram.Circuit.Parts.{Shaped}

-- A bucket at a depth of a path: of the right size, with blocks that may be there.
abbrev pub BucketFits : {V : Type 0} → ℕ → ℕ → Bucket V → Type 0
BucketFits depth path bucket = (length bucket ≡ bucket_size) × All (Fits depth path) bucket

-- Every bucket of the tree is such a bucket, for every path through it.
pub record IsOramTree {V : Type 0} (self : HeapTree (Bucket V)) : Type 0 where
  pub tree : IsTree self
  pub bucket :
      (depth path : ℕ)
      → depth < self.height
      → (b : Bucket V) × (get_elem? self.tree (place depth path) ≡ some b) × BucketFits depth path b

-- These are the tree's buckets on a path, from depth `i` on.
abbrev pub OnPath : {V : Type 0} → HeapTree (Bucket V) → ℕ → ℕ → List (Bucket V) → Type 0
OnPath self path i [] = zero ≡ zero
OnPath self path i (b ∷ buckets) =
    (get_elem? self.tree (place i path) ≡ some b) × OnPath self path (suc i) buckets

-- What `read_path` finds.
pub record ReadPath {V : Type 0} (self : HeapTree (Bucket V)) (path i n : ℕ)
    (buckets : List (Bucket V)) : Type 0 where
  pub shape : Shaped n buckets
  pub fit : LevelsFit i path buckets
  pub on_path : OnPath self path i buckets

module _ {V : Type 0} where
  pub read_buckets-ReadPath :
      (self : HeapTree (Bucket V)) (path n i : ℕ)
      → IsOramTree self
      → i + n ≡ self.height
      → Returns (ReadPath self path i n) (read_buckets self path n i)
  unfolding read_buckets
  read_buckets-ReadPath self path zero i t e =
      returns (record { shape = refl; fit = refl; on_path = refl })
  read_buckets-ReadPath self path (suc n) i t e =
      let (b, at, fits) = t.bucket i path (omega (arith, e)) in
      rw (get_index_lem self i path t.tree.bound, lt→ltb i self.height (omega (arith, e)), at)
        (Returns-bind (read_buckets-ReadPath self path n (suc i) t (omega (arith, e))) λ rest r.
          returns (record {
            shape = ap₂ ◌∷◌ fits.0 r.shape;
            fit = (fits.1, r.fit);
            on_path = (at, r.on_path);
          }))
