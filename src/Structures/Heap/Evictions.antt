-- ===== src/Structures/Heap/Evictions.antt =====
-- crates/datastructures/src/heap.rs: `update_min` after a path was written, and `evict`.
use mathlib.Core.Option.{some-injective}
use rostl.Base.{
  get_elem?, ℕ, zero, suc, ◌+◌, ◌*◌, ◌%◌, ◌^◌, ◌≤◌, ◌<◌, ◌≡◌, refl, sym, ap, ◌∙◌, subst, arith, inl,
  inr, List, [], ◌∷◌, Perm, length, length-drop, drop, le→leb, Returns, returns, Returns-bind,
  Returns-imp, ◌>>=◌, Option, some, none,
}
use rostl.Base.Siblings.{low_bits}
use rostl.Primitives.{Cmov}
use rostl.Oram.HeapTree.{HeapTree}
use rostl.Oram.HeapTree.Index.{place, place_injective}
use rostl.Oram.Circuit.{
  Bucket, CircuitOram, chunks, path_end, read_path_and_get_nodes, write_back_path,
}
use rostl.Oram.Circuit.Blocks.{Zeroable, Block, stash_size, bucket_size}
use rostl.Oram.Circuit.Ops.{evict_once_fast}
use rostl.Oram.Circuit.Paths.{OnPath}
use rostl.Oram.Circuit.State.{IsCircuitOram, content, take_all}
use rostl.Oram.Circuit.Evolve.{Evolved, Rewritten, evict_path-Rewritten}
use rostl.Structures.Heap.{
  Heap, HeapElement, heap_element_zeroable, greatest, with_oram, reversed, update_min, evict,
  evict_and_update,
}
use rostl.Structures.Heap.Least.{rank}
use rostl.Structures.Heap.Nodes.{NodeOk, IsOrdered, IsHeap}
use rostl.Structures.Heap.Update.{Along, Upward, update_levels-Along}

module _ {V : Type 0} where
  length-chunks : (n : ℕ) (slots : List (Block V)) → length (chunks n slots) ≡ n
  length-chunks zero slots = refl
  length-chunks (suc n) slots = ap suc (length-chunks n (drop bucket_size slots))

module _ {V : Type 0} (tree : HeapTree (Bucket (HeapElement V))) (pos : ℕ) where
  -- The path's buckets, reversed.
  reversed-Upward :
      (i : ℕ) (buckets levels : List (Bucket (HeapElement V)))
      → OnPath tree pos i buckets
      → Upward tree pos i levels
      → Upward tree pos (i + length buckets) (reversed buckets levels)
  unfolding reversed
  reversed-Upward i [] levels on up =
      subst (λ k. Upward tree pos k levels) {x = i} {y = i + 0} (omega arith) up
  reversed-Upward i (b ∷ buckets) levels on up =
      subst (λ k. Upward tree pos k (reversed buckets (b ∷ levels))) {x = suc i + length buckets}
        {y = i + suc (length buckets)} (omega arith)
        (reversed-Upward (suc i) buckets (b ∷ levels) on.1 (on.0, up))

-- What an eviction leaves right: the nodes off the path.
module _ {V : Type 0} (self out : CircuitOram (HeapElement V)) (pos : ℕ)
    (metadata : HeapTree (Block (HeapElement V))) (r : Rewritten self pos out)
    (same_height : out.tree.height ≡ self.tree.height) where
  off_path :
      (depth p d q : ℕ)
      → depth ≤ d
      → q % 2 ^ depth ≡ p % 2 ^ depth
      → ¬ (p % 2 ^ depth ≡ pos % 2 ^ depth)
      → (k : ℕ) → ¬ (place k pos ≡ place d q)
  off_path depth p d q h below off k e =
      let (same, path) = place_injective k pos d q e in
      off (sym below ∙ low_bits depth d q pos h (sym path ∙ ap (λ n. pos % 2 ^ n) same))

  Rewritten-NodeOk :
      (d p : ℕ)
      → ¬ (p % 2 ^ d ≡ pos % 2 ^ d)
      → NodeOk self.tree metadata d p
      → NodeOk out.tree metadata d p
  Rewritten-NodeOk d p off node = record {
    least = node.least;
    at = node.at;
    bound = node.bound;
    bucket = node.bucket;
    bucket_at = r.frame d p (off_path d p d p (omega arith) refl off) ∙ node.bucket_at;
    below = node.below;
    children = node.children;
    source = elim node.source [
      | inl default ↦ inl default
      | inr s ↦ inr (record {
        full = s.full;
        d = s.d;
        p = s.p;
        deeper = s.deeper;
        inside = omega (arith, s.inside, same_height);
        same = s.same;
        bucket = s.bucket;
        at = r.frame s.d s.p (off_path d p s.d s.p s.deeper s.same off) ∙ s.at;
        held = s.held;
      })
    ];
  }

-- The heap after an update of its tree of least elements, and no other change.
pub record Refreshed {V : Type 0} (self : Heap V) (memory : CircuitOram (HeapElement V))
    (out : Heap V) : Type 0 where
  pub heap : IsHeap out
  pub oram : out.oram ≡ memory
  pub timestamp : out.timestamp ≡ self.timestamp
  pub max_size : out.max_size ≡ self.max_size

module _ {V : Type 0} ⦃mb : Cmov (Block (HeapElement V))⦄ ⦃z : Zeroable V⦄ where
  -- After a path of the memory was written, update_min of the path returns, and makes a heap.
  pub update_min-Refreshed :
      (self : Heap V) (oram : CircuitOram (HeapElement V)) (pos : ℕ)
      → IsOrdered self
      → IsCircuitOram oram
      → oram.h ≡ self.oram.h
      → Rewritten self.oram pos oram
      → Returns (Refreshed self oram) (update_min (with_oram self oram) pos)
  unfolding update_min
  update_min-Refreshed self oram pos t state same r =
      let path = drop stash_size oram.stash in
      let size : length path ≡ oram.h * bucket_size =
        length-drop stash_size oram.stash ∙ omega (arith, state.stash) in
      let levels = chunks oram.h path in
      let height : self.metadata.height ≡ oram.tree.height =
        omega (arith, t.height, same, state.height) in
      let up = reversed-Upward oram.tree pos 0 levels [] r.on_path refl in
      let up' : Upward oram.tree pos self.metadata.height (reversed levels []) =
        subst (λ k. Upward oram.tree pos k (reversed levels []))
          (omega (arith, length-chunks oram.h path, height, state.height)) up in
      let start : Along oram.tree pos self.metadata.height greatest self.metadata = record {
        shape = t.tree;
        height = height;
        bound = omega arith;
        exact = refl;
        at = λ inside. absurd (omega (arith, inside, height));
        source = inl refl;
        nodes = λ d p h off.
            Rewritten-NodeOk self.oram oram pos self.metadata r
              (omega (arith, state.height, same, t.state.height)) d p
              (off (omega (arith, h, height))) (t.nodes d p (omega (arith, h, state.height, same)));
      } in
      rw
        (
          le→leb (path_end oram) (length oram.stash) (omega (arith, state.stash)),
          take_all (oram.h * bucket_size) path size,
        )
        (Returns-bind
          (update_levels-Along oram.tree pos self.metadata.height greatest self.metadata
            (reversed levels []) start (omega (arith, height)) up')
          λ metadata (root, a). returns (record {
            heap = record {
              ordered = record {
                state = state;
                tree = a.shape;
                height = a.height ∙ state.height;
                nodes = λ d p h.
                    a.nodes d p (omega (arith, h, state.height)) (λ e. absurd (omega (arith, e)));
              };
              root = λ b at.
                  let here = a.at (omega (arith, state.height, state.low)) in
                  let first =
                    ap (get_elem? metadata.tree) {x = place 0 0} {y = place 0 pos} (omega arith) in
                  let same = some-injective root b (sym here ∙ sym first ∙ at) in
                  inl (subst (λ x. x.value.key ≡ rank x) same a.exact);
            };
            oram = refl;
            timestamp = refl;
            max_size = refl;
          }))

module _ {B C D : Type 0} where
  bind_assoc :
      (o : Option B) (g : B → Option C) (h : C → Option D)
      → ((o >>= g) >>= h) ≡ (o >>= λ b. g b >>= h)
  bind_assoc none g h = refl
  bind_assoc (some b) g h = refl

  -- What follows a chain of three.
  pub bind_chain :
      {A : Type 0} (o : Option A) (f : A → Option B) (g : B → Option C) (h : C → Option D)
      → ((o >>= λ a. f a >>= g) >>= h) ≡ (o >>= λ a. f a >>= λ b. g b >>= h)
  bind_chain none f g h = refl
  bind_chain (some a) f g h = bind_assoc (f a) g h

-- The heap after an eviction: the same elements.
pub record Evicted {V : Type 0} (self out : Heap V) : Type 0 where
  pub heap : IsHeap out
  pub max_n : out.oram.max_n ≡ self.oram.max_n
  pub blocks : Perm (content out.oram) (content self.oram)
  pub timestamp : out.timestamp ≡ self.timestamp

module _ {V : Type 0} ⦃mb : Cmov (Block (HeapElement V))⦄ ⦃z : Zeroable V⦄ where
  -- An eviction of a path with the update of the path returns a heap with the same elements.
  pub evict_and_update-Evicted :
      (self : Heap V) (pos : ℕ)
      → IsOrdered self
      → pos < self.oram.max_n
      → Returns (Evicted self) (evict_and_update self pos)
  unfolding evict_and_update evict
  evict_and_update-Evicted self pos t inside =
      let WithPath = λ (out : Heap V).
        (oram : CircuitOram (HeapElement V)) × Evolved self.oram [] [] oram
        × Rewritten self.oram pos oram
        × (out ≡ with_oram self oram) in
      let evicted =
        subst (Returns WithPath)
          (bind_chain (read_path_and_get_nodes self.oram pos) (λ s. evict_once_fast s pos)
            (λ s. write_back_path s pos) (λ oram. some (with_oram self oram)))
          (Returns-bind (evict_path-Rewritten self.oram pos t.state inside)
            λ oram e. returns (oram, e.0, e.1, refl)) in
      Returns-bind evicted λ mid (oram, e, r, same). rw same (
        Returns-imp (update_min-Refreshed self oram pos t e.state e.h r) λ out f. record {
          heap = f.heap;
          max_n = ap (λ o. o.max_n) f.oram ∙ e.max_n;
          blocks = subst (λ o. Perm (content o) (content self.oram)) (sym f.oram) e.blocks;
          timestamp = f.timestamp;
        })
