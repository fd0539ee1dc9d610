-- ===== src/Structures/Heap/Deletions.antt =====
-- crates/datastructures/src/heap.rs: `delete` and `extract_min`.
use mathlib.Core.List.Perm
use rostl.Base.{
  ℕ, ◌%◌, ◌^◌, ◌<◌, ◌≡◌, refl, sym, ap, ◌∙◌, subst, arith, true, inl, inr, List, [], ◌++◌, Perm,
  take, some, none, Option, ◌>>=◌, Returns, Returns-bind, Returns-imp, Returns-some, ==_iff, le→ltb,
}
use rostl.Primitives.{Cmov}
use rostl.Oram.Circuit.{CircuitOram, with_stash, concat, read_path_and_get_nodes, write_back_path}
use rostl.Oram.Circuit.Blocks.{Zeroable, Block, matches, dummy_pos, stash_size, remove_element}
use rostl.Oram.Circuit.Ops.{evict_once_fast}
use rostl.Oram.Circuit.Filled.{All, filled, filled-append}
use rostl.Oram.Circuit.Elements.{
  with_key, without_key, without_key-filled, remove_element-without_key,
}
use rostl.Oram.Circuit.Stash.{without_key-OnStash}
use rostl.Oram.Circuit.State.{content, read_path_and_get_nodes-ReadNodes, ReadPath-OnStash}
use rostl.Oram.Circuit.Evolve.{Evolved, Rewritten, evict_and_write_back-Rewritten}
use rostl.Oram.Circuit.Tally.{tally, tally-perm, tally-append, length-with_key}
use rostl.Oram.Circuit.Location.{Located, path-Located}
use rostl.Oram.Circuit.Access.{with_key-All, tally-with_key}
use rostl.Structures.Stack.Invariant.{some_draw, max_n-lt}
use rostl.Oram.Recursive.{random_range}
use rostl.Structures.Heap.{
  Heap, HeapElement, heap_element_zeroable, with_oram, update_min, evict_and_update, delete,
  extract_min,
}
use rostl.Structures.Heap.Nodes.{IsHeap, find_min-IsLeast}
use rostl.Structures.Heap.Evictions.{evict_and_update-Evicted, update_min-Refreshed, bind_chain}

-- The heap after a deletion: the elements of the timestamp are gone, and the others are kept.
pub record Deleted {V : Type 0} (self : Heap V) (timestamp : ℕ) (out : Heap V) : Type 0 where
  pub heap : IsHeap out
  pub removed : List (Block (HeapElement V))
  pub blocks : Perm (content self.oram) (removed ++ content out.oram)
  pub of_stamp : All (λ b. matches timestamp b ≡ true) removed
  pub no_other : tally (matches timestamp) (content out.oram) ≡ 0
  pub stamps : out.timestamp ≡ self.timestamp
  pub max_n : out.oram.max_n ≡ self.oram.max_n

bind_chain_within :
    {X A B C D : Type 0} (x : Option X) (o : X → Option A) (f : X → A → Option B) (g : B → Option C)
    (h : C → Option D)
    → ((x >>= λ x. o x >>= λ a. f x a >>= g) >>= h)
      ≡ (x >>= λ x. o x >>= λ a. f x a >>= λ b. g b >>= h)
bind_chain_within none o f g h = refl
bind_chain_within (some x) o f g h = bind_chain (o x) (f x) g h

module _ {V : Type 0} ⦃mb : Cmov (Block (HeapElement V))⦄ ⦃z : Zeroable V⦄ (self : Heap V)
    (pos timestamp : ℕ) (t : IsHeap self) (inside : pos < self.oram.max_n)
    (known : Located self.oram pos timestamp) where
  -- The memory when the element is removed and the path is written back.
  WithoutElement : CircuitOram (HeapElement V) → Type 0
  WithoutElement oram =
      (removed : List (Block (HeapElement V))) × Evolved self.oram removed [] oram
      × Rewritten self.oram pos oram
      × All (λ b. matches timestamp b ≡ true) removed
      × (tally (matches timestamp) (content oram) ≡ 0)

  removal : Returns WithoutElement (
      read_path_and_get_nodes self.oram pos >>= λ oram. remove_element oram.stash timestamp >>= λ r.
      evict_once_fast (with_stash oram r.0) pos >>= λ oram. write_back_path oram pos)
  unfolding WithoutElement
  removal =
      Returns-bind (read_path_and_get_nodes-ReadNodes self.oram pos t.ordered.state inside)
        λ oram n.
          let front = take stash_size self.oram.stash in
          let stash = front ++ concat n.old in
          let removed = with_key timestamp stash in
          let found = path-Located self.oram pos timestamp n.old t.ordered.state known n.path in
          let on = ReadPath-OnStash self.oram pos t.ordered.state inside n.old n.path in
          let p : Perm (removed ++ filled (without_key timestamp stash))
              (filled front ++ filled (concat n.old)) =
            subst (Perm (removed ++ filled (without_key timestamp stash)))
              (filled-append front (concat n.old)) (without_key-filled timestamp stash) in
          rw
            (
              n.result,
              remove_element-without_key stash timestamp
                  (omega (arith, length-with_key timestamp stash, found, known.once)),
            )
            (Returns-imp
              (evict_and_write_back-Rewritten self.oram pos n.old (without_key timestamp stash)
                removed [] t.ordered.state inside n.path
                (without_key-OnStash timestamp self.oram.h pos stash on) p)
              λ out e. (
                removed,
                e.0,
                e.1,
                with_key-All timestamp stash,
                omega (
                  arith,
                  tally-perm (matches timestamp) _ _ e.0.blocks,
                  tally-append (matches timestamp) removed (content out),
                  tally-with_key timestamp stash,
                  found,
                ),
              ))

  -- With a draw below the number of leaves, delete of a timestamp that one element of the heap has at
  -- most, at a position below the number of leaves, which is the element's if there is one, returns a
  -- heap without elements of the timestamp and with all others.
  pub delete-Deleted :
      (rng : ℕ → ℕ → ℕ)
      → rng 0 self.oram.max_n < self.oram.max_n
      → Returns (Deleted self timestamp) (delete rng self pos timestamp)
  unfolding delete WithoutElement
  delete-Deleted rng draw =
      subst (Returns (Deleted self timestamp))
        (bind_chain_within (read_path_and_get_nodes self.oram pos)
          (λ oram. remove_element oram.stash timestamp)
          (λ oram r. evict_once_fast (with_stash oram r.0) pos) (λ oram. write_back_path oram pos)
          (λ oram. update_min (with_oram self oram) pos >>= λ self.
            random_range rng 0 (self.oram.max_n % 2 ^ 32) >>= evict_and_update self))
        (Returns-bind removal λ oram (removed, e, r, of_stamp, no_other).
          Returns-bind (update_min-Refreshed self oram pos t.ordered e.state e.h r) λ mid f.
            let same : mid.oram.max_n ≡ self.oram.max_n = ap (λ o. o.max_n) f.oram ∙ e.max_n in
            let draw' = subst (λ n. rng 0 n < n) (sym same) draw in
            rw (some_draw mid.oram f.heap.ordered.state rng 0 draw') (
              Returns-imp (evict_and_update-Evicted mid (rng 0 mid.oram.max_n) f.heap.ordered draw')
                λ out g.
                  let kept = subst (λ o. Perm (content out.oram) (content o)) f.oram g.blocks in
                  record {
                    heap = g.heap;
                    removed = removed;
                    blocks =
                        Perm.trans (Perm.symm e.blocks) (Perm.append_left removed (Perm.symm kept));
                    of_stamp = of_stamp;
                    no_other = tally-perm (matches timestamp) _ _ kept ∙ no_other;
                    stamps = g.timestamp ∙ f.timestamp;
                    max_n = g.max_n ∙ same;
                  }))

module _ {V : Type 0} ⦃mb : Cmov (Block (HeapElement V))⦄ ⦃z : Zeroable V⦄ where
  -- extract_min of a heap without elements panics: find_min gives a block without a position of the
  -- tree.
  pub extract_min-empty :
      (rng : ℕ → ℕ → ℕ) (self : Heap V)
      → IsHeap self
      → content self.oram ≡ []
      → extract_min rng self ≡ none
  unfolding extract_min delete read_path_and_get_nodes
  extract_min-empty rng self t empty =
      let (b, found, l) = Returns-some (find_min-IsLeast self t) in
      let nowhere : b.pos ≡ dummy_pos = elim l.source [
        | inl (e, which) ↦ (==_iff b.pos dummy_pos).0 e
        | inr (full, (k, at)) ↦ absurd (cc (rw empty at at))
      ] in
      rw
        (
          found,
          le→ltb b.pos self.oram.max_n (omega (arith, nowhere, max_n-lt self.oram t.ordered.state)),
        )
        refl
