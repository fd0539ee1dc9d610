-- ===== src/Structures/Heap/Clients.antt =====
-- crates/datastructures/src/heap.rs: `insert`, with and without room in the stash.
use mathlib.Core.List
use mathlib.Core.List.Perm
use rostl.Base.{
  ℕ, ◌+◌, ◌^◌, ◌<◌, ◌≡◌, refl, sym, ap, ◌∙◌, subst, arith, true, false, Bool-cases, inl, inr, List,
  [], ◌∷◌, ◌++◌, Perm, length, length-append, length-take, length-drop, take, drop, take-append,
  Returns, returns, Returns-bind,
}
use rostl.Primitives.{Cmov}
use rostl.Primitives.Usize.{checked_add_lem}
use rostl.Oram.Circuit.{with_stash, concat}
use rostl.Oram.Circuit.Blocks.{
  Zeroable, Block, is_empty, stash_size, write_from, write_block_to_empty_slot,
}
use rostl.Oram.Circuit.Filled.{one, filled}
use rostl.Oram.Circuit.Passes.{any_empty}
use rostl.Oram.Circuit.Elements.{write_block_to_empty_slot-Placed}
use rostl.Oram.Circuit.State.{IsCircuitOram, content}
use rostl.Structures.Stack.Invariant.{some_draw}
use rostl.Structures.Heap.{Heap, HeapElement, with_oram, with_timestamp, insert}
use rostl.Structures.Heap.Nodes.{IsOrdered, IsHeap}
use rostl.Structures.Heap.Evictions.{evict_and_update-Evicted}

module _ {V : Type 0} ⦃m : Cmov (Block V)⦄ where
  write_from_full :
      (val : Block V) (arr : List (Block V))
      → any_empty arr ≡ false
      → write_from val arr false ≡ (arr, false)
  unfolding write_from any_empty
  write_from_full val [] e = refl
  write_from_full val (b ∷ arr) e = elim (Bool-cases (is_empty b)) [
    | inl g ↦ absurd (cc (rw g at e))
    | inr g ↦ rw (g, m.cmov_lem b val false, write_from_full val arr (rw g at e)) refl
  ]

abbrev pub heap_block : {V : Type 0} → ℕ → ℕ → ℕ → V → Block (HeapElement V)
heap_block pos timestamp key value = record {
  pos = pos;
  key = timestamp;
  value = record { key = key; value = value };
}

-- The heap after an insertion: `added` are its new elements.
pub record Inserted {V : Type 0} (self : Heap V) (new_pos : ℕ)
    (added : List (Block (HeapElement V))) (out : Heap V × ℕ × ℕ) : Type 0 where
  pub heap : IsHeap out.0
  pub max_n : out.0.oram.max_n ≡ self.oram.max_n
  pub blocks : Perm (content out.0.oram) (added ++ content self.oram)
  pub timestamp : out.0.timestamp ≡ self.timestamp + 1
  pub position : out.1 ≡ new_pos
  pub stamp : out.2 ≡ self.timestamp

module _ {V : Type 0} ⦃mb : Cmov (Block (HeapElement V))⦄ ⦃z : Zeroable V⦄ (rng : ℕ → ℕ → ℕ)
    (self : Heap V) (key : ℕ) (value : V) (t : IsHeap self)
    (draws : (i : ℕ) → rng i self.oram.max_n < self.oram.max_n)
    (stamps : self.timestamp + 1 < 2 ^ 64) where
  front : List (Block (HeapElement V))
  front = take stash_size self.oram.stash

  block : Block (HeapElement V)
  block = heap_block (rng 0 self.oram.max_n) self.timestamp key value

  written : List (Block (HeapElement V))
  unfolding front block
  written = (write_block_to_empty_slot front block).0

  size : length front ≡ stash_size
  unfolding front
  size = length-take stash_size self.oram.stash (omega (arith, t.ordered.state.stash))

  -- Both evictions, whatever the write has made of the stash.
  insert-Inserted_any :
      (added : List (Block (HeapElement V)))
      → length written ≡ stash_size
      → Perm (filled written) (added ++ filled front)
      → Returns (Inserted self (rng 0 self.oram.max_n) added) (insert rng self key value)
  unfolding insert front block written
  insert-Inserted_any added length_written p =
      let stash = written ++ drop stash_size self.oram.stash in
      let start : Heap V =
        with_timestamp (with_oram self (with_stash self.oram stash)) (self.timestamp + 1) in
      let same_front : take stash_size stash ≡ written =
        take-append written (drop stash_size self.oram.stash) stash_size (sym length_written) in
      let state : IsCircuitOram start.oram = record {
        tree = t.ordered.state.tree;
        height = t.ordered.state.height;
        low = t.ordered.state.low;
        high = t.ordered.state.high;
        leaves = t.ordered.state.leaves;
        stash =
            length-append written (drop stash_size self.oram.stash)
            ∙ omega (
              arith,
              length_written,
              length-drop stash_size self.oram.stash,
              t.ordered.state.stash,
            );
        counter = t.ordered.state.counter;
      } in
      let heap : IsOrdered start = record {
        state = state;
        tree = t.ordered.tree;
        height = t.ordered.height;
        nodes = t.ordered.nodes;
      } in
      let blocks : Perm (content start.oram) (added ++ content self.oram) =
        rw
          (
            same_front,
            ← List.append_assoc added (filled front) (filled (concat self.oram.tree.tree)),
          )
          (Perm.append_right (filled (concat self.oram.tree.tree)) p) in
      rw
        (
          some_draw self.oram t.ordered.state rng 0 (draws 0),
          checked_add_lem self.timestamp 1 stamps,
          some_draw self.oram t.ordered.state rng 1 (draws 1),
        )
        (Returns-bind (evict_and_update-Evicted start (rng 1 self.oram.max_n) heap (draws 1))
          λ mid e.
            rw
              (some_draw mid.oram e.heap.ordered.state rng 2
                (subst (λ n. rng 2 n < n) (sym e.max_n) (draws 2)))
              (Returns-bind
                (evict_and_update-Evicted mid (rng 2 mid.oram.max_n) e.heap.ordered
                  (subst (λ n. rng 2 n < n) (sym e.max_n) (draws 2)))
                λ out f. returns (record {
                  heap = f.heap;
                  max_n = f.max_n ∙ e.max_n;
                  blocks = Perm.trans f.blocks (Perm.trans e.blocks blocks);
                  timestamp = f.timestamp ∙ e.timestamp;
                  position = refl;
                  stamp = refl;
                })))

  -- With draws below the number of leaves and a next timestamp below 2^64, insert into a heap with
  -- room in the stash returns the element's position, which is the first draw, and its timestamp, and the heap has the element
  -- and those that it had.
  pub insert-Inserted :
      any_empty (take stash_size self.oram.stash) ≡ true
      → Returns
          (Inserted self
            (rng 0 self.oram.max_n)
            (one (heap_block (rng 0 self.oram.max_n) self.timestamp key value)))
          (insert rng self key value)
  unfolding front block written
  insert-Inserted room =
      let placed = (write_block_to_empty_slot-Placed front block room).1 in
      insert-Inserted_any (one block) (placed.size ∙ size) placed.blocks

  -- Without room in the stash, with draws below the number of leaves and a next timestamp below 2^64,
  -- insert returns a position and a timestamp all the same, and the heap
  -- has the elements that it had, without the new one.
  pub insert-full :
      any_empty (take stash_size self.oram.stash) ≡ false
      → Returns (Inserted self (rng 0 self.oram.max_n) []) (insert rng self key value)
  unfolding front block written write_block_to_empty_slot
  insert-full full =
      let same = ap (λ r. r.0) (write_from_full block front full) in
      insert-Inserted_any [] (ap length same ∙ size)
        (subst (λ w. Perm (filled w) (filled front)) (sym same) Perm.rfl)
