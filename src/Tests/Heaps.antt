-- ===== src/Tests/Heaps.antt =====
-- Runs of crates/datastructures/src/heap.rs, and instances of its theorems.
use mathlib.Core.Option.{some-injective}
use rostl.Base.{
  subst, ℕ, ◌-◌, ◌≡◌, refl, arith, List, [], ◌∷◌, ◌++◌, length, Option, some, none, replicate, inl,
  inr, if◌then◌else◌, ◌>>=◌, Returns, store,
}
use rostl.Primitives.{Cmov}
use rostl.Primitives.Usize.{checked_add, checked_sub}
use rostl.Primitives.Zeros.{zeros_loop}
use rostl.Oram.Circuit
use rostl.Oram.Circuit.{CircuitOram, read_path_and_get_nodes, write_back_path}
use rostl.Oram.Circuit.Blocks.{
  Zeroable, Block, default_block, matches, remove_element, write_block_to_empty_slot,
}
use rostl.Oram.Circuit.Filled.{one}
use rostl.Oram.Circuit.Passes.{any_empty}
use rostl.Oram.Circuit.State.{IsCircuitOram}
use rostl.Oram.Circuit.Relocate.{tally-one, key_other, one_none}
use rostl.Oram.Circuit.Location.{Located}
use rostl.Oram.Circuit.New.{fresh_tree, fresh_tree-IsOramTree}
use rostl.Oram.Circuit.Ops.{evict_once_fast, evict_levels}
use rostl.Oram.HeapTree
use rostl.Oram.HeapTree.{get_path_at_depth, set_path_at_depth, get_sibling}
use rostl.Structures.Heap.{
  Heap, HeapElement, heap_element_zeroable, greatest, new, find_min, insert, delete, extract_min,
  least_of, with_sibling, update_levels,
}
use rostl.Structures.Heap.Least.{rank}
use rostl.Structures.Heap.Nodes.{IsHeap, IsLeast, find_min-IsLeast}
use rostl.Structures.Heap.Clients.{Inserted, heap_block, insert-Inserted, insert-full}
use rostl.Structures.Heap.Deletions.{Deleted, delete-Deleted, extract_min-empty}
use rostl.Structures.Heap.Stamps.{IsStamped, Extracted, extract_min-Extracted}
use rostl.Structures.Heap.Fresh.{FreshHeap, new-FreshHeap, not_in_nil, empty_node}

instance abbrev block_cmov : Cmov (Block (HeapElement ℕ))
block_cmov = record {
  cmov = λ a b c. if c then b else a;
  cxchg = λ a b c. if c then (b, a) else (a, b);
  cmov_lem = λ a b c. refl;
  cxchg_lem = λ a b c. refl;
}

instance abbrev number_zeroable : Zeroable ℕ
number_zeroable = record { zeroed = 0 }

abbrev draw_one : ℕ → ℕ → ℕ
draw_one i bound = 1

-- The repository's test: the least elements before and after a deletion.
abbrev least_twice : Option (ℕ × ℕ)
least_twice = do
  heap ← new 4
  one ← insert draw_one heap 30 300
  two ← insert (λ i bound. i) one.0 10 100
  three ← insert (λ i bound. 2 - i) two.0 20 200
  first ← find_min three.0
  rest ← extract_min draw_one three.0
  second ← find_min rest
  some (first.value.value, second.value.value)

least_twice_run : least_twice ≡ some (100, 200)
unfolding new insert find_min extract_min least_of with_sibling update_levels evict_once_fast
    evict_levels read_path_and_get_nodes write_back_path remove_element write_block_to_empty_slot
    store checked_add checked_sub zeros_loop Circuit.new HeapTree.new HeapTree.new_with
    get_path_at_depth set_path_at_depth get_sibling
least_twice_run = refl

abbrev memory_of : List (Block (HeapElement ℕ)) → CircuitOram (HeapElement ℕ)
memory_of blocks = record {
  max_n = 2;
  h = 2;
  stash = blocks;
  tree = fresh_tree 2;
  evict_counter = 0;
}

memory_state :
    (blocks : List (Block (HeapElement ℕ))) → length blocks ≡ 24 → IsCircuitOram (memory_of blocks)
memory_state blocks e = record {
  tree = fresh_tree-IsOramTree 2 (omega arith);
  height = refl;
  low = omega arith;
  high = omega arith;
  leaves = refl;
  stash = e;
  counter = omega arith;
}

abbrev heap_of : List (Block (HeapElement ℕ)) → Heap ℕ
heap_of blocks = record {
  oram = memory_of blocks;
  metadata = record { tree = replicate 3 greatest; height = 2 };
  max_size = 2;
  timestamp = 1;
}

heap_of-IsHeap :
    (blocks : List (Block (HeapElement ℕ))) → length blocks ≡ 24 → IsHeap (heap_of blocks)
heap_of-IsHeap blocks e = record {
  ordered = record {
    state = memory_state blocks e;
    tree = record { size = refl; bound = omega arith };
    height = refl;
    nodes =
        empty_node greatest refl (memory_of blocks) (memory_state blocks e) (λ b i. not_in_nil b i);
  };
  root = λ b at. inl (subst (λ x. x.value.key ≡ rank x) (some-injective greatest b at) refl);
}

abbrev element : Block (HeapElement ℕ)
element = heap_block 1 0 5 42

-- One element, in the stash.
abbrev one_heap : Heap ℕ
one_heap = heap_of (element ∷ replicate 23 default_block)

-- A stash without an empty slot.
abbrev full_heap : Heap ℕ
full_heap = heap_of (replicate 20 element ++ replicate 4 default_block)

abbrev empty_heap : Heap ℕ
empty_heap = heap_of (replicate 24 default_block)

one_heap-IsStamped : IsStamped one_heap
one_heap-IsStamped = record {
  once = λ k. tally-one (matches k) element;
  unused =
      λ k h. one_none (matches k) element (inr (key_other k element (λ e. omega (arith, e, h))));
  placed = refl;
}

one_heap-Located : Located one_heap.oram 1 0
one_heap-Located = record { once = omega arith; here = refl }

new-FreshHeap_example : Returns (FreshHeap {V = ℕ}) (new 4)
new-FreshHeap_example = new-FreshHeap 4 (omega arith) (omega arith)

find_min-IsLeast_example : Returns (IsLeast one_heap) (find_min one_heap)
find_min-IsLeast_example = find_min-IsLeast one_heap (heap_of-IsHeap one_heap.oram.stash refl)

insert-Inserted_example :
    Returns (Inserted one_heap 1 (one (heap_block 1 1 3 7))) (insert draw_one one_heap 3 7)
unfolding any_empty
insert-Inserted_example =
    insert-Inserted draw_one one_heap 3 7 (heap_of-IsHeap one_heap.oram.stash refl)
      (λ i. omega arith) (omega arith) refl

insert-full_example : Returns (Inserted full_heap 1 []) (insert draw_one full_heap 3 7)
unfolding any_empty
insert-full_example =
    insert-full draw_one full_heap 3 7 (heap_of-IsHeap full_heap.oram.stash refl) (λ i. omega arith)
      (omega arith) refl

delete-Deleted_example : Returns (Deleted one_heap 0) (delete draw_one one_heap 1 0)
delete-Deleted_example =
    delete-Deleted one_heap 1 0 (heap_of-IsHeap one_heap.oram.stash refl) (omega arith)
      one_heap-Located draw_one (omega arith)

extract_min-Extracted_example : Returns (Extracted one_heap) (extract_min draw_one one_heap)
extract_min-Extracted_example =
    extract_min-Extracted draw_one one_heap (heap_of-IsHeap one_heap.oram.stash refl)
      one_heap-IsStamped element (0, refl) refl (omega arith) (omega arith)

extract_min-empty_example : extract_min draw_one empty_heap ≡ none
extract_min-empty_example =
    extract_min-empty draw_one empty_heap (heap_of-IsHeap empty_heap.oram.stash refl) refl
