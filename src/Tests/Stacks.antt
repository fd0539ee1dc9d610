-- ===== src/Tests/Stacks.antt =====
-- Runs of crates/datastructures/src/stack.rs, and instances of its theorems.
use native.Mathlib.Nat.{ℕ_set}
use rostl.Base.{
  ℕ, zero, suc, ◌≡◌, refl, arith, true, false, List, [], ◌∷◌, length, Option, some, none, replicate,
  if◌then◌else◌, ◌>>=◌, for_range, store,
}
use rostl.Primitives.{Cmov}
use rostl.Primitives.Usize.{usize_cmov, checked_rem, checked_add}
use rostl.Primitives.Zeros.{zeros_loop}
use rostl.Oram.Linear.{Default}
use rostl.Oram.Circuit.{CircuitOram, read_path_and_get_nodes, write_back_path}
use rostl.Oram.Circuit.Blocks.{
  Zeroable, Block, default_block, dummy_pos, remove_element, read_and_remove_element,
  write_block_to_empty_slot,
}
use rostl.Oram.HeapTree
use rostl.Oram.Circuit
use rostl.Oram.Circuit.Passes.{any_empty}
use rostl.Oram.Circuit.State.{IsCircuitOram}
use rostl.Oram.Circuit.Operations.{if_room}
use rostl.Oram.Circuit.Entries.{held}
use rostl.Oram.Circuit.New.{fresh_tree, fresh_tree-IsOramTree}
use rostl.Oram.Circuit.Ops.{
  evict_once_fast, perform_deterministic_evictions, write_or_insert, read, write_and_evict,
  eviction_round, perform_eviction, evict_levels,
}
use rostl.Structures.Stack.{
  Stack, StackElement, element_default, element_zeroable, new, maybe_push, maybe_pop,
}
use rostl.Structures.Stack.Invariant.{IsStack, Unused, element_block}
use rostl.Structures.Stack.Push.{maybe_push-IsStack}
use rostl.Structures.Stack.Pop.{maybe_pop-IsStack, maybe_push-maybe_pop}

instance abbrev element_cmov : Cmov (StackElement ℕ)
element_cmov = record {
  cmov = λ a b c. if c then b else a;
  cxchg = λ a b c. if c then (b, a) else (a, b);
  cmov_lem = λ a b c. refl;
  cxchg_lem = λ a b c. refl;
}

instance abbrev element_block_cmov : Cmov (Block (StackElement ℕ))
element_block_cmov = record {
  cmov = λ a b c. if c then b else a;
  cxchg = λ a b c. if c then (b, a) else (a, b);
  cmov_lem = λ a b c. refl;
  cxchg_lem = λ a b c. refl;
}

instance abbrev number_default : Default ℕ
number_default = record { default = 0 }

instance abbrev number_zeroable : Zeroable ℕ
number_zeroable = record { zeroed = 0 }

abbrev draw_one : ℕ → ℕ → ℕ
draw_one i bound = 1

abbrev draw_zero : ℕ → ℕ → ℕ
draw_zero i bound = 0

abbrev draw_zero_three : ℕ → ℕ → ℕ
draw_zero_three zero bound = 0
draw_zero_three (suc i) bound = 3

-- Two pushes and two pops.
abbrev push_and_pop : Option (ℕ × ℕ)
push_and_pop = do
  stack ← new 4
  one ← maybe_push draw_zero_three stack true 5
  two ← maybe_push draw_one one true 6
  (below, first) ← maybe_pop draw_zero two true 0
  (empty, second) ← maybe_pop draw_zero below true 0
  some (first, second)

push_and_pop_run : push_and_pop ≡ some (6, 5)
unfolding new maybe_push maybe_pop write_or_insert read write_and_evict
    perform_deterministic_evictions eviction_round perform_eviction evict_once_fast evict_levels
    read_path_and_get_nodes write_back_path remove_element read_and_remove_element
    write_block_to_empty_slot store for_range checked_rem checked_add zeros_loop Circuit.new
    HeapTree.new
push_and_pop_run = refl

-- A push, a pop that is not to happen, and a pop: the first pop moves the element to the position
-- that it draws, and the second one does not find it.
abbrev lost_element : Option (ℕ × ℕ)
lost_element = do
  stack ← new 4
  one ← maybe_push draw_zero_three stack true 5
  (same, kept) ← maybe_pop draw_one one false 7
  (out, value) ← maybe_pop draw_zero same true 0
  some (kept, value)

lost_element_run : lost_element ≡ some (7, 0)
unfolding new maybe_push maybe_pop write_or_insert read write_and_evict
    perform_deterministic_evictions eviction_round perform_eviction evict_once_fast evict_levels
    read_path_and_get_nodes write_back_path remove_element read_and_remove_element
    write_block_to_empty_slot store for_range checked_rem checked_add zeros_loop Circuit.new
    HeapTree.new
lost_element_run = refl

abbrev stack_of : ℕ → List (Block (StackElement ℕ)) → ℕ → Stack ℕ
stack_of top blocks size = record {
  oram = record { max_n = 2; h = 2; stash = blocks; tree = fresh_tree 2; evict_counter = 0 };
  top = top;
  size = size;
}

abbrev empty_stack : Stack ℕ
empty_stack = stack_of dummy_pos (replicate 24 default_block) 0

-- One element, in the stash.
abbrev one_stack : Stack ℕ
one_stack = stack_of 1 (element_block 1 1 5 dummy_pos ∷ replicate 23 default_block) 1

stack_state :
    (top size : ℕ) (blocks : List (Block (StackElement ℕ)))
    → length blocks ≡ 24
    → IsCircuitOram (stack_of top blocks size).oram
stack_state top size blocks e = record {
  tree = fresh_tree-IsOramTree 2 (omega arith);
  height = refl;
  low = omega arith;
  high = omega arith;
  leaves = refl;
  stash = e;
  counter = omega arith;
}

empty_stack-IsStack : IsStack [] empty_stack
empty_stack-IsStack = record {
  state = stack_state dummy_pos 0 (replicate 24 default_block) refl;
  size = refl;
  fits = omega arith;
  chain = refl;
}

one_stack-IsStack : IsStack (5 ∷ []) one_stack
one_stack-IsStack = record {
  state = stack_state 1 1 one_stack.oram.stash refl;
  size = refl;
  fits = omega arith;
  chain = (dummy_pos, omega arith, refl, refl);
}

maybe_push-IsStack_example :
    (out : Stack ℕ) × IsStack (5 ∷ []) out
    × Unused out 1
    × (maybe_push draw_one empty_stack true 5 ≡ if_room out.oram out)
unfolding any_empty
maybe_push-IsStack_example =
    maybe_push-IsStack ℕ_set draw_one [] empty_stack empty_stack-IsStack (λ k h. refl) refl
      (λ i. omega arith) true 5 (λ e. omega arith)

maybe_pop-IsStack_example :
    (out : Stack ℕ) × IsStack [] out
    × (out.oram.max_n ≡ 2)
    × (held out.oram 1 ≡ element_block 1 1 5 out.top ∷ [])
    × (maybe_pop draw_zero one_stack true 0 ≡ if_room out.oram (out, 5))
unfolding any_empty
maybe_pop-IsStack_example =
    maybe_pop-IsStack ℕ_set draw_zero 5 [] one_stack one_stack-IsStack refl (omega arith) 0

-- What the pop makes of the stack.
abbrev or_else : Option (Stack ℕ × ℕ) → Stack ℕ
or_else none = one_stack
or_else (some r) = r.0

popped_run :
    maybe_pop draw_zero one_stack true 0 ≡ some (or_else (maybe_pop draw_zero one_stack true 0), 5)
unfolding new maybe_push maybe_pop write_or_insert read write_and_evict
    perform_deterministic_evictions eviction_round perform_eviction evict_once_fast evict_levels
    read_path_and_get_nodes write_back_path remove_element read_and_remove_element
    write_block_to_empty_slot store for_range checked_rem checked_add zeros_loop Circuit.new
    HeapTree.new
popped_run = refl

maybe_push-maybe_pop_example :
    maybe_push draw_one (or_else (maybe_pop draw_zero one_stack true 0)) true 6 ≡ none
unfolding any_empty
maybe_push-maybe_pop_example =
    maybe_push-maybe_pop ℕ_set draw_zero draw_one 5 [] one_stack
      (or_else (maybe_pop draw_zero one_stack true 0)) 0 5 6 one_stack-IsStack refl (omega arith)
      popped_run refl (omega arith)
