-- ===== src/Tests/Circuits.antt =====
-- Runs of crates/oram/src/circuit_oram.rs, and instances of its theorems.
use rostl.Base.{
  ℕ, ◌+◌, ◌≡◌, refl, arith, Bool, true, List, [], ◌∷◌, Option, some, replicate, if◌then◌else◌,
  ◌>>=◌, Returns, inl, for_range, store,
}
use rostl.Primitives.{Cmov}
use rostl.Primitives.Usize.{usize_cmov, checked_rem}
use rostl.Primitives.Zeros.{zeros_loop}
use rostl.Oram.Linear.{Default}
use rostl.Oram.Circuit.Blocks.{
  Zeroable, Block, default_block, dummy_pos, remove_element, read_and_remove_element,
  write_block_to_empty_slot, reverse_bits,
}
use rostl.Oram.HeapTree
use rostl.Oram.Circuit.{CircuitOram, new, read_path_and_get_nodes, write_back_path}
use rostl.Oram.Circuit.Passes.{any_empty}
use rostl.Oram.Circuit.Elements.{any_block, value_or}
use rostl.Oram.Circuit.Stash.{OnStash}
use rostl.Oram.Circuit.EvictOnce.{EvictedOnce, evict_once_fast-EvictedOnce}
use rostl.Oram.Circuit.State.{IsCircuitOram}
use rostl.Oram.Circuit.Evolve.{Evolved}
use rostl.Oram.Circuit.Operations.{if_room, perform_deterministic_evictions-Evolved}
use rostl.Oram.Circuit.Access.{Accessed}
use rostl.Oram.Circuit.Client.{Callable, write_or_insert-Accessed}
use rostl.Oram.Circuit.ClientReads.{read-Accessed, update-Accessed}
use rostl.Oram.Circuit.New.{Fresh, new-Fresh, fresh_tree, fresh_tree-IsOramTree}
use rostl.Oram.Circuit.Ops.{
  evict_once_fast, perform_deterministic_evictions, write_or_insert, read, update, write_and_evict,
  eviction_round, perform_eviction, evict_levels,
}

instance abbrev block_cmov : Cmov (Block ℕ)
block_cmov = record {
  cmov = λ a b c. if c then b else a;
  cxchg = λ a b c. if c then (b, a) else (a, b);
  cmov_lem = λ a b c. refl;
  cxchg_lem = λ a b c. refl;
}

instance abbrev number_default : Default ℕ
number_default = record { default = 0 }

instance abbrev number_zeroable : Zeroable ℕ
number_zeroable = record { zeroed = 0 }

abbrev block : ℕ → ℕ → ℕ → Block ℕ
block pos key value = record { pos = pos; key = key; value = value }

-- Two writes and a read.
abbrev write_twice : Option (Bool × ℕ)
write_twice = do
  oram ← new 4
  one ← write_or_insert oram 0 3 7 42
  two ← write_or_insert one.0 0 2 8 43
  out ← read two.0 3 1 7 0
  some (out.1, out.2)

write_twice_run : write_twice ≡ some (true, 42)
unfolding new write_or_insert read write_and_evict perform_deterministic_evictions eviction_round
    perform_eviction evict_once_fast evict_levels read_path_and_get_nodes write_back_path
    remove_element read_and_remove_element write_block_to_empty_slot store for_range checked_rem
    zeros_loop HeapTree.new
write_twice_run = refl

reverse_run : reverse_bits 6 4 ≡ 6
unfolding reverse_bits
reverse_run = refl

-- A memory of two leaves with one block, in the stash.
abbrev held_oram : CircuitOram ℕ
held_oram = record {
  max_n = 2;
  h = 2;
  stash = block 1 7 42 ∷ replicate 23 default_block;
  tree = fresh_tree 2;
  evict_counter = 0;
}

held_oram-IsCircuitOram : IsCircuitOram held_oram
held_oram-IsCircuitOram = record {
  tree = fresh_tree-IsOramTree 2 (omega arith);
  height = refl;
  low = omega arith;
  high = omega arith;
  leaves = refl;
  stash = refl;
  counter = omega arith;
}

held_oram-Callable : Callable held_oram 1 7
unfolding any_empty
held_oram-Callable = record {
  state = held_oram-IsCircuitOram;
  inside = omega arith;
  room = refl;
  located = record { once = omega arith; here = refl };
}

held_oram-OnStash : OnStash 2 1 held_oram.stash
held_oram-OnStash = record {
  size = refl;
  fit = (
    ((λ full. absurd (cc)), ((λ full. absurd (cc)), refl)),
    (((λ full. absurd (cc)), ((λ full. absurd (cc)), refl)), refl),
  );
}

evict_once_fast-EvictedOnce_example :
    Returns (EvictedOnce held_oram 1) (evict_once_fast held_oram 1)
evict_once_fast-EvictedOnce_example =
    evict_once_fast-EvictedOnce held_oram 1 (omega arith) (omega arith) held_oram-OnStash

perform_deterministic_evictions-Evolved_example :
    (out : CircuitOram ℕ) × Evolved held_oram [] [] out
    × (perform_deterministic_evictions held_oram ≡ if_room out out)
perform_deterministic_evictions-Evolved_example =
    perform_deterministic_evictions-Evolved held_oram held_oram-IsCircuitOram

write_or_insert-Accessed_example :
    (removed : List (Block ℕ)) × (out : CircuitOram ℕ) × Accessed held_oram 7
      (block 0 7 43)
      removed
      out
    × (write_or_insert held_oram 1 0 7 43 ≡ if_room out (out, any_block removed))
write_or_insert-Accessed_example =
    write_or_insert-Accessed held_oram 1 0 7 43 held_oram-Callable (inl (omega arith))

read-Accessed_example :
    (removed : List (Block ℕ)) × (out : CircuitOram ℕ) × Accessed held_oram 7
      (block (if any_block removed then 0 else dummy_pos) 7 (value_or 5 removed))
      removed
      out
    × (read held_oram 1 0 7 5 ≡ if_room out (out, any_block removed, value_or 5 removed))
read-Accessed_example = read-Accessed held_oram 1 0 7 5 held_oram-Callable (inl (omega arith))

abbrev step_value : ℕ → ℕ × ℕ
step_value n = (n + 1, n)

update-Accessed_example :
    (removed : List (Block ℕ)) × (out : CircuitOram ℕ) × Accessed held_oram 7
      (block 0 7 (step_value (value_or 0 removed)).0)
      removed
      out
    × (update held_oram 1 0 7 step_value
        ≡ if_room out (out, any_block removed, (step_value (value_or 0 removed)).1))
update-Accessed_example =
    update-Accessed held_oram 1 0 7 step_value held_oram-Callable (omega arith)

new-Fresh_example : Returns (Fresh {V = ℕ} 5) (new 5)
new-Fresh_example = new-Fresh 5 (omega arith) (omega arith)

abbrev blocks : List (Block ℕ)
blocks = block 1 7 42 ∷ block dummy_pos 7 1 ∷ block 0 8 2 ∷ []

blocks_room : any_empty blocks ≡ true
unfolding any_empty
blocks_room = refl
