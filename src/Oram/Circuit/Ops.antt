-- ===== src/Oram/Circuit/Ops.antt =====
-- crates/oram/src/circuit_oram.rs: the eviction, and the operations that a client calls. `Cmov` of
-- a block is the byte-wise implementation, here an argument.
use rostl.Base.{
  ℕ, suc, ◌+◌, ◌-◌, ◌%◌, ◌^◌, Bool, not, ◌&&◌, ◌||◌, Option, none, some, List, [], ◌∷◌, ◌++◌, ◌==◌,
  leb, ltb, length, take, drop, if◌then◌else◌, ◌>>=◌, for_range,
}
use rostl.Primitives.{Cmov}
use rostl.Primitives.Usize.{cmov_base, checked_rem}
use rostl.Oram.Linear.{Default}
use rostl.Oram.Circuit.Blocks.{
  Zeroable, Block, default_block, dummy_pos, bucket_size, stash_size, read_and_remove_element,
  remove_element, write_block_to_empty_slot, with_pos,
}
use rostl.Oram.Circuit.Passes.{
  scan_slots, any_empty, prepare_deepest, prepare_target, take_deepest, move_levels,
}
use rostl.Oram.Circuit.{
  CircuitOram, with_stash, new, read_path_and_get_nodes, write_back_path, path_end, chunks, concat,
}

module _ {V : Type 0} ⦃mb : Cmov (Block V)⦄ ⦃z : Zeroable V⦄ where
  -- The three passes over the first level's blocks and those of the other levels.
  unfoldable pub evict_levels :
      ℕ → List (Block V) → List (List (Block V)) → List (Block V) × List (List (Block V))
  unfolding scan_slots prepare_deepest prepare_target take_deepest move_levels
  evict_levels pos first levels =
      let start = stash_size + bucket_size in
      let scan = scan_slots pos 0 0 0 first in
      let src = cmov_base 0 1 (not (scan.0 == 0)) in
      let targets = prepare_target 1 (prepare_deepest pos 1 start src scan.0 levels) in
      let target = cmov_base 0 targets.1 (targets.0 == 1) in
      let taken = take_deepest 0 scan.1 target default_block first in
      (taken.1, move_levels 1 start target taken.0 targets.2)

  -- The arrays have 64 entries, and the last level is a level below the first.
  unfoldable pub evict_once_fast : CircuitOram V → ℕ → Option (CircuitOram V)
  evict_once_fast self pos =
      if leb 2 self.h && (leb self.h 64 && leb (path_end self) (length self.stash))
      then (let start = stash_size + bucket_size in
          let out =
            evict_levels pos (take start self.stash)
              (chunks (self.h - 1) (drop start self.stash)) in
          some (with_stash self (out.0 ++ (concat out.1 ++ drop (path_end self) self.stash))))
      else none

  unfoldable pub perform_eviction : CircuitOram V → ℕ → Option (CircuitOram V)
  perform_eviction self pos =
      if ltb pos self.max_n
      then (do
        self ← read_path_and_get_nodes self pos
        self ← evict_once_fast self pos
        write_back_path self pos)
      else none

  -- A round of the loop below: positions have 32 bits.
  unfoldable pub eviction_round : CircuitOram V → Option (CircuitOram V)
  eviction_round self = do
    self ← perform_eviction self self.evict_counter
    next ←
        if ltb (self.evict_counter + 1) (2 ^ 32)
        then checked_rem (self.evict_counter + 1) (self.max_n % 2 ^ 32)
        else none
    some (record {
      max_n = self.max_n;
      h = self.h;
      stash = self.stash;
      tree = self.tree;
      evict_counter = next;
    })

  -- Two evictions per operation; then the stash must have an empty slot.
  unfoldable pub perform_deterministic_evictions : CircuitOram V → Option (CircuitOram V)
  perform_deterministic_evictions self = do
    self ← for_range 2 0 (λ i self. eviction_round self) self
    if leb stash_size (length self.stash) && any_empty (take stash_size self.stash)
        then some self
        else none

  -- What the four operations end with: the block goes to the stash, and the evictions run.
  unfoldable pub write_and_evict : CircuitOram V → ℕ → Block V → Option (CircuitOram V)
  write_and_evict self pos block = do
    let written = write_block_to_empty_slot (take stash_size self.stash) block
    self ← evict_once_fast (with_stash self (written.0 ++ drop stash_size self.stash)) pos
    self ← write_back_path self pos
    perform_deterministic_evictions self

  unfoldable pub write : CircuitOram V → ℕ → ℕ → ℕ → V → Option (CircuitOram V × Bool)
  write self pos new_pos key val =
      if ltb pos self.max_n && ltb new_pos self.max_n
      then (do
        self ← read_path_and_get_nodes self pos
        (stash, found) ← remove_element self.stash key
        let target_pos = cmov_base dummy_pos new_pos found
        self ←
            write_and_evict (with_stash self stash) pos
              (record { pos = target_pos; key = key; value = val })
        some (self, found))
      else none

  unfoldable pub write_or_insert : CircuitOram V → ℕ → ℕ → ℕ → V → Option (CircuitOram V × Bool)
  write_or_insert self pos new_pos key val =
      if ltb pos self.max_n && (ltb new_pos self.max_n || new_pos == dummy_pos)
      then (do
        self ← read_path_and_get_nodes self pos
        (stash, found) ← remove_element self.stash key
        self ←
            write_and_evict (with_stash self stash) pos
              (record { pos = new_pos; key = key; value = val })
        some (self, found))
      else none

  -- The loop of `new_with_positions_and_values` over the zipped slices, from entry `i` on.
  unfoldable pub insert_all : ℕ → List ℕ → List V → List ℕ → CircuitOram V → Option (CircuitOram V)
  insert_all i [] values positions oram = some oram
  insert_all i (key ∷ keys) [] positions oram = some oram
  insert_all i (key ∷ keys) (value ∷ values) [] oram = some oram
  insert_all i (key ∷ keys) (value ∷ values) (pos ∷ positions) oram = do
    out ← write_or_insert oram (i % 2 ^ 32) pos key value
    insert_all (suc i) keys values positions out.0

  unfoldable pub new_with_positions_and_values :
      ℕ → List ℕ → List V → List ℕ → Option (CircuitOram V)
  unfolding insert_all
  new_with_positions_and_values max_n keys values positions = do
    oram ← new max_n
    if length keys == length values && (length keys == length positions && leb (length keys) max_n)
        then insert_all 0 keys values positions oram
        else none

module _ {V : Type 0} ⦃m : Cmov V⦄ ⦃mb : Cmov (Block V)⦄ ⦃d : Default V⦄ ⦃z : Zeroable V⦄ where
  -- The structure, whether the key was found, and the new value of `ret`.
  unfoldable pub read : CircuitOram V → ℕ → ℕ → ℕ → V → Option (CircuitOram V × Bool × V)
  read self pos new_pos key ret =
      if ltb pos self.max_n && (ltb new_pos self.max_n || new_pos == dummy_pos)
      then (do
        self ← read_path_and_get_nodes self pos
        (stash, ret, found) ← read_and_remove_element self.stash key ret
        let to_write : Block V = record { pos = new_pos; key = key; value = ret }
        self ←
            write_and_evict (with_stash self stash) pos
              (with_pos to_write (cmov_base to_write.pos dummy_pos (not found)))
        some (self, found, ret))
      else none

  -- The closure gets the value and returns what it leaves there, and its result.
  unfoldable pub update :
      {T : Type 0} → CircuitOram V → ℕ → ℕ → ℕ → (V → V × T) → Option (CircuitOram V × Bool × T)
  update self pos new_pos key update_func =
      if ltb pos self.max_n && ltb new_pos self.max_n
      then (do
        self ← read_path_and_get_nodes self pos
        (stash, val, found) ← read_and_remove_element self.stash key d.default
        let updated = update_func val
        self ←
            write_and_evict (with_stash self stash) pos
              (record { pos = new_pos; key = key; value = updated.0 })
        some (self, found, updated.1))
      else none
