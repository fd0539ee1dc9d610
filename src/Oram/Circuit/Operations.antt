-- ===== src/Oram/Circuit/Operations.antt =====
-- crates/oram/src/circuit_oram.rs: what the operations end with: the write of a block to the stash
-- and the evictions.
use mathlib.Core.List
use mathlib.Core.List.Perm
use rostl.Base.{
  ℕ, ◌<◌, ◌≡◌, refl, ap, ◌∙◌, true, List, [], ◌++◌, arith, length, Perm, take, drop, length-take,
  if◌then◌else◌, Returns-imp, Returns-some, Option, some, none, ◌>>=◌, for_range-Returns, le→leb,
}
use rostl.Primitives.{Cmov}
use rostl.Oram.Circuit.Blocks.{Zeroable, Block, stash_size, write_block_to_empty_slot}
use rostl.Oram.Circuit.{Bucket, CircuitOram, with_stash, concat, write_back_path}
use rostl.Oram.Circuit.Filled.{one, filled, filled-append, perm_past}
use rostl.Oram.Circuit.Passes.{any_empty}
use rostl.Oram.Circuit.Paths.{ReadPath}
use rostl.Oram.Circuit.Elements.{write_block_to_empty_slot-Placed}
use rostl.Oram.Circuit.Stash.{OnStash, front-OnStash, front-filled}
use rostl.Oram.Circuit.State.{IsCircuitOram}
use rostl.Oram.Circuit.Evolve.{Evolved, evict_and_write_back-Evolved, eviction_round-Evolved}
use rostl.Oram.Circuit.Ops.{
  evict_once_fast, eviction_round, perform_deterministic_evictions, write_and_evict,
}

-- The code returns the new state if its stash has an empty slot, and panics if not.
abbrev pub if_room : {V B : Type 0} → CircuitOram V → B → Option B
if_room out result = if any_empty (take stash_size out.stash) then some result else none

bind_through :
    {A B C : Type 0} (o : Option A) (f : A → Option B) (g : B → Option C) {b : B}
    → (o >>= f) ≡ some b
    → (o >>= λ a. f a >>= g) ≡ g b
bind_through none f g e = absurd (cc)
bind_through (some a) f g e = ap (λ r. r >>= g) e

module _ {V : Type 0} where
  pub Evolved-refl : (self : CircuitOram V) → IsCircuitOram self → Evolved self [] [] self
  Evolved-refl self t = record { state = t; max_n = refl; h = refl; blocks = Perm.rfl }

  pub Evolved-trans :
      {removed added : List (Block V)} (self mid out : CircuitOram V)
      → Evolved self removed added mid
      → Evolved mid [] [] out
      → Evolved self removed added out
  Evolved-trans {removed} self mid out e f = record {
    state = f.state;
    max_n = f.max_n ∙ e.max_n;
    h = f.h ∙ e.h;
    blocks = Perm.trans (Perm.append_left removed f.blocks) e.blocks;
  }

module _ {V : Type 0} ⦃m : Cmov (Block V)⦄ ⦃z : Zeroable V⦄ where
  -- The deterministic evictions of a well-formed state compute a well-formed state with the same
  -- blocks, and panic exactly when that state has no empty slot in the stash.
  pub perform_deterministic_evictions-Evolved :
      (self : CircuitOram V)
      → IsCircuitOram self
      → (out : CircuitOram V) × Evolved self [] [] out
        × (perform_deterministic_evictions self ≡ if_room out out)
  unfolding perform_deterministic_evictions
  perform_deterministic_evictions-Evolved self t =
      let rounds =
        for_range-Returns (λ k s. Evolved self [] [] s) 2 (λ i s. eviction_round s) 2 0 self
          (omega arith)
          (λ k s lo hi e.
            Returns-imp (eviction_round-Evolved s e.state) (λ out f. Evolved-trans self s out e f))
          (Evolved-refl self t) in
      let (out, e, done) = Returns-some rounds in
      (
        out,
        done,
        rw (e, le→leb stash_size (length out.stash) (omega (arith, done.state.stash))) refl,
      )

  -- With an empty slot in the stash the block is written, and the evictions run.
  pub write_and_evict-Evolved :
      (self : CircuitOram V) (pos : ℕ) (old : List (Bucket V)) (stash removed : List (Block V))
      (block : Block V)
      → IsCircuitOram self
      → pos < self.max_n
      → ReadPath self.tree pos 0 self.tree.height old
      → OnStash self.h pos stash
      → any_empty (take stash_size stash) ≡ true
      → Perm (removed ++ filled stash) (filled (take stash_size self.stash) ++ filled (concat old))
      → (out : CircuitOram V) × Evolved self removed (one block) out
        × (write_and_evict (with_stash self stash) pos block ≡ if_room out out)
  unfolding write_and_evict
  write_and_evict-Evolved self pos old stash removed block t h r on room p =
      let front = take stash_size stash in
      let placed = (write_block_to_empty_slot-Placed front block room).1 in
      let front' = (write_block_to_empty_slot front block).0 in
      let stash' = front' ++ drop stash_size stash in
      let size = placed.size ∙ length-take stash_size stash (omega (arith, on.size)) in
      let blocks : Perm (filled stash') (one block ++ filled stash) =
        rw
          (
            filled-append front' (drop stash_size stash),
            front-filled stash stash_size,
            ← List.append_assoc (one block) (filled front) (filled (drop stash_size stash)),
          )
          (Perm.append_right (filled (drop stash_size stash)) placed.blocks) in
      let changed = Perm.trans (Perm.append_left removed blocks) (
        Perm.trans (perm_past removed (one block) (filled stash))
          (Perm.append_left (one block) p)) in
      let (mid, e, done) = Returns-some (
        evict_and_write_back-Evolved self pos old stash' removed (one block) t h r
          (front-OnStash self.h pos front' stash size on) changed) in
      let (out, f, last) = perform_deterministic_evictions-Evolved mid done.state in
      (
        out,
        Evolved-trans self mid out done f,
        bind_through (evict_once_fast (with_stash self stash') pos) (λ s. write_back_path s pos)
              perform_deterministic_evictions e
            ∙ last,
      )
