-- ===== src/Oram/Circuit/Evict.antt =====
-- crates/oram/src/circuit_oram.rs: `evict_once_fast` on the first level and the levels below.
use mathlib.Core.List
use mathlib.Core.List.Perm
use rostl.Base.{
  ℕ, ◌+◌, ◌≡◌, refl, not, List, ◌++◌, Perm, inl, inr, Bool-cases, ◌==◌, arith, length, eq→==, ne→==,
}
use rostl.Primitives.{Cmov}
use rostl.Primitives.Usize.{cmov_base}
use rostl.Oram.Circuit.Blocks.{Zeroable, Block, bucket_size, stash_size, default_block}
use rostl.Oram.Circuit.Passes.{scan_slots, take_deepest}
use rostl.Oram.Circuit.Filled.{one, filled, perm_past}
use rostl.Oram.Circuit.Slots.{scan_slots_lem, take_deepest_none}
use rostl.Oram.Circuit.Moves.{take_deepest-Taken}
use rostl.Oram.Circuit.Targets.{Source, Planned, Holds}
use rostl.Oram.Circuit.Levels.{LevelsFit, Evicted, sizes}
use rostl.Oram.Circuit.Below.{agrees}
use rostl.Oram.Circuit.{concat}
use rostl.Oram.Circuit.Ops.{evict_levels}

-- The eviction rearranges the blocks of all levels, and the levels below the first keep their
-- shape and the path's blocks.
pub record Rearranged {V : Type 0} (pos : ℕ) (first : List (Block V))
    (levels : List (List (Block V))) (first' : List (Block V)) (levels' : List (List (Block V)))
    : Type 0 where
  pub size : length first' ≡ length first
  pub level_sizes : sizes levels' ≡ sizes levels
  pub blocks :
      Perm (filled first' ++ filled (concat levels')) (filled first ++ filled (concat levels))
  pub fit : LevelsFit 1 pos levels'

module _ {V : Type 0} ⦃m : Cmov (Block V)⦄ ⦃z : Zeroable V⦄ (pos : ℕ) (first : List (Block V)) where
  abbrev found : ℕ × ℕ
  found = scan_slots pos 0 0 0 first

  abbrev src : ℕ
  src = cmov_base 0 1 (not (found.0 == 0))

  first-Source : Source 1 src found.0
  first-Source = elim (Bool-cases (found.0 == 0)) [
    | inl e ↦
        rw e (record { above = omega arith; no_level = λ z. ground arith; no_depth = λ z. refl })
    | inr e ↦ rw e (record {
      above = omega arith;
      no_level = λ z. absurd (omega (arith, z));
      no_depth = λ z. absurd (cc (e, eq→== found.0 0 z));
    })
  ]

  together :
      (levels out : List (List (Block V))) (hold : Block V) (first' : List (Block V))
      → length first' ≡ length first
      → Perm (one hold ++ filled first') (filled first)
      → Evicted 1 pos hold levels out
      → Rearranged pos first levels first' out
  together levels out hold first' size p e = record {
    size = size;
    level_sizes = e.size;
    blocks = Perm.trans (Perm.append_left (filled first') e.blocks) (
        Perm.trans (perm_past (filled first') (one hold) (filled (concat levels))) (
          rw (← List.append_assoc (one hold) (filled first') (filled (concat levels)))
            (Perm.append_right (filled (concat levels)) p)));
    fit = e.fit;
  }

  -- The first level's target is where the second pass leaves off.
  aimed : (s d : ℕ) → Planned 1 src found.0 s d → cmov_base 0 d (s == 1) ≡ d
  aimed s d (inl (z, e)) = rw (z, e) refl
  aimed s d (inr (es, nz, low, high)) =
      rw (eq→== s 1 (omega (arith, es, nz, first-Source.above))) refl

  first_taken :
      (s d : ℕ) (levels : List (List (Block V))) (move : Block V → List (List (Block V)))
      → Planned 1 src found.0 s d
      → ((hold : Block V) → Holds pos d hold → Evicted 1 pos hold levels (move hold))
      → let taken = take_deepest 0 found.1 d default_block first in
        Rearranged pos first levels taken.1 (move taken.0)
  first_taken s d levels move (inl (z, e)) evicted =
      let none_taken : take_deepest 0 found.1 d default_block first ≡ (default_block, first) =
        rw e (take_deepest_none 0 found.1 default_block first) in
      rw none_taken (
        together levels (move default_block) default_block first refl Perm.rfl
          (evicted default_block (inl (e, refl))))
  first_taken s d levels move (inr (es, nz, low, high)) evicted =
      elim (scan_slots_lem pos 0 0 0 first) [
        | inl (z, _) ↦ absurd (omega (arith, z, low, high))
        | inr f ↦
            let taken =
              take_deepest-Taken 0 found.1 d f.at default_block f.block first
                (ne→== d 0 (λ z. omega (arith, z, low))) f.inside f.index in
            rw taken.held (
              together levels (move f.block) f.block _ taken.size taken.blocks
                (evicted f.block (inr (omega (arith, low), f.full, omega (arith, high, f.depth)))))
      ]

  pub evict_levels-Rearranged :
      (levels : List (List (Block V)))
      → LevelsFit 1 pos levels
      → let out = evict_levels pos first levels in Rearranged pos first levels out.0 out.1
  unfolding evict_levels
  evict_levels-Rearranged levels fits =
      let start = stash_size + bucket_size in
      let (planned, evicted) = agrees pos 1 start src found.0 levels first-Source fits in
      rw (aimed _ _ planned) (first_taken _ _ levels (λ hold. _) planned evicted)
