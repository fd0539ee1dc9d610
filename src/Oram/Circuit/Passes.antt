-- ===== src/Oram/Circuit/Passes.antt =====
-- crates/oram/src/circuit_oram.rs: the three passes of `evict_once_fast` (algorithms 2 to 4 of the
-- Circuit ORAM paper). The arrays indexed by the level are one list of records, one for each
-- level below the first. A level or an index that may be -1 is held one higher: 0 is -1, and
-- `suc k` is `k`.
use rostl.Base.{ℕ, suc, ◌+◌, Bool, false, not, ◌&&◌, ◌||◌, List, [], ◌∷◌, ◌==◌, leb, ltb}
use rostl.Primitives.{Cmov}
use rostl.Primitives.Usize.{cmov_base}
use rostl.Oram.Circuit.Blocks.{
  Block, is_empty, with_pos, dummy_pos, bucket_size, common_suffix_length,
}

-- A level's blocks on the path, and its entries of the arrays.
pub record Plan (V : Type 0) : Type 0 where
  pub slots : List (Block V)
  pub deepest : ℕ
  pub deepest_idx : ℕ
  pub has_empty : Bool
  pub target : ℕ

abbrev pub with_target : {V : Type 0} → Plan V → ℕ → Plan V
with_target self target = record {
  slots = self.slots;
  deepest = self.deepest;
  deepest_idx = self.deepest_idx;
  has_empty = self.has_empty;
  target = target;
}

module _ {V : Type 0} where
  -- The loop over a level's slots, from index `idx` on: the deepest level that one of its blocks
  -- can move to, and the index of that block.
  unfoldable pub scan_slots : ℕ → ℕ → ℕ → ℕ → List (Block V) → ℕ × ℕ
  scan_slots pos idx dst best [] = (dst, best)
  scan_slots pos idx dst best (b ∷ slots) =
      let deepest_level = suc (common_suffix_length b.pos pos) in
      let deeper_flag = not (is_empty b) && ltb dst deepest_level in
      scan_slots pos (suc idx) (cmov_base dst deepest_level deeper_flag)
        (cmov_base best idx deeper_flag) slots

  -- `has_empty` of a level.
  unfoldable pub any_empty : List (Block V) → Bool
  any_empty [] = false
  any_empty (b ∷ slots) = is_empty b || any_empty slots

  -- The first pass (PrepareDeepest), from level `i` on.
  unfoldable pub prepare_deepest : ℕ → ℕ → ℕ → ℕ → ℕ → List (List (Block V)) → List (Plan V)
  unfolding scan_slots any_empty
  prepare_deepest pos i idx src dst [] = []
  prepare_deepest pos i idx src dst (slots ∷ levels) =
      let scan = scan_slots pos idx 0 0 slots in
      let deeper_flag = ltb dst scan.0 in
      let plan : Plan V = record {
        slots = slots;
        deepest = cmov_base 0 src (leb (suc i) dst);
        deepest_idx = scan.1;
        has_empty = any_empty slots;
        target = 0;
      } in
      plan
      ∷ prepare_deepest pos (suc i) (idx + bucket_size) (cmov_base src (suc i) deeper_flag)
          (cmov_base dst scan.0 deeper_flag) levels

  -- A round of the second pass at level `i`.
  unfoldable pub target_step : ℕ → ℕ → ℕ → Plan V → ℕ × ℕ × Plan V
  target_step i src dst plan =
      let is_src = src == suc i in
      let target = cmov_base plan.target dst is_src in
      let src' = cmov_base src 0 is_src in
      let dst' = cmov_base dst 0 is_src in
      let change_flag =
        (dst' == 0 && plan.has_empty || not (target == 0)) && not (plan.deepest == 0) in
      (
        cmov_base src' plan.deepest change_flag,
        cmov_base dst' (suc i) change_flag,
        with_target plan target,
      )

  -- The second pass (PrepareTarget), from the last level up to level `i`: `src`, `dst` and the
  -- levels with their targets.
  unfoldable pub prepare_target : ℕ → List (Plan V) → ℕ × ℕ × List (Plan V)
  unfolding target_step
  prepare_target i [] = (0, 0, [])
  prepare_target i (plan ∷ plans) =
      let below = prepare_target (suc i) plans in
      let step = target_step i below.0 below.1 plan in (step.0, step.1, step.2 ∷ below.2)

module _ {V : Type 0} ⦃m : Cmov (Block V)⦄ where
  -- The third pass at the first level: the new `hold` and the slots.
  unfoldable pub take_deepest : ℕ → ℕ → ℕ → Block V → List (Block V) → Block V × List (Block V)
  take_deepest idx deepest_idx target hold [] = (hold, [])
  take_deepest idx deepest_idx target hold (b ∷ slots) =
      let read_and_remove_flag = deepest_idx == idx && not (target == 0) in
      let rest =
        take_deepest (suc idx) deepest_idx target (m.cmov hold b read_and_remove_flag) slots in
      (rest.0, with_pos b (cmov_base b.pos dummy_pos read_and_remove_flag) ∷ rest.1)

  -- The third pass at a level between the first and the last.
  unfoldable pub move_slots :
      ℕ → ℕ → Bool → Bool → Block V → List (Block V) → Block V × List (Block V)
  move_slots idx deepest_idx has_target place_dummy hold [] = (hold, [])
  move_slots idx deepest_idx has_target place_dummy hold (b ∷ slots) =
      let read_and_remove_flag = deepest_idx == idx && has_target in
      let write_flag = is_empty b && place_dummy in
      let swapped = m.cxchg hold b (read_and_remove_flag || write_flag) in
      let rest = move_slots (suc idx) deepest_idx has_target place_dummy swapped.0 slots in
      (rest.0, swapped.1 ∷ rest.1)

  -- The third pass at the last level.
  unfoldable pub place_last : Bool → Block V → Bool → List (Block V) → List (Block V)
  place_last place_dummy hold written [] = []
  place_last place_dummy hold written (b ∷ slots) =
      let write_flag = is_empty b && place_dummy && not written in
      m.cmov b hold write_flag ∷ place_last place_dummy hold (written || write_flag) slots

  -- The third pass below the first level, from level `i` on.
  unfoldable pub move_levels : ℕ → ℕ → ℕ → Block V → List (Plan V) → List (List (Block V))
  unfolding move_slots place_last
  move_levels i idx dst hold [] = []
  move_levels i idx dst hold (plan ∷ []) = place_last (suc i == dst) hold false plan.slots ∷ []
  move_levels i idx dst hold (plan ∷ (next ∷ plans)) =
      let has_target = not (plan.target == 0) in
      let place_dummy = suc i == dst && not has_target in
      let moved = move_slots idx plan.deepest_idx has_target place_dummy hold plan.slots in
      moved.1
      ∷ move_levels (suc i) (idx + bucket_size)
          (cmov_base dst plan.target (has_target || place_dummy)) moved.0 (next ∷ plans)
