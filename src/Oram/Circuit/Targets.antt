-- ===== src/Oram/Circuit/Targets.antt =====
-- crates/oram/src/circuit_oram.rs: how the three passes of `evict_once_fast` agree at a level.
use rostl.Base.{
  ℕ, suc, ◌≤◌, ◌<◌, ◌≡◌, refl, sym, ◌∙◌, true, false, not, ◌&&◌, ◌||◌, ◌⊎◌, inl, inr, Bool-cases,
  ◌==◌, arith, eq→==, ne→==, ==_iff,
}
use rostl.Primitives.{Cmov}
use rostl.Primitives.Usize.{cmov_base}
use rostl.Oram.Circuit.Blocks.{Block, is_empty, common_suffix_length}
use rostl.Oram.Circuit.Passes.{Plan, with_target, any_empty, target_step, move_slots}
use rostl.Oram.Circuit.Slots.{Found}
use rostl.Oram.Circuit.Steps.{
  step_source_stop, step_source_go, step_free_stop, step_free_go, step_pass, both,
}
use rostl.Oram.Circuit.Held.{move_slots_still, move_slots_source, move_slots_empty}

-- The first pass's variables at level `i`: the level of the block that goes deepest, and how deep.
pub record Source (i src dst : ℕ) : Type 0 where
  pub above : src ≤ i
  pub no_level : src ≡ 0 → dst ≡ 0
  pub no_depth : dst ≡ 0 → src ≡ 0

-- The second pass's variables at level `i`: no move, or one from `src` to `i` or below.
abbrev pub Planned : ℕ → ℕ → ℕ → ℕ → ℕ → Type 0
Planned i src dst s d = ((s ≡ 0) × (d ≡ 0)) ⊎ ((s ≡ src) × (0 < src) × (suc i ≤ d) × (d ≤ dst))

-- What is held on the way to level `d`: nothing, or a block that may go as deep.
abbrev pub Holds : {V : Type 0} → ℕ → ℕ → Block V → Type 0
Holds pos d b =
    ((d ≡ 0) × (is_empty b ≡ true))
    ⊎ ((0 < d) × (is_empty b ≡ false) × (d ≤ suc (common_suffix_length b.pos pos)))

-- A level's record after the first pass, and the pass's variables before and after the level.
pub record Prepared {V : Type 0} (pos i idx src dst src' dst' : ℕ) (plan : Plan V) : Type 0 where
  pub target : plan.target ≡ 0
  pub empty : plan.has_empty ≡ any_empty plan.slots
  pub reached : (plan.deepest ≡ 0) ⊎ ((plan.deepest ≡ src) × (suc i ≤ dst))
  pub found :
      ((src' ≡ src) × (dst' ≡ dst))
      ⊎ ((src' ≡ suc i) × Found pos idx dst' plan.deepest_idx plan.slots)

-- What the second and the third pass do at a level, when `d` is the target below it.
pub record Stepped {V : Type 0} ⦃m : Cmov (Block V)⦄ (pos i idx src dst d : ℕ) (plan : Plan V)
    (step : ℕ × ℕ × Plan V) : Type 0 where
  pub planned : Planned i src dst step.0 step.1
  pub moved :
      (hold : Block V)
      → Holds pos step.1 hold
      → let has_target = not (step.2.target == 0) in
        let place_dummy = suc i == step.1 && not has_target in
        (cmov_base step.1 step.2.target (has_target || place_dummy) ≡ d)
        × Holds pos d (move_slots idx plan.deepest_idx has_target place_dummy hold plan.slots).0

module _ {V : Type 0} ⦃m : Cmov (Block V)⦄ (pos i idx src dst : ℕ) (plan : Plan V) where
  Holds-source :
      (dst' d : ℕ) (hold : Block V)
      → Found pos idx dst' plan.deepest_idx plan.slots
      → (d == 0) ≡ false
      → d ≤ dst'
      → Holds pos d (move_slots idx plan.deepest_idx true false hold plan.slots).0
  Holds-source dst' d hold f nz le =
      rw (move_slots_source idx plan.deepest_idx f.at hold f.block plan.slots f.inside f.index) (
        inr (
          elim (d == 0) as (λ k. (d == 0) ≡ k → 0 < d) [
            | false ↦ λ e. ground arith
            | true ↦ λ e. absurd (cc)
          ]
              refl,
          f.full,
          omega (arith, f.depth),
        ))

  -- The level gives its deepest block away; `s2` and `d2` say whether it also takes one.
  Stepped-source :
      (dst' s2 d2 d : ℕ)
      → Found pos idx dst' plan.deepest_idx plan.slots
      → (d == 0) ≡ false
      → d ≤ dst'
      → Planned i src dst s2 d2
      → Stepped pos i idx src dst d plan (s2, d2, with_target plan d)
  Stepped-source dst' s2 d2 d found nz le planned = record {
    planned = planned;
    moved = λ hold holds. elim (Bool-cases (suc i == d2)) [
      | inl e ↦ rw (nz, e) (refl, Holds-source dst' d hold found nz le)
      | inr e ↦ rw (nz, e) (refl, Holds-source dst' d hold found nz le)
    ];
  }

  -- The level takes a block and gives none.
  Stepped-take :
      (s2 : ℕ)
      → any_empty plan.slots ≡ true
      → Planned i src dst s2 (suc i)
      → Stepped pos i idx src dst 0 plan (s2, suc i, with_target plan 0)
  Stepped-take s2 e planned = record {
    planned = planned;
    moved = λ hold holds.
        rw (eq→== (suc i) (suc i) refl)
          (refl, inl (refl, move_slots_empty idx plan.deepest_idx hold plan.slots (inr e)));
  }

  -- The level is passed by.
  Stepped-still :
      (s d : ℕ)
      → ¬ (suc i ≡ d)
      → Planned i src dst s d
      → Stepped pos i idx src dst d plan (s, d, with_target plan 0)
  Stepped-still s d ne planned = record {
    planned = planned;
    moved = λ hold holds.
        rw (ne→== (suc i) d ne, move_slots_still idx plan.deepest_idx hold plan.slots)
          (refl, holds);
  }

  -- A level that a block is aimed at, and that has a source above.
  Planned-here :
      (src' dst' : ℕ)
      → Prepared pos i idx src dst src' dst' plan
      → (plan.deepest == 0) ≡ false
      → Planned i src dst plan.deepest (suc i)
  Planned-here src' dst' p e =
      let nz : ¬ (plan.deepest ≡ 0) = λ z. absurd (cc (e, eq→== plan.deepest 0 z)) in
      elim p.reached [
        | inl z ↦ absurd (nz z)
        | inr (same, le) ↦ inr (same, ground (arith, same, nz), omega arith, le)
      ]

  pub target_step-Stepped :
      (src' dst' s d : ℕ)
      → Source i src dst
      → Prepared pos i idx src dst src' dst' plan
      → Planned (suc i) src' dst' s d
      → Stepped pos i idx src dst d plan (target_step i s d plan)
  target_step-Stepped src' dst' s d source p (inl (es, ed)) =
      elim (Bool-cases (plan.has_empty && not (plan.deepest == 0))) [
        | inr e ↦
            rw (step_free_stop i s d plan es ed p.target e, ed)
              (Stepped-still 0 0 (λ e. omega (arith, e)) (inl (refl, refl)))
        | inl e ↦
            let (he, nz) = both plan.has_empty (plan.deepest == 0) e in
            rw (step_free_go i s d plan es ed p.target he nz, ed)
              (Stepped-take plan.deepest (sym p.empty ∙ he) (Planned-here src' dst' p nz))
      ]
  target_step-Stepped src' dst' s d source p (inr (es, pos_src, low, high)) =
      let nz : (d == 0) ≡ false = ne→== d 0 (λ e. omega (arith, e, low)) in
      elim (Bool-cases (s == suc i)) [
        | inl e ↦
            let here = (==_iff s (suc i)).0 e in
            elim p.found [
              | inl (same, _) ↦ absurd (omega (arith, source.above, here, same, es))
              | inr (_, found) ↦ elim (Bool-cases (plan.deepest == 0)) [
                | inl z ↦
                    rw (step_source_stop i s d plan here nz z)
                      (Stepped-source dst' 0 0 d found nz high (inl (refl, refl)))
                | inr z ↦ rw (step_source_go i s d plan here nz z) (
                    Stepped-source dst' plan.deepest (suc i) d found nz high
                      (Planned-here src' dst' p z))
              ]
            ]
        | inr e ↦ elim p.found [
          | inr (deeper, _) ↦ absurd (cc (e, eq→== s (suc i) (es ∙ deeper)))
          | inl (same, same_depth) ↦ rw (step_pass i s d plan e nz p.target) (
              Stepped-still s d (λ h. omega (arith, h, low))
                (inr (
                  es ∙ same,
                  omega (arith, pos_src, same),
                  omega (arith, low),
                  omega (arith, high, same_depth),
                )))
        ]
      ]
