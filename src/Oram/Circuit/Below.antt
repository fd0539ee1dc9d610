-- ===== src/Oram/Circuit/Below.antt =====
-- crates/oram/src/circuit_oram.rs: the three passes of `evict_once_fast` together, below the first
-- level.
use mathlib.Core.List.Perm
use rostl.Base.{
  ℕ, suc, ◌+◌, ◌≡◌, refl, sym, true, false, List, [], ◌∷◌, ◌⊎◌, inl, inr, ◌==◌, arith, eq→==, ne→==,
}
use rostl.Primitives.{Cmov}
use rostl.Oram.Circuit.Blocks.{Block, bucket_size}
use rostl.Oram.Circuit.Passes.{any_empty, prepare_deepest, prepare_target, move_levels, place_last}
use rostl.Oram.Circuit.Filled.{one_empty}
use rostl.Oram.Circuit.Moves.{move_slots-Moved}
use rostl.Oram.Circuit.Held.{Placed, place_last_none, place_last-Placed}
use rostl.Oram.Circuit.Targets.{Source, Planned, Holds, target_step-Stepped}
use rostl.Oram.Circuit.Steps.{target_step_last}
use rostl.Oram.Circuit.Levels.{
  LevelsFit, Evicted, plan_of, src', dst', plan_of-Prepared, Source-next, Holds-fit, Evicted-cons,
  Evicted-last, Placed-empty,
}

module _ {V : Type 0} ⦃m : Cmov (Block V)⦄ (pos : ℕ) where
  -- The passes agree from level `i` on: the first pass's variables, the levels, and what the
  -- second pass then makes of them.
  abbrev pub Agrees : ℕ → ℕ → ℕ → ℕ → List (List (Block V)) → Type 0
  Agrees i idx src dst levels =
      let t = prepare_target i (prepare_deepest pos i idx src dst levels) in
      Planned i src dst t.0 t.1
      × ((hold : Block V)
          → Holds pos t.1 hold
          → Evicted i pos hold levels (move_levels i idx t.1 hold t.2))

  place_last_lem :
      (i d : ℕ) (hold : Block V) (slots : List (Block V))
      → (d ≡ 0) ⊎ ((d ≡ suc i) × (any_empty slots ≡ true))
      → Holds pos d hold
      → Placed hold slots (place_last (suc i == d) hold false slots)
  place_last_lem i d hold slots (inl z) holds =
      rw (ne→== (suc i) d (λ e. omega (arith, e, z)), place_last_none hold false slots)
        (Placed-empty i pos hold slots
          (elim holds [ inl (_, e) ↦ e | inr (nz, _, _) ↦ absurd (omega (arith, nz, z)) ]))
  place_last_lem i d hold slots (inr (e, some_empty)) holds =
      rw (eq→== (suc i) d (sym e)) (place_last-Placed hold slots some_empty)

  pub agrees :
      (i idx src dst : ℕ) (levels : List (List (Block V)))
      → Source i src dst
      → LevelsFit i pos levels
      → Agrees i idx src dst levels
  unfolding prepare_deepest prepare_target move_levels
  agrees i idx src dst [] source fits = (
    inl (refl, refl),
    λ hold holds. elim holds [
      | inl (_, e) ↦ record { size = refl; blocks = rw (one_empty hold e) Perm.rfl; fit = refl }
      | inr (nz, _, _) ↦ absurd (omega (arith, nz))
    ],
  )
  agrees i idx src dst (slots ∷ []) source fits =
      let plan = plan_of pos i idx src dst slots in
      let prepared = plan_of-Prepared pos i idx src dst slots in
      let st =
        target_step-Stepped pos i idx src dst plan (src' pos i idx src dst slots)
          (dst' pos i idx src dst slots) 0 0 source prepared (inl (refl, refl)) in
      (
        st.planned,
        λ hold holds.
            Evicted-last i pos hold slots _
              (place_last_lem i _ hold slots (target_step_last i plan refl) holds)
              (Holds-fit i pos _ _ src dst hold st.planned holds) fits.0,
      )
  agrees i idx src dst (slots ∷ (next ∷ levels)) source fits =
      let plan = plan_of pos i idx src dst slots in
      let prepared = plan_of-Prepared pos i idx src dst slots in
      let (planned, rest) =
        agrees (suc i) (idx + bucket_size) (src' pos i idx src dst slots)
          (dst' pos i idx src dst slots) (next ∷ levels)
          (Source-next pos i idx src dst slots source) fits.1 in
      let st =
        target_step-Stepped pos i idx src dst plan (src' pos i idx src dst slots)
          (dst' pos i idx src dst slots) _ _ source prepared planned in
      (
        st.planned,
        λ hold holds.
            let (aim, holds') = st.moved hold holds in
            rw aim (
              Evicted-cons i pos hold _ slots _ (next ∷ levels) _
                (move_slots-Moved idx plan.deepest_idx _ _ hold slots)
                (Holds-fit i pos _ _ src dst hold st.planned holds) fits.0 (rest _ holds')),
      )
