-- ===== src/Oram/Circuit/Steps.antt =====
-- crates/oram/src/circuit_oram.rs: the rounds of the second pass of `evict_once_fast`.
use rostl.Base.{
  ℕ, suc, ◌≡◌, refl, ap, Bool, true, false, not, ◌&&◌, ◌⊎◌, inl, inr, Bool-cases, ◌==◌, arith,
  eq→==, ne→==,
}
use rostl.Oram.Circuit.Passes.{Plan, with_target, target_step}

module _ {V : Type 0} (i s d : ℕ) (plan : Plan V) where
  pub step_source_stop :
      s ≡ suc i
      → (d == 0) ≡ false
      → (plan.deepest == 0) ≡ true
      → target_step i s d plan ≡ (0, 0, with_target plan d)
  unfolding target_step
  step_source_stop e f g = elim (Bool-cases plan.has_empty) [
    | inl h ↦ rw (eq→== s (suc i) e, f, g, h) refl
    | inr h ↦ rw (eq→== s (suc i) e, f, g, h) refl
  ]

  pub step_source_go :
      s ≡ suc i
      → (d == 0) ≡ false
      → (plan.deepest == 0) ≡ false
      → target_step i s d plan ≡ (plan.deepest, suc i, with_target plan d)
  unfolding target_step
  step_source_go e f g = elim (Bool-cases plan.has_empty) [
    | inl h ↦ rw (eq→== s (suc i) e, f, g, h) refl
    | inr h ↦ rw (eq→== s (suc i) e, f, g, h) refl
  ]

  pub step_free_stop :
      s ≡ 0
      → d ≡ 0
      → plan.target ≡ 0
      → (plan.has_empty && not (plan.deepest == 0)) ≡ false
      → target_step i s d plan ≡ (0, 0, with_target plan 0)
  unfolding target_step
  step_free_stop e f t g = elim (Bool-cases plan.has_empty) [
    | inl h ↦ elim (Bool-cases (plan.deepest == 0)) [
      | inl k ↦ rw (e, f, t, h, k) (rw (ne→== 0 (suc i) (omega arith)) refl)
      | inr k ↦ absurd (cc (rw (h, k) at g))
    ]
    | inr h ↦ rw (e, f, t, h) (rw (ne→== 0 (suc i) (omega arith)) refl)
  ]

  pub step_free_go :
      s ≡ 0
      → d ≡ 0
      → plan.target ≡ 0
      → plan.has_empty ≡ true
      → (plan.deepest == 0) ≡ false
      → target_step i s d plan ≡ (plan.deepest, suc i, with_target plan 0)
  unfolding target_step
  step_free_go e f t h k = rw (e, f, t, h, k) (rw (ne→== 0 (suc i) (omega arith)) refl)

  pub step_pass :
      (s == suc i) ≡ false
      → (d == 0) ≡ false
      → plan.target ≡ 0
      → target_step i s d plan ≡ (s, d, with_target plan 0)
  unfolding target_step
  step_pass e f t = rw (e, f, t) refl

pub both : (a b : Bool) → (a && not b) ≡ true → (a ≡ true) × (b ≡ false)
both true true e = absurd (cc)
both true false e = (refl, refl)
both false b e = absurd (cc)

-- No move comes from below the last level: it takes a block only where it has an empty slot.
pub target_step_last :
    {V : Type 0} (i : ℕ) (plan : Plan V)
    → plan.target ≡ 0
    → let step = target_step i 0 0 plan in
      (step.1 ≡ 0) ⊎ ((step.1 ≡ suc i) × (plan.has_empty ≡ true))
target_step_last i plan t = elim (Bool-cases (plan.has_empty && not (plan.deepest == 0))) [
  | inr e ↦ inl (ap (λ step. step.1) (step_free_stop i 0 0 plan refl refl t e))
  | inl e ↦
      let (he, nz) = both plan.has_empty (plan.deepest == 0) e in
      inr (ap (λ step. step.1) (step_free_go i 0 0 plan refl refl t he nz), he)
]
