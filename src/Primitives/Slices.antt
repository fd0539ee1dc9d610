-- ===== src/Primitives/Slices.antt =====
-- crates/primitives/src/asm.rs: `Cmov` for slices. `none` is the panic on different lengths.
use rostl.Base.{
  Bool, true, false, Option, none, some, List, [], ◌∷◌, length, ◌==◌, if◌then◌else◌, ◌≡◌, refl, ap,
  ap₂, arith, Bool-cases, inl, inr, ==_iff,
}
use rostl.Primitives.{Cmov}

module _ {A : Type 0} ⦃m : Cmov A⦄ where
  -- The loops over the zipped slices, which stop with the shorter one.
  cmov_each : List A → List A → Bool → List A
  cmov_each [] other choice = []
  cmov_each (a ∷ self) [] choice = a ∷ self
  cmov_each (a ∷ self) (b ∷ other) choice = m.cmov a b choice ∷ cmov_each self other choice

  cxchg_each : List A → List A → Bool → List A × List A
  cxchg_each [] other choice = ([], other)
  cxchg_each (a ∷ self) [] choice = (a ∷ self, [])
  cxchg_each (a ∷ self) (b ∷ other) choice =
      let p = m.cxchg a b choice in
      let rest = cxchg_each self other choice in (p.0 ∷ rest.0, p.1 ∷ rest.1)

  -- `cmov` and `cxchg` of `[T]`.
  unfoldable pub slice_cmov : List A → List A → Bool → Option (List A)
  unfolding cmov_each
  slice_cmov self other choice =
      if length self == length other then some (cmov_each self other choice) else none

  unfoldable pub slice_cxchg : List A → List A → Bool → Option (List A × List A)
  unfolding cxchg_each
  slice_cxchg self other choice =
      if length self == length other then some (cxchg_each self other choice) else none

  cmov_each_lem :
      (self other : List A) (choice : Bool)
      → length self ≡ length other
      → cmov_each self other choice ≡ (if choice then other else self)
  unfolding cmov_each
  cmov_each_lem [] [] true e = refl
  cmov_each_lem [] [] false e = refl
  cmov_each_lem [] (b ∷ other) choice e = absurd (omega arith)
  cmov_each_lem (a ∷ self) [] choice e = absurd (omega arith)
  cmov_each_lem (a ∷ self) (b ∷ other) true e =
      ap₂ ◌∷◌ (m.cmov_lem a b true) (cmov_each_lem self other true (omega arith))
  cmov_each_lem (a ∷ self) (b ∷ other) false e =
      ap₂ ◌∷◌ (m.cmov_lem a b false) (cmov_each_lem self other false (omega arith))

  cxchg_each_lem :
      (self other : List A) (choice : Bool)
      → length self ≡ length other
      → cxchg_each self other choice ≡ (if choice then (other, self) else (self, other))
  unfolding cxchg_each
  cxchg_each_lem [] [] true e = refl
  cxchg_each_lem [] [] false e = refl
  cxchg_each_lem [] (b ∷ other) choice e = absurd (omega arith)
  cxchg_each_lem (a ∷ self) [] choice e = absurd (omega arith)
  cxchg_each_lem (a ∷ self) (b ∷ other) true e =
      rw (m.cxchg_lem a b true, cxchg_each_lem self other true (omega arith)) refl
  cxchg_each_lem (a ∷ self) (b ∷ other) false e =
      rw (m.cxchg_lem a b false, cxchg_each_lem self other false (omega arith)) refl

  -- Slices of the same length are moved and exchanged as a whole; others make both methods panic.
  pub slice_cmov_correct :
      (self other : List A) (choice : Bool)
      → (slice_cmov self other choice
          ≡ (if length self == length other then some (if choice then other else self) else none))
        × (slice_cxchg self other choice ≡ (
            if length self == length other
            then some (if choice then (other, self) else (self, other))
            else none))
  unfolding slice_cmov slice_cxchg
  slice_cmov_correct self other choice = elim (Bool-cases (length self == length other)) [
    | inr apart ↦ rw apart (refl, refl)
    | inl same ↦
        let e = (==_iff (length self) (length other)).0 same in
        rw same (
          ap some (cmov_each_lem self other choice e),
          ap some (cxchg_each_lem self other choice e),
        )
  ]
