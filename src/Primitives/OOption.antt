-- ===== src/Primitives/OOption.antt =====
-- crates/primitives/src/ooption.rs: an option with a flag, which moves without a branch. `none` is
-- a panic.
use rostl.Base.{
  not, ◌&&◌, ◌||◌, Bool, true, false, Bool-cases, inl, inr, Option, none, some, if◌then◌else◌, ◌≡◌,
  refl,
}
use rostl.Primitives.{Cmov}

pub record OOption (A : Type 0) : Type 0 where
  pub value : A
  pub is_some : Bool

-- `Cmov` for `bool`, in crates/primitives/src/asm.rs.
abbrev pub bool_cmov : Bool → Bool → Bool → Bool
bool_cmov self other choice = (self && not choice) || (other && choice)

bool_cmov_lem :
    (self other choice : Bool) → bool_cmov self other choice ≡ (if choice then other else self)
bool_cmov_lem true true true = refl
bool_cmov_lem true true false = refl
bool_cmov_lem true false true = refl
bool_cmov_lem true false false = refl
bool_cmov_lem false true true = refl
bool_cmov_lem false true false = refl
bool_cmov_lem false false true = refl
bool_cmov_lem false false false = refl

module _ {A : Type 0} ⦃m : Cmov A⦄ where
  -- `cmov` for the option, field by field.
  unfoldable pub cmov : OOption A → OOption A → Bool → OOption A
  cmov self other choice = record {
    value = m.cmov self.value other.value choice;
    is_some = bool_cmov self.is_some other.is_some choice;
  }

  -- Both options after the exchange.
  unfoldable pub cxchg : OOption A → OOption A → Bool → OOption A × OOption A
  cxchg self other choice =
      let tmp_value = self.value in
      let tmp_is_some = self.is_some in
      (
        record {
          value = m.cmov self.value other.value choice;
          is_some = bool_cmov self.is_some other.is_some choice;
        },
        record {
          value = m.cmov other.value tmp_value choice;
          is_some = bool_cmov other.is_some tmp_is_some choice;
        },
      )

  -- `zeroed` is the value of `T::zeroed()`.
  unfoldable pub unwrap : A → OOption A → Option A
  unwrap zeroed self = if self.is_some then some (m.cmov zeroed self.value self.is_some) else none

  unfoldable pub unwrap_or_default : A → OOption A → A
  unwrap_or_default default self = m.cmov default self.value self.is_some

  pub cmov_lem :
      (self other : OOption A) (choice : Bool)
      → cmov self other choice ≡ (if choice then other else self)
  unfolding cmov
  cmov_lem self other true =
      rw (m.cmov_lem self.value other.value true, bool_cmov_lem self.is_some other.is_some true)
        refl
  cmov_lem self other false =
      rw (m.cmov_lem self.value other.value false, bool_cmov_lem self.is_some other.is_some false)
        refl

  pub cxchg_lem :
      (self other : OOption A) (choice : Bool)
      → cxchg self other choice ≡ (if choice then (other, self) else (self, other))
  unfolding cxchg
  cxchg_lem self other true =
      rw
        (
          m.cmov_lem self.value other.value true,
          m.cmov_lem other.value self.value true,
          bool_cmov_lem self.is_some other.is_some true,
          bool_cmov_lem other.is_some self.is_some true,
        )
        refl
  cxchg_lem self other false =
      rw
        (
          m.cmov_lem self.value other.value false,
          m.cmov_lem other.value self.value false,
          bool_cmov_lem self.is_some other.is_some false,
          bool_cmov_lem other.is_some self.is_some false,
        )
        refl

  instance abbrev pub ooption_cmov : Cmov (OOption A)
  ooption_cmov = record { cmov = cmov; cxchg = cxchg; cmov_lem = cmov_lem; cxchg_lem = cxchg_lem }

  -- After a conditional move, `unwrap` and `unwrap_or_default` read the option that was chosen:
  -- its value if it has one, and else a panic and the default value.
  pub unwrap-cmov :
      (zeroed default : A) (self other : OOption A) (choice : Bool)
      → (unwrap zeroed (cmov self other choice) ≡ (
          if (if choice then other else self).is_some
          then some (if choice then other else self).value
          else none))
        × (unwrap_or_default default (cmov self other choice) ≡ (
            if (if choice then other else self).is_some
            then (if choice then other else self).value
            else default))
  unfolding unwrap unwrap_or_default
  unwrap-cmov zeroed default self other choice = rw (cmov_lem self other choice) (
    unwrap_lem (if choice then other else self),
    m.cmov_lem default (if choice then other else self).value
        (if choice then other else self).is_some,
  )
    where
      unwrap_lem :
          (o : OOption A)
          → (if o.is_some then some (m.cmov zeroed o.value o.is_some) else none)
            ≡ (if o.is_some then some o.value else none)
      unwrap_lem o = elim (Bool-cases o.is_some) [
        | inl e ↦ rw (e, m.cmov_lem zeroed o.value true) refl
        | inr e ↦ rw e refl
      ]
