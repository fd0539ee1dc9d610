-- ===== src/Primitives.antt =====
-- crates/primitives/src/traits.rs: conditional moves and swaps.
pub mod CswapIndex
pub mod Usize
pub mod Powers
pub mod Zeros
pub mod OOption
pub mod Slices
use rostl.Base.{Bool, not, if◌then◌else◌, ◌≡◌, refl, true, false}

-- The trait `Cmov`. A method that writes through a reference returns the new value. The two laws
-- are the trait's documented contract, which every implementation proves.
pub record Cmov {ℓ} (A : Type ℓ) : Type ℓ where
  pub cmov : A → A → Bool → A
  pub cxchg : A → A → Bool → A × A
  pub cmov_lem :
      (self other : A) (choice : Bool) → cmov self other choice ≡ (if choice then other else self)
  pub cxchg_lem :
      (self other : A) (choice : Bool)
      → cxchg self other choice ≡ (if choice then (other, self) else (self, other))

module _ {ℓ} {A : Type ℓ} ⦃m : Cmov A⦄ where
  -- The default method `cset`.
  pub cset : A → A → A → Bool → A
  cset self val_false val_true choice = m.cmov (m.cmov self val_true choice) val_false (not choice)

  -- The free function `cswap`: both references' new values.
  unfoldable pub cswap : A → A → Bool → A × A
  cswap first second choice =
      let tmp = first in (m.cmov first second choice, m.cmov second tmp choice)

  -- `cset` forgets the old value and selects by the choice.
  pub cset_lem : (self f t : A) (choice : Bool) → cset self f t choice ≡ (if choice then t else f)
  unfolding cset
  cset_lem self f t true = rw (m.cmov_lem (m.cmov self t true) f false, m.cmov_lem self t true)
  cset_lem self f t false = rw (m.cmov_lem (m.cmov self t false) f true)

  -- `cswap` exchanges its arguments exactly when it is told to.
  pub cswap_lem : (a b : A) (choice : Bool) → cswap a b choice ≡ (if choice then (b, a) else (a, b))
  unfolding cswap
  cswap_lem a b true = rw (m.cmov_lem a b true, m.cmov_lem b a true)
  cswap_lem a b false = rw (m.cmov_lem a b false, m.cmov_lem b a false)
