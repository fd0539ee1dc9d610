-- ===== src/Sort/Shuffle.antt =====
-- crates/sort/src/shuffle.rs: a shuffle that sorts by random tags. The generator is a parameter,
-- the function `rng` that gives the draw of each round; `none` is a panic.
pub mod Rearranges
use rostl.Base.{
  ℕ, zero, suc, Bool, Option, List, [], ◌∷◌, leb, length, get_elem?, store, ◌>>=◌, for_range, ◌≡◌,
  true, false, refl, if◌then◌else◌,
}
use rostl.Primitives.{Cmov}
use rostl.Primitives.Usize.{cmov_base}
use rostl.Sort.Bitonic.{Ord, bitonic_sort}

pub record Wrapper (A : Type 0) : Type 0 where
  pub value : A
  pub random_key : ℕ

module _ {A : Type 0} ⦃m : Cmov A⦄ where
  pub wrapper_cmov_of : Wrapper A → Wrapper A → Bool → Wrapper A
  wrapper_cmov_of self other cond = record {
    value = m.cmov self.value other.value cond;
    random_key = cmov_base self.random_key other.random_key cond;
  }

  pub wrapper_cxchg_of : Wrapper A → Wrapper A → Bool → Wrapper A × Wrapper A
  unfolding wrapper_cmov_of
  wrapper_cxchg_of self other cond =
      let c = self in (wrapper_cmov_of self other cond, wrapper_cmov_of other c cond)

  pub wrapper_cmov-lem :
      (self other : Wrapper A) (cond : Bool)
      → wrapper_cmov_of self other cond ≡ (if cond then other else self)
  unfolding wrapper_cmov_of
  wrapper_cmov-lem self other true = rw (m.cmov_lem self.value other.value true) refl
  wrapper_cmov-lem self other false = rw (m.cmov_lem self.value other.value false) refl

  pub wrapper_cxchg-lem :
      (self other : Wrapper A) (cond : Bool)
      → wrapper_cxchg_of self other cond ≡ (if cond then (other, self) else (self, other))
  unfolding wrapper_cxchg_of
  wrapper_cxchg-lem self other true =
      rw (m.cmov_lem self.value other.value true, m.cmov_lem other.value self.value true) refl
  wrapper_cxchg-lem self other false =
      rw (m.cmov_lem self.value other.value false, m.cmov_lem other.value self.value false) refl

  instance abbrev pub wrapper_cmov : Cmov (Wrapper A)
  wrapper_cmov = record {
    cmov = wrapper_cmov_of;
    cxchg = wrapper_cxchg_of;
    cmov_lem = wrapper_cmov-lem;
    cxchg_lem = wrapper_cxchg-lem;
  }

-- The tags alone are compared.
instance abbrev pub wrapper_ord : {A : Type 0} → Ord (Wrapper A)
wrapper_ord = record { le = λ a b. leb a.random_key b.random_key }

-- The loop of `wrap_data`, from round `i` on.
unfoldable pub wrap_from : {A : Type 0} → (ℕ → ℕ) → ℕ → List A → List (Wrapper A)
wrap_from rng i [] = []
wrap_from rng i (x ∷ arr) = record { value = x; random_key = rng i } ∷ wrap_from rng (suc i) arr

-- A round of the loop of `unwrap_data`.
unfoldable pub unwrap_round : {A : Type 0} → List (Wrapper A) → ℕ → List A → Option (List A)
unwrap_round wrapped i arr = do w ← get_elem? wrapped i; store arr i w.value

unfoldable pub unwrap_data : {A : Type 0} → List A → List (Wrapper A) → Option (List A)
unfolding unwrap_round
unwrap_data arr wrapped = for_range (length arr) 0 (unwrap_round wrapped) arr

unfoldable pub shuffle : {A : Type 0} ⦃m : Cmov A⦄ → (ℕ → ℕ) → List A → Option (List A)
unfolding wrap_from unwrap_data
shuffle rng arr = do wrapped ← bitonic_sort (wrap_from rng 0 arr); unwrap_data arr wrapped
