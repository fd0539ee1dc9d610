-- ===== src/Base/Loop.antt =====
-- Code that may panic, counting loops over it, and their invariant rule.
use Prim.Native.Nat.{ℕ, zero, suc, ◌+◌, ◌≤◌, ◌<◌}
use mathlib.Core.Path.{◌≡◌, refl, subst}
use mathlib.Core.Option.{Option, none, some, some-injective}
use native.Mathlib.Omega.{arith}

-- `none` is a panic.
infixl 5 ◌>>=◌
abbrev pub ◌>>=◌ {ℓ κ} : {A : Type ℓ} {B : Type κ} → Option A → (A → Option B) → Option B
none >>= f = none
some a >>= f = f a

-- `for i in i..i + n { s = body(i, s) }`
unfoldable pub for_range {ℓ} : {S : Type ℓ} → ℕ → ℕ → (ℕ → S → Option S) → S → Option S
for_range zero i body s = some s
for_range (suc n) i body s = body i s >>= for_range n (suc i) body

-- The code returns, and its result satisfies `P`.
pub data Returns {ℓ κ} {A : Type ℓ} (P : A → Type κ) : Option A → Type (ℓ ⊔ κ) where
  returns : {a : A} → P a → Returns P (some a)

module _ {ℓ κ} {A : Type ℓ} {P : A → Type κ} where
  pub Returns-bind {ℓ' κ'} :
      {B : Type ℓ'} {Q : B → Type κ'} {r : Option A} {f : A → Option B}
      → Returns P r
      → ((a : A) → P a → Returns Q (f a))
      → Returns Q (r >>= f)
  Returns-bind (returns p) k = k _ p

  pub Returns-imp {κ'} :
      {Q : A → Type κ'} {r : Option A} → Returns P r → ((a : A) → P a → Q a) → Returns Q r
  Returns-imp (returns p) k = returns (k _ p)

  pub Returns-some : {r : Option A} → Returns P r → (a : A) × (r ≡ some a) × P a
  Returns-some (returns {a = a} p) = (a, refl, p)

  pub Returns-at : {r : Option A} {a : A} → Returns P r → r ≡ some a → P a
  Returns-at (returns p) e = subst P (some-injective _ _ e) p

-- A counting loop whose rounds keep the invariant returns and ends with it.
pub for_range-Returns {ℓ κ} :
    {S : Type ℓ} (P : ℕ → S → Type κ) (stop : ℕ) (body : ℕ → S → Option S) (n i : ℕ) (s : S)
    → i + n ≡ stop
    → ((k : ℕ) (t : S) → i ≤ k → k < stop → P k t → Returns (P (suc k)) (body k t))
    → P i s
    → Returns (P stop) (for_range n i body s)
unfolding for_range
for_range-Returns P stop body zero i s e keep p = returns (subst (λ k. P k s) (omega arith) p)
for_range-Returns P stop body (suc n) i s e keep p =
    Returns-bind (keep i s (omega arith) (omega arith) p) λ t.
      for_range-Returns P stop body n (suc i) t (omega arith) (λ k u lo. keep k u (omega arith))

-- If the code returns, its result satisfies `P`; a panic satisfies it too.
pub data WhenReturns {ℓ κ} {A : Type ℓ} (P : A → Type κ) : Option A → Type (ℓ ⊔ κ) where
  panics : WhenReturns P none
  gives : {a : A} → P a → WhenReturns P (some a)

module _ {ℓ κ} {A : Type ℓ} {P : A → Type κ} where
  pub WhenReturns-at : {r : Option A} {a : A} → WhenReturns P r → r ≡ some a → P a
  WhenReturns-at panics e = absurd (cc)
  WhenReturns-at (gives p) e = subst P (some-injective _ _ e) p

  -- The equation of a result that is given.
  pub WhenReturns-intro : {r : Option A} → ((a : A) → r ≡ some a → P a) → WhenReturns P r
  WhenReturns-intro {r = none} k = panics
  WhenReturns-intro {r = some a} k = gives (k a refl)

-- The code does what the specification says: both panic, or both return and the results are
-- related.
pub data Refines {ℓ κ μ} {A : Type ℓ} {B : Type κ} (R : A → B → Type μ)
    : Option A → Option B → Type (ℓ ⊔ κ ⊔ μ) where
  both_panic : Refines R none none
  both_return : {a : A} {b : B} → R a b → Refines R (some a) (some b)
