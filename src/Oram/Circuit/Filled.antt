-- ===== src/Oram/Circuit/Filled.antt =====
-- crates/oram/src/circuit_oram.rs: the blocks of an array that are not empty, and what holds of
-- all its blocks.
use mathlib.Core.List
use mathlib.Core.List.{perm_middle}
use mathlib.Core.List.Perm
use rostl.Base.{
  ℕ, zero, ◌%◌, ◌^◌, ◌≡◌, refl, sym, true, false, List, [], ◌∷◌, ◌++◌, Perm, if◌then◌else◌,
}
use rostl.Oram.Circuit.Blocks.{Block, is_empty}

abbrev pub one : {V : Type 0} → Block V → List (Block V)
one b = if is_empty b then [] else b ∷ []

abbrev pub filled : {V : Type 0} → List (Block V) → List (Block V)
filled [] = []
filled (b ∷ slots) = one b ++ filled slots

abbrev pub All : {A : Type 0} → (A → Type 0) → List A → Type 0
All P [] = zero ≡ zero
All P (x ∷ xs) = P x × All P xs

module _ {A : Type 0} where
  pub perm_past : (a b c : List A) → Perm (a ++ (b ++ c)) (b ++ (a ++ c))
  perm_past [] b c = Perm.rfl
  perm_past (x ∷ a) b c =
      Perm.trans (Perm.cons x (perm_past a b c)) (Perm.symm (perm_middle b (a ++ c)))

  pub All-append : (P : A → Type 0) (a b : List A) → All P a → All P b → All P (a ++ b)
  All-append P [] b p q = q
  All-append P (x ∷ a) b p q = (p.0, All-append P a b p.1 q)

  pub All-take : (P : A → Type 0) (a b : List A) → All P (a ++ b) → All P a × All P b
  All-take P [] b p = (refl, p)
  All-take P (x ∷ a) b p = let (l, r) = All-take P a b p.1 in ((p.0, l), r)

module _ {V : Type 0} where
  pub filled-append : (a b : List (Block V)) → filled (a ++ b) ≡ filled a ++ filled b
  filled-append [] b = refl
  filled-append (x ∷ a) b =
      rw (filled-append a b) (sym (List.append_assoc (one x) (filled a) (filled b)))

  pub one_empty : (b : Block V) → is_empty b ≡ true → one b ≡ []
  one_empty b e = rw e refl

-- A block of the path's level may stay there: it is empty, or its position has the path's low bits.
abbrev pub Fits : {V : Type 0} → ℕ → ℕ → Block V → Type 0
Fits i pos b = is_empty b ≡ false → b.pos % 2 ^ i ≡ pos % 2 ^ i
