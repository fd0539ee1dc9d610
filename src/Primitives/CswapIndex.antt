-- ===== src/Primitives/CswapIndex.antt =====
-- crates/primitives/src/traits.rs: the trait `CswapIndex`, on a slice or vector.
use mathlib.Core.List.Perm
use mathlib.Core.Option.{some-injective}
use rostl.Base.{
  ℕ, zero, suc, ◌<◌, ◌≡◌, refl, ap, ◌∙◌, Bool, true, false, Option, none, some, List, [], ◌∷◌, Perm,
  arith, ◌==◌, if◌then◌else◌, length, get_elem?, set, length-set, get_elem?-set, get_elem?-some,
  ◌>>=◌, Returns, returns, ne→==,
}
use rostl.Primitives
use rostl.Primitives.{Cmov, cswap_lem}

-- Where an index of the old slice comes from.
abbrev pub swapped : ℕ → ℕ → Bool → ℕ → ℕ
swapped i j choice k = if choice then (if k == i then j else if k == j then i else k) else k

module _ {A : Type 0} ⦃m : Cmov A⦄ where
  -- `assert!(i != j)` panics; the bounds that the source only assumes are a panic here too.
  unfoldable pub cswap : List A → ℕ → ℕ → Bool → Option (List A)
  cswap arr i j choice = if i == j then none else do
    left ← get_elem? arr i
    right ← get_elem? arr j
    let p = Primitives.cswap left right choice
    some (set (set arr i p.0) j p.1)

  -- The result of a swap: same length, and every entry from its place before.
  pub record Swapped (arr : List A) (i j : ℕ) (choice : Bool) (out : List A) : Type 0 where
    pub size : length out ≡ length arr
    pub entry : (k : ℕ) → get_elem? out k ≡ get_elem? arr (swapped i j choice k)
    pub perm : Perm out arr

  set_same : (a : List A) (i : ℕ) {x : A} → get_elem? a i ≡ some x → set a i x ≡ a
  set_same [] i e = refl
  set_same (y ∷ a) zero e = ground arith
  set_same (y ∷ a) (suc i) e = ap (◌∷◌ y) (set_same a i e)

  -- A write trades the old entry for the new one.
  set-perm :
      (a : List A) (i : ℕ) {x : A} (v : A) → get_elem? a i ≡ some x → Perm (x ∷ set a i v) (v ∷ a)
  set-perm [] i v e = absurd (cc)
  set-perm (y ∷ a) zero {x} v e = rw (← some-injective y x e) (Perm.swap v y a)
  set-perm (y ∷ a) (suc i) v e =
      let rest = Perm.cons y (set-perm a i v e) in
      Perm.trans (Perm.swap y _ _) (Perm.trans rest (Perm.swap v y a))

  set-set-Swapped :
      (arr : List A) (i j : ℕ) {x y : A}
      → i < j
      → j < length arr
      → get_elem? arr i ≡ some x
      → get_elem? arr j ≡ some y
      → Swapped arr i j true (set (set arr i y) j x)
  set-set-Swapped arr i j {x} {y} h hj ex ey =
      let at = get_elem?-set arr i j y (omega arith) in
      let kept : get_elem? (set arr i y) j ≡ some y = ground arith in
      record {
        size = length-set (set arr i y) j x ∙ length-set arr i y;
        entry = λ k.
            ground (
              arith,
              get_elem?-set (set arr i y) j k x,
              get_elem?-set arr i k y,
              length-set arr i y,
            );
        perm = Perm.cons_inv (Perm.trans (set-perm (set arr i y) j x kept) (set-perm arr i y ex));
      }

  unswapped-Swapped : (arr : List A) (i j : ℕ) → Swapped arr i j false arr
  unswapped-Swapped arr i j = record { size = refl; entry = λ k. refl; perm = Perm.rfl }

  -- For `i < j` within bounds a swap returns, and exchanges the two entries exactly when it is told to.
  pub cswap-Swapped :
      (arr : List A) (i j : ℕ) (choice : Bool)
      → i < j
      → j < length arr
      → Returns (Swapped arr i j choice) (cswap arr i j choice)
  unfolding cswap
  cswap-Swapped arr i j true h hj =
      let (x, ex) = get_elem?-some arr i (omega arith) in
      let (y, ey) = get_elem?-some arr j hj in
      rw (ne→== i j (omega arith), ex, ey, cswap_lem x y true)
        (returns (set-set-Swapped arr i j h hj ex ey))
  cswap-Swapped arr i j false h hj =
      let (x, ex) = get_elem?-some arr i (omega arith) in
      let (y, ey) = get_elem?-some arr j hj in
      rw
        (ne→== i j (omega arith), ex, ey, cswap_lem x y false, set_same arr i ex, set_same arr j ey)
        (returns (unswapped-Swapped arr i j))
