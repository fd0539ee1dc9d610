-- ===== src/Structures/Heap/Least.antt =====
-- crates/datastructures/src/heap.rs: the loops that look for the least element.
use rostl.Base.{
  ℕ, zero, suc, ◌≤◌, ◌<◌, ◌≡◌, refl, sym, ap, ◌∙◌, arith, true, false, Bool-cases, inl, inr, ◌⊎◌,
  List, [], ◌∷◌, ◌++◌, subst, if◌then◌else◌, get_elem?, some, ltb→lt, ltb→le,
}
use rostl.Primitives.{Cmov}
use rostl.Primitives.Usize.{usize_max}
use rostl.Oram.Circuit.Blocks.{Block, is_empty}
use rostl.Oram.Circuit.Filled.{All, All-append, one, filled}
use rostl.Oram.Circuit.{Bucket, concat}
use mathlib.Core.Option.{some-injective}
use rostl.Structures.Heap.{HeapElement, should_mov, least_of}

-- The list has the element.
abbrev pub In : {A : Type 0} → A → List A → Type 0
In x xs = (k : ℕ) × (get_elem? xs k ≡ some x)

-- The key of a full block; an empty one counts as the largest key, whatever key it has.
abbrev pub rank : {V : Type 0} → Block (HeapElement V) → ℕ
rank b = if is_empty b then usize_max else b.value.key

-- A key is not above those of the full blocks.
abbrev pub Below : {V : Type 0} → ℕ → List (Block (HeapElement V)) → Type 0
Below key = All (λ b. is_empty b ≡ false → key ≤ b.value.key)

-- What the loop finds from `least` on.
pub record LeastOf {V : Type 0} (least : Block (HeapElement V))
    (elems : List (Block (HeapElement V))) (out : Block (HeapElement V)) : Type 0 where
  pub below_first : out.value.key ≤ least.value.key
  pub below : Below out.value.key elems
  pub source : (out ≡ least) ⊎ ((is_empty out ≡ false) × In out elems)

module _ {V : Type 0} where
  pub rank-empty : (b : Block (HeapElement V)) → is_empty b ≡ true → rank b ≡ usize_max
  rank-empty b e = rw e refl

  pub rank-full : (b : Block (HeapElement V)) → is_empty b ≡ false → rank b ≡ b.value.key
  rank-full b e = rw e refl

  -- What the loop finds has its rank as its key, if what it starts from has.
  pub LeastOf-exact :
      (least : Block (HeapElement V)) (elems : List (Block (HeapElement V)))
      (out : Block (HeapElement V))
      → LeastOf least elems out
      → least.value.key ≡ rank least
      → out.value.key ≡ rank out
  LeastOf-exact least elems out l e = elim l.source [
    | inl same ↦ subst (λ b. b.value.key ≡ rank b) (sym same) e
    | inr (full, held) ↦ sym (rank-full out full)
  ]

  pub moved_full :
      (elem least : Block (HeapElement V))
      → should_mov elem least ≡ true
      → (is_empty elem ≡ false) × (elem.value.key < least.value.key)
  moved_full elem least e = elim (Bool-cases (is_empty elem)) [
    | inl g ↦ absurd (cc (rw g at e))
    | inr g ↦ (g, ltb→lt elem.value.key least.value.key (rw g at e))
  ]

  pub not_moved :
      (elem least : Block (HeapElement V))
      → should_mov elem least ≡ false
      → is_empty elem ≡ false
      → least.value.key ≤ elem.value.key
  not_moved elem least e full = ltb→le elem.value.key least.value.key (rw full at e)

  pub Below-le :
      (k n : ℕ) (elems : List (Block (HeapElement V))) → n ≤ k → Below k elems → Below n elems
  Below-le k n [] h b = refl
  Below-le k n (x ∷ elems) h b = ((λ full. omega (arith, h, b.0 full)), Below-le k n elems h b.1)

module _ {V : Type 0} ⦃mb : Cmov (Block (HeapElement V))⦄ where
  pub least_of_lem :
      (least : Block (HeapElement V)) (elems : List (Block (HeapElement V)))
      → LeastOf least elems (least_of least elems)
  unfolding least_of
  least_of_lem least [] = record { below_first = omega arith; below = refl; source = inl refl }
  least_of_lem least (x ∷ elems) = elim (Bool-cases (should_mov x least)) [
    | inl e ↦
        let (full, lt) = moved_full x least e in
        let r = least_of_lem x elems in
        rw (mb.cmov_lem least x (should_mov x least), e)
          (record {
            below_first = omega (arith, r.below_first, lt);
            below = ((λ g. r.below_first), r.below);
            source = elim r.source [
              | inl same ↦ inr (ap is_empty same ∙ full, (0, ap some (sym same)))
              | inr (g, (k, at)) ↦ inr (g, (suc k, at))
            ];
          })
    | inr e ↦
        let r = least_of_lem least elems in
        rw (mb.cmov_lem least x (should_mov x least), e)
          (record {
            below_first = r.below_first;
            below = ((λ g. omega (arith, r.below_first, not_moved x least e g)), r.below);
            source = elim r.source [
              | inl same ↦ inl same
              | inr (g, (k, at)) ↦ inr (g, (suc k, at))
            ];
          })
  ]

-- Membership and bounds of the lists that make up a memory.
module _ {A : Type 0} where
  pub In-append_left : (x : A) (xs ys : List A) → In x xs → In x (xs ++ ys)
  In-append_left x [] ys (k, e) = absurd (cc)
  In-append_left x (y ∷ xs) ys (zero, e) = (0, e)
  In-append_left x (y ∷ xs) ys (suc k, e) =
      let (j, e') = In-append_left x xs ys (k, e) in (suc j, e')

  pub In-append_right : (x : A) (xs ys : List A) → In x ys → In x (xs ++ ys)
  In-append_right x [] ys i = i
  In-append_right x (y ∷ xs) ys i = let (j, e) = In-append_right x xs ys i in (suc j, e)

module _ {V : Type 0} where
  pub In-filled :
      (b : Block V) (xs : List (Block V)) → is_empty b ≡ false → In b xs → In b (filled xs)
  In-filled b [] full (k, e) = absurd (cc)
  In-filled b (x ∷ xs) full (zero, e) =
      let same = some-injective x b e in
      let whole : is_empty x ≡ false = ap is_empty same ∙ full in rw whole (0, e)
  In-filled b (x ∷ xs) full (suc k, e) =
      In-append_right b (one x) (filled xs) (In-filled b xs full (k, e))

  pub In-concat :
      (b : Block V) (a : List (Bucket V)) (j : ℕ) (c : Bucket V)
      → get_elem? a j ≡ some c
      → In b c
      → In b (concat a)
  In-concat b [] j c e i = absurd (cc)
  In-concat b (x ∷ a) zero c e i =
      In-append_left b x (concat a) (subst (In b) (sym (some-injective x c e)) i)
  In-concat b (x ∷ a) (suc j) c e i = In-append_right b x (concat a) (In-concat b a j c e i)

module _ {V : Type 0} (key : ℕ) where
  pub Below-append :
      (xs ys : List (Block (HeapElement V))) → Below key xs → Below key ys → Below key (xs ++ ys)
  Below-append xs ys p q = All-append (λ b. is_empty b ≡ false → key ≤ b.value.key) xs ys p q

  pub Below-filled : (xs : List (Block (HeapElement V))) → Below key xs → Below key (filled xs)
  Below-filled [] p = refl
  Below-filled (x ∷ xs) p = elim (Bool-cases (is_empty x)) [
    | inl e ↦ rw e (Below-filled xs p.1)
    | inr e ↦ rw e (p.0, Below-filled xs p.1)
  ]

  pub Below-concat :
      (a : List (Bucket (HeapElement V)))
      → ((j : ℕ) (c : Bucket (HeapElement V)) → get_elem? a j ≡ some c → Below key c)
      → Below key (concat a)
  Below-concat [] each = refl
  Below-concat (c ∷ a) each =
      Below-append c (concat a) (each 0 c refl) (Below-concat a (λ j. each (suc j)))
