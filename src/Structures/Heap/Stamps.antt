-- ===== src/Structures/Heap/Stamps.antt =====
-- crates/datastructures/src/heap.rs: timestamps name the elements, so that `extract_min` removes
-- the one that it has found.
use mathlib.Core.Option.{some-injective}
use native.Mathlib.Decide.{ℕ_discrete}
use rostl.Base.{
  ℕ, zero, suc, ◌≤◌, ◌<◌, ◌≡◌, refl, ap, ◌∙◌, arith, Bool, true, false, Bool-cases, inl, inr, List,
  [], ◌∷◌, not, ltb, lt→ltb, ltb→lt, Returns, Returns-bind, Returns-imp, eq→==,
}
use rostl.Primitives.{Cmov}
use rostl.Primitives.Usize.{usize_max}
use rostl.Oram.Circuit.Blocks.{Zeroable, Block, is_empty, matches}
use rostl.Oram.Circuit.Filled.{one}
use rostl.Oram.Circuit.State.{content}
use rostl.Oram.Circuit.Tally.{tally, tally-perm, tally-append, misplaced}
use rostl.Oram.Circuit.Location.{Located}
use rostl.Oram.Circuit.Relocate.{tally-one, one_none, key_other, at_home, tally-misplaced}
use rostl.Structures.Heap.{Heap, HeapElement, extract_min}
use rostl.Structures.Heap.Least.{In, Below}
use rostl.Structures.Heap.Nodes.{IsHeap, find_min-IsLeast}
use rostl.Structures.Heap.Clients.{Inserted, heap_block}
use rostl.Structures.Heap.Deletions.{Deleted, delete-Deleted}

-- A position that the tree does not have.
abbrev pub astray : {V : Type 0} → ℕ → Block V → Bool
astray max_n b = not (ltb b.pos max_n)

-- A timestamp has one element at most, those to come have none, and every element has a position
-- of the tree.
pub record IsStamped {V : Type 0} (self : Heap V) : Type 0 where
  pub once : (k : ℕ) → tally (matches k) (content self.oram) ≤ 1
  pub unused : (k : ℕ) → self.timestamp ≤ k → tally (matches k) (content self.oram) ≡ 0
  pub placed : tally (astray self.oram.max_n) (content self.oram) ≡ 0

unnegated : (b : Bool) → not b ≡ false → b ≡ true
unnegated true e = refl
unnegated false e = absurd (cc)

module _ {V : Type 0} where
  In-tally :
      (f : Block V → Bool) (b : Block V) (xs : List (Block V))
      → In b xs
      → f b ≡ true
      → 0 < tally f xs
  In-tally f b [] (k, e) h = absurd (cc)
  In-tally f b (x ∷ xs) (zero, e) h =
      let g : f x ≡ true = ap f (some-injective x b e) ∙ h in rw g (omega arith)
  In-tally f b (x ∷ xs) (suc k, e) h = elim (Bool-cases (f x)) [
    | inl g ↦ rw g (omega arith)
    | inr g ↦ rw g (In-tally f b xs (k, e) h)
  ]

  -- What no block of a list is, a block of the list is not.
  In-not :
      (f : Block V → Bool) (b : Block V) (xs : List (Block V))
      → In b xs
      → tally f xs ≡ 0
      → f b ≡ false
  In-not f b xs i z = elim (Bool-cases (f b)) [
    | inl e ↦ absurd (omega (arith, In-tally f b xs i e, z))
    | inr e ↦ e
  ]

  -- The only block of a key is where it says.
  only_block :
      (k : ℕ) (b : Block V) (xs : List (Block V))
      → In b xs
      → matches k b ≡ true
      → tally (matches k) xs ≤ 1
      → tally (misplaced k b.pos) xs ≡ 0
  only_block k b [] i h u = refl
  only_block k b (x ∷ xs) (zero, e) h u =
      let same = some-injective x b e in
      let g : matches k x ≡ true = ap (matches k) same ∙ h in
      let home = at_home k b.pos x (ap (λ y. y.pos) same) in
      rw home (omega (arith, tally-misplaced k b.pos xs, rw g at u))
  only_block k b (x ∷ xs) (suc j, e) h u = elim (Bool-cases (matches k x)) [
    | inl g ↦ absurd (omega (arith, rw g at u, In-tally (matches k) b xs (j, e) h))
    | inr g ↦ rw g (only_block k b xs (j, e) h (rw g at u))
  ]

  matches_self : (b : Block V) → is_empty b ≡ false → matches b.key b ≡ true
  matches_self b e = rw (e, eq→== b.key b.key refl) refl

module _ {V : Type 0} where
  Below-In :
      (key : ℕ) (b : Block (HeapElement V)) (xs : List (Block (HeapElement V)))
      → Below key xs
      → In b xs
      → is_empty b ≡ false
      → key ≤ b.value.key
  Below-In key b [] h (k, e) full = absurd (cc)
  Below-In key b (x ∷ xs) h (zero, e) full =
      let same = some-injective x b e in
      omega (arith, h.0 (ap is_empty same ∙ full), ap (λ y. y.value.key) same)
  Below-In key b (x ∷ xs) h (suc k, e) full = Below-In key b xs h.1 (k, e) full

  pub Deleted-IsStamped :
      {self out : Heap V} {k : ℕ} → Deleted self k out → IsStamped self → IsStamped out
  Deleted-IsStamped {self} {out} x s = record {
    once = λ k. omega (
      arith,
      s.once k,
      tally-perm (matches k) _ _ x.blocks,
      tally-append (matches k) x.removed (content out.oram),
    );
    unused = λ k h. omega (
      arith,
      s.unused k (omega (arith, h, x.stamps)),
      tally-perm (matches k) _ _ x.blocks,
      tally-append (matches k) x.removed (content out.oram),
    );
    placed =
        ap (λ n. tally (astray n) (content out.oram)) x.max_n
        ∙ omega (
          arith,
          s.placed,
          tally-perm (astray self.oram.max_n) _ _ x.blocks,
          tally-append (astray self.oram.max_n) x.removed (content out.oram),
        );
  }

  -- The new element has a timestamp of its own.
  pub Inserted-IsStamped :
      {self : Heap V} {out : Heap V × ℕ × ℕ} (pos key : ℕ) (value : V)
      → Inserted self pos (one (heap_block pos self.timestamp key value)) out
      → pos < self.oram.max_n
      → IsStamped self
      → IsStamped out.0
  Inserted-IsStamped {self} {out} pos key value x inside s =
      let new = heap_block pos self.timestamp key value in
      let count = λ (f : Block (HeapElement V) → Bool).
        tally-perm f _ _ x.blocks ∙ tally-append f (one new) (content self.oram) in
      let other = λ (k : ℕ) (ne : ¬ (k ≡ self.timestamp)).
        one_none (matches k) new (inr (key_other k new ne)) in
      record {
        once = λ k. elim (ℕ_discrete k self.timestamp) [
          | yes e ↦
              omega
                (arith, count (matches k), s.unused k (omega (arith, e)), tally-one (matches k) new)
          | no ne ↦ omega (arith, count (matches k), other k ne, s.once k)
        ];
        unused = λ k h. omega (
          arith,
          count (matches k),
          other k (λ e. omega (arith, e, h, x.timestamp)),
          s.unused k (omega (arith, h, x.timestamp)),
        );
        placed =
            ap (λ n. tally (astray n) (content out.0.oram)) x.max_n
            ∙ omega (
              arith,
              count (astray self.oram.max_n),
              s.placed,
              one_none (astray self.oram.max_n) new
                  (inr (ap not (lt→ltb pos self.oram.max_n inside))),
            );
      }

-- What extract_min does: an element with the least key is deleted.
pub record Extracted {V : Type 0} (self out : Heap V) : Type 0 where
  pub element : Block (HeapElement V)
  pub full : is_empty element ≡ false
  pub held : In element (content self.oram)
  pub least : Below element.value.key (content self.oram)
  pub deleted : Deleted self element.key out

module _ {V : Type 0} ⦃mb : Cmov (Block (HeapElement V))⦄ ⦃z : Zeroable V⦄ (rng : ℕ → ℕ → ℕ)
    (self : Heap V) (t : IsHeap self) (s : IsStamped self) where
  -- With a draw below the number of leaves, extract_min of a heap whose elements have timestamps of
  -- their own and positions of the tree, and which has an element whose key is not the largest number, returns a heap without
  -- an element of the least key and with all others.
  pub extract_min-Extracted :
      (c : Block (HeapElement V))
      → In c (content self.oram)
      → is_empty c ≡ false
      → c.value.key < usize_max
      → rng 0 self.oram.max_n < self.oram.max_n
      → Returns (Extracted self) (extract_min rng self)
  unfolding extract_min
  extract_min-Extracted c here full small draw = Returns-bind (find_min-IsLeast self t) λ b l.
      elim l.source [
        | inl (empty, inl key) ↦ absurd (
            omega (arith, key, small, Below-In b.value.key c (content self.oram) l.below here full))
        | inl (empty, inr none_held) ↦ absurd (cc (rw none_held at here.1))
        | inr (b_full, b_here) ↦
            let inside = In-not (astray self.oram.max_n) b (content self.oram) b_here s.placed in
            let known : Located self.oram b.pos b.key = record {
              once = s.once b.key;
              here =
                  only_block b.key b (content self.oram) b_here (matches_self b b_full)
                    (s.once b.key);
            } in
            Returns-imp
              (delete-Deleted self b.pos b.key t
                (ltb→lt b.pos self.oram.max_n (unnegated (ltb b.pos self.oram.max_n) inside)) known
                rng draw)
              λ out x. record {
                element = b;
                full = b_full;
                held = b_here;
                least = l.below;
                deleted = x;
              }
      ]
