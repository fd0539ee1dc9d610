-- ===== src/Oram/Circuit/PathWrites.antt =====
-- crates/oram/src/circuit_oram.rs: `write_path` of the tree of buckets.
use mathlib.Core.List
use mathlib.Core.List.Perm
use mathlib.Core.Option.{some-injective}
use rostl.Base.{
  ℕ, zero, suc, ◌+◌, ◌%◌, ◌^◌, ◌≤◌, ◌<◌, ◌≡◌, refl, ap, sym, ◌∙◌, List, [], ◌∷◌, ◌++◌, arith,
  length, some, Perm, get_elem?, set, length-set, get_elem?-set, store_lem, Bool-cases, inl, inr,
  ◌==◌, ==_iff, lt→ltb, Returns, returns, Returns-imp, eq→==, ne→==,
}
use rostl.Oram.HeapTree.{HeapTree}
use rostl.Oram.HeapTree.Index.{place, place_injective, get_index_lem, place_inside}
use rostl.Oram.Circuit.Blocks.{Block}
use rostl.Oram.Circuit.{Bucket, concat, write_buckets}
use rostl.Oram.Circuit.Filled.{filled, filled-append, perm_past, All, Fits}
use rostl.Oram.Circuit.Levels.{LevelsFit}
use rostl.Oram.Circuit.Parts.{Shaped, Shaped-cons}
use rostl.Oram.Circuit.Paths.{BucketFits, IsOramTree, OnPath}

module _ {V : Type 0} where
  -- A bucket of a list of them is replaced.
  set-filled :
      (a : List (Bucket V)) (i : ℕ) (x v : Bucket V)
      → get_elem? a i ≡ some x
      → Perm (filled x ++ filled (concat (set a i v))) (filled v ++ filled (concat a))
  set-filled [] i x v e = absurd (cc)
  set-filled (y ∷ a) zero x v e =
      rw (filled-append v (concat a), filled-append y (concat a), some-injective y x e)
        (perm_past (filled x) (filled v) _)
  set-filled (y ∷ a) (suc i) x v e =
      rw (filled-append y (concat (set a i v)), filled-append y (concat a))
        (Perm.trans (perm_past (filled x) (filled y) _) (
          Perm.trans (Perm.append_left (filled y) (set-filled a i x v e))
            (perm_past (filled y) (filled v) _)))

  All-imp :
      (P Q : Block V → Type 0) (b : List (Block V))
      → ((x : Block V) → P x → Q x)
      → All P b
      → All Q b
  All-imp P Q [] k p = refl
  All-imp P Q (x ∷ b) k p = (k x p.0, All-imp P Q b k p.1)

  abbrev replaced : HeapTree (Bucket V) → ℕ → ℕ → Bucket V → HeapTree (Bucket V)
  replaced self depth path b = record {
    tree = set self.tree (place depth path) b;
    height = self.height;
  }

  replaced-IsOramTree :
      (self : HeapTree (Bucket V)) (depth path : ℕ) (b : Bucket V)
      → IsOramTree self
      → depth < self.height
      → BucketFits depth path b
      → IsOramTree (replaced self depth path b)
  replaced-IsOramTree self depth path b t h fits = record {
    tree = record {
      size = length-set self.tree (place depth path) b ∙ t.tree.size;
      bound = t.tree.bound;
    };
    bucket = λ d p hd.
        let inside = place_inside self depth path h in
        let at =
          get_elem?-set self.tree (place depth path) (place d p) b (omega (arith, t.tree.size)) in
        elim (Bool-cases (place depth path == place d p)) [
          | inr e ↦ let (c, old, ok) = t.bucket d p hd in (c, at ∙ rw e old, ok)
          | inl e ↦
              let (same, bits) =
                place_injective depth path d p ((==_iff (place depth path) (place d p)).0 e) in
              let same_fits : (x : Block V) → Fits depth path x → Fits d p x =
                λ x fit full. ap (λ k. x.pos % 2 ^ k) (sym same) ∙ fit full ∙ bits in
              (b, at ∙ rw e refl, (fits.0, All-imp (Fits depth path) (Fits d p) b same_fits fits.1))
        ];
  }

  OnPath-replaced :
      (self : HeapTree (Bucket V)) (depth path i : ℕ) (b : Bucket V) (buckets : List (Bucket V))
      → depth < i
      → place depth path < length self.tree
      → OnPath self path i buckets
      → OnPath (replaced self depth path b) path i buckets
  OnPath-replaced self depth path i b [] h inside on = refl
  OnPath-replaced self depth path i b (c ∷ buckets) h inside on =
      let other : ¬ (place depth path ≡ place i path) =
        λ e. omega (arith, h, (place_injective depth path i path e).0) in
      let at = get_elem?-set self.tree (place depth path) (place i path) b inside in
      (
        at ∙ rw (ne→== (place depth path) (place i path) other) on.0,
        OnPath-replaced self depth path (suc i) b buckets (omega (arith, h)) inside on.1,
      )

-- What `write_path` does: the tree's blocks on the path are exchanged for the new ones.
pub record WritePath {V : Type 0} (self : HeapTree (Bucket V)) (path i : ℕ)
    (old new : List (Bucket V)) (out : HeapTree (Bucket V)) : Type 0 where
  pub tree : IsOramTree out
  pub height : out.height ≡ self.height
  pub blocks :
      Perm
        (filled (concat old) ++ filled (concat out.tree))
        (filled (concat new) ++ filled (concat self.tree))
  pub on_path : OnPath out path i new
  pub frame :
      (d p : ℕ)
      → ((k : ℕ) → i ≤ k → ¬ (place k path ≡ place d p))
      → get_elem? out.tree (place d p) ≡ get_elem? self.tree (place d p)

module _ {V : Type 0} where
  exchange :
      (x xs v vs t t1 t2 : List (Block V))
      → Perm (xs ++ t2) (vs ++ t1)
      → Perm (x ++ t1) (v ++ t)
      → Perm ((x ++ xs) ++ t2) ((v ++ vs) ++ t)
  exchange x xs v vs t t1 t2 p q =
      rw (List.append_assoc x xs t2, List.append_assoc v vs t)
        (Perm.trans (Perm.append_left x p)
          (Perm.trans (perm_past x vs t1) (Perm.trans (Perm.append_left vs q) (perm_past vs v t))))

  pub write_buckets-WritePath :
      (path n i : ℕ) (old new : List (Bucket V)) (self : HeapTree (Bucket V))
      → IsOramTree self
      → i + n ≡ self.height
      → Shaped n old
      → OnPath self path i old
      → Shaped n new
      → LevelsFit i path new
      → Returns (WritePath self path i old new) (write_buckets path n i new self)
  unfolding write_buckets
  write_buckets-WritePath path zero i [] [] self t e so on sn fits = returns (record {
    tree = t;
    height = refl;
    blocks = Perm.rfl;
    on_path = refl;
    frame = λ d p other. refl;
  })
  write_buckets-WritePath path zero i [] (v ∷ new) self t e so on sn fits = absurd (cc)
  write_buckets-WritePath path zero i (x ∷ old) new self t e so on sn fits = absurd (cc)
  write_buckets-WritePath path (suc n) i [] new self t e so on sn fits = absurd (cc)
  write_buckets-WritePath path (suc n) i (x ∷ old) [] self t e so on sn fits = absurd (cc)
  write_buckets-WritePath path (suc n) i (x ∷ old) (v ∷ new) self t e so on sn fits =
      let inside : place i path < length self.tree =
        omega (arith, place_inside self i path (omega (arith, e)), t.tree.size) in
      let (size_v, shape_v) = Shaped-cons n v new sn in
      let (_, shape_x) = Shaped-cons n x old so in
      let self1 = replaced self i path v in
      let t1 = replaced-IsOramTree self i path v t (omega (arith, e)) (size_v, fits.0) in
      let on1 = OnPath-replaced self i path (suc i) v old (omega arith) inside on.1 in
      rw
        (
          get_index_lem self i path t.tree.bound,
          lt→ltb i self.height (omega (arith, e)),
          store_lem self.tree (place i path) v inside,
        )
        (Returns-imp
          (write_buckets-WritePath path n (suc i) old new self1 t1 (omega (arith, e)) shape_x on1
            shape_v fits.1)
          λ out w. record {
            tree = w.tree;
            height = w.height;
            blocks =
                rw (filled-append x (concat old), filled-append v (concat new))
                  (exchange (filled x) (filled (concat old)) (filled v) (filled (concat new)) _ _ _
                    w.blocks (set-filled self.tree (place i path) x v on.0));
            on_path = (
              w.frame i path
                    (λ k le same. omega (arith, le, (place_injective k path i path same).0))
                  ∙ get_elem?-set self.tree (place i path) (place i path) v inside
                  ∙ rw (eq→== (place i path) (place i path) refl) refl,
              w.on_path,
            );
            frame = λ d p other.
                w.frame d p (λ k le. other k (omega (arith, le)))
                ∙ get_elem?-set self.tree (place i path) (place d p) v inside
                ∙ rw (ne→== (place i path) (place d p) (other i (omega arith))) refl;
          })
