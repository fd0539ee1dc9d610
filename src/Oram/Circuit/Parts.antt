-- ===== src/Oram/Circuit/Parts.antt =====
-- crates/oram/src/circuit_oram.rs: the stash as its own blocks and the buckets of a path.
use rostl.Base.{
  ℕ, zero, suc, ◌*◌, ◌≤◌, ◌≡◌, refl, ap, ap₂, sym, ◌∙◌, List, [], ◌∷◌, arith, length, drop,
  replicate, take-append, drop-append, length-append,
}
use rostl.Oram.Circuit.Blocks.{Block, bucket_size}
use rostl.Oram.Circuit.{Bucket, concat, chunks}
use rostl.Oram.Circuit.Levels.{sizes}

-- So many buckets, of `bucket_size` blocks each.
abbrev pub Shaped : {V : Type 0} → ℕ → List (Bucket V) → Type 0
Shaped n buckets = sizes buckets ≡ replicate n bucket_size

module _ {V : Type 0} where
  pub Shaped-cons :
      (n : ℕ) (b : Bucket V) (buckets : List (Bucket V))
      → Shaped (suc n) (b ∷ buckets)
      → (length b ≡ bucket_size) × Shaped n buckets
  Shaped-cons n b buckets e = (ap head e, ap tail e)
    where
      head : List ℕ → ℕ
      head [] = 0
      head (k ∷ ks) = k

      tail : List ℕ → List ℕ
      tail [] = []
      tail (k ∷ ks) = ks

  pub chunks-concat :
      (n : ℕ) (buckets : List (Bucket V)) → Shaped n buckets → chunks n (concat buckets) ≡ buckets
  chunks-concat zero [] e = refl
  chunks-concat zero (b ∷ buckets) e = absurd (cc)
  chunks-concat (suc n) [] e = absurd (cc)
  chunks-concat (suc n) (b ∷ buckets) e =
      let (size, rest) = Shaped-cons n b buckets e in
      ap₂ ◌∷◌ (take-append b (concat buckets) bucket_size (sym size)) (
        ap (chunks n) (drop-append b (concat buckets) bucket_size (sym size))
        ∙ chunks-concat n buckets rest)

  pub length-concat :
      (n : ℕ) (buckets : List (Bucket V))
      → Shaped n buckets
      → length (concat buckets) ≡ n * bucket_size
  length-concat zero [] e = refl
  length-concat zero (b ∷ buckets) e = absurd (cc)
  length-concat (suc n) [] e = absurd (cc)
  length-concat (suc n) (b ∷ buckets) e =
      let (size, rest) = Shaped-cons n b buckets e in
      length-append b (concat buckets) ∙ omega (arith, size, length-concat n buckets rest)

  pub drop_all : (n : ℕ) (xs : List (Block V)) → length xs ≤ n → drop n xs ≡ []
  drop_all zero [] h = refl
  drop_all zero (x ∷ xs) h = absurd (omega arith)
  drop_all (suc n) [] h = refl
  drop_all (suc n) (x ∷ xs) h = drop_all n xs (omega arith)
