-- ===== src/Oram/Circuit/Stash.antt =====
-- crates/oram/src/circuit_oram.rs: the whole stash, its own blocks first and a path behind them:
-- removal, writing and eviction keep the path's blocks where they may be.
use rostl.Base.{
  ℕ, zero, suc, ◌+◌, ◌*◌, ◌≡◌, refl, ap, sym, ◌∙◌, List, [], ◌∷◌, ◌++◌, arith, length, take, drop,
  drop-append, take-append-drop, length-append, length-drop, inl, inr, Bool-cases,
}
use rostl.Oram.Circuit.Blocks.{Block, bucket_size, stash_size, matches}
use rostl.Oram.Circuit.{concat, chunks}
use rostl.Oram.Circuit.Filled.{filled, filled-append, Fits}
use rostl.Oram.Circuit.Levels.{LevelsFit}
use rostl.Oram.Circuit.Parts.{Shaped}
use rostl.Oram.Circuit.Elements.{without_key, cleared, length-without_key}

-- A stash with the path of a position: its size, and where the path's blocks may be.
pub record OnStash {V : Type 0} (h pos : ℕ) (stash : List (Block V)) : Type 0 where
  pub size : length stash ≡ stash_size + h * bucket_size
  pub fit : LevelsFit 0 pos (chunks h (drop stash_size stash))

module _ {V : Type 0} where
  pub concat-chunks :
      (n : ℕ) (xs : List (Block V)) → length xs ≡ n * bucket_size → concat (chunks n xs) ≡ xs
  concat-chunks zero [] e = refl
  concat-chunks zero (x ∷ xs) e = absurd (omega (arith, e))
  concat-chunks (suc n) [] e = absurd (omega (arith, e))
  concat-chunks (suc n) (x ∷ []) e = absurd (omega (arith, e))
  concat-chunks (suc n) (x ∷ (y ∷ xs)) e =
      ap (λ r. x ∷ (y ∷ r)) (concat-chunks n xs (omega (arith, e)))

  pub chunks-Shaped :
      (n : ℕ) (xs : List (Block V)) → length xs ≡ n * bucket_size → Shaped n (chunks n xs)
  chunks-Shaped zero [] e = refl
  chunks-Shaped zero (x ∷ xs) e = refl
  chunks-Shaped (suc n) [] e = absurd (omega (arith, e))
  chunks-Shaped (suc n) (x ∷ []) e = absurd (omega (arith, e))
  chunks-Shaped (suc n) (x ∷ (y ∷ xs)) e = ap (◌∷◌ 2) (chunks-Shaped n xs (omega (arith, e)))

  cleared-Fits : (i pos k : ℕ) (b : Block V) → Fits i pos b → Fits i pos (cleared k b)
  cleared-Fits i pos k b fits = elim (Bool-cases (matches k b)) [
    | inl e ↦ rw e (λ full. absurd (cc))
    | inr e ↦ rw e fits
  ]

  without_key-LevelsFit :
      (k pos n i : ℕ) (xs : List (Block V))
      → LevelsFit i pos (chunks n xs)
      → LevelsFit i pos (chunks n (without_key k xs))
  without_key-LevelsFit k pos zero i xs fit = fit
  without_key-LevelsFit k pos (suc n) i [] fit = fit
  without_key-LevelsFit k pos (suc n) i (x ∷ []) fit =
      ((cleared-Fits i pos k x fit.0.0, refl), fit.1)
  without_key-LevelsFit k pos (suc n) i (x ∷ (y ∷ xs)) fit = (
    (cleared-Fits i pos k x fit.0.0, (cleared-Fits i pos k y fit.0.1.0, refl)),
    without_key-LevelsFit k pos n (suc i) xs fit.1,
  )

  drop-without_key :
      (n k : ℕ) (xs : List (Block V)) → drop n (without_key k xs) ≡ without_key k (drop n xs)
  drop-without_key zero k xs = refl
  drop-without_key (suc n) k [] = refl
  drop-without_key (suc n) k (x ∷ xs) = drop-without_key n k xs

  pub without_key-OnStash :
      (k h pos : ℕ) (stash : List (Block V))
      → OnStash h pos stash
      → OnStash h pos (without_key k stash)
  without_key-OnStash k h pos stash s = record {
    size = length-without_key k stash ∙ s.size;
    fit =
        rw (drop-without_key stash_size k stash)
          (without_key-LevelsFit k pos h 0 (drop stash_size stash) s.fit);
  }

  -- What stands in front of the path may be replaced.
  pub front-OnStash :
      (h pos : ℕ) (front stash : List (Block V))
      → length front ≡ stash_size
      → OnStash h pos stash
      → OnStash h pos (front ++ drop stash_size stash)
  front-OnStash h pos front stash e s = record {
    size =
        length-append front (drop stash_size stash)
        ∙ omega (arith, e, s.size, length-drop stash_size stash);
    fit = rw (drop-append front (drop stash_size stash) stash_size (sym e)) s.fit;
  }

  pub front-filled :
      (stash : List (Block V)) (n : ℕ)
      → filled stash ≡ filled (take n stash) ++ filled (drop n stash)
  front-filled stash n =
      ap filled (sym (take-append-drop n stash)) ∙ filled-append (take n stash) (drop n stash)
