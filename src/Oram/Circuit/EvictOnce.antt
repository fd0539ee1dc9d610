-- ===== src/Oram/Circuit/EvictOnce.antt =====
-- crates/oram/src/circuit_oram.rs: `evict_once_fast` on the stash.
use mathlib.Core.List
use mathlib.Core.List.Perm
use rostl.Base.{
  ℕ, zero, suc, ◌+◌, ◌-◌, ◌*◌, ◌≤◌, ◌≡◌, refl, ap, ap₂, sym, subst, ◌∙◌, List, [], ◌∷◌, ◌++◌, arith,
  length, Perm, take, drop, take-append, drop-append, length-append, length-take, length-drop,
  le→leb, Returns, returns,
}
use native.Mathlib.Nat.{mod-one}
use rostl.Primitives.{Cmov}
use rostl.Oram.Circuit.Blocks.{Zeroable, Block, bucket_size, stash_size}
use rostl.Oram.Circuit.{Bucket, CircuitOram, with_stash, concat, chunks, path_end}
use rostl.Oram.Circuit.Filled.{filled, filled-append, All, Fits}
use rostl.Oram.Circuit.Levels.{LevelsFit}
use rostl.Oram.Circuit.Parts.{Shaped, chunks-concat, length-concat, drop_all}
use rostl.Oram.Circuit.Evict.{evict_levels-Rearranged}
use rostl.Oram.Circuit.Stash.{OnStash, concat-chunks, chunks-Shaped, front-filled}
use rostl.Oram.Circuit.Ops.{evict_levels, evict_once_fast}

-- What an eviction changes: the order of the blocks in the stash.
pub record EvictedOnce {V : Type 0} (self : CircuitOram V) (pos : ℕ) (out : CircuitOram V)
    : Type 0 where
  pub stash : List (Block V)
  pub result : out ≡ with_stash self stash
  pub on_stash : OnStash self.h pos stash
  pub blocks : Perm (filled stash) (filled self.stash)

module _ {V : Type 0} where
  drop_nil : (n : ℕ) → drop {A = Block V} n [] ≡ []
  drop_nil zero = refl
  drop_nil (suc n) = refl

  drop-drop : (m n : ℕ) (xs : List (Block V)) → drop m (drop n xs) ≡ drop (n + m) xs
  drop-drop m zero xs = ap (λ k. drop k xs) (omega arith)
  drop-drop m (suc n) [] = drop_nil m ∙ sym (drop_nil (suc n + m))
  drop-drop m (suc n) (x ∷ xs) =
      drop-drop m n xs ∙ ap (λ k. drop k (x ∷ xs)) {x = suc (n + m)} {y = suc n + m} (omega arith)

  drop_front : (n : ℕ) (a b : List (Block V)) → n ≤ length a → drop n (a ++ b) ≡ drop n a ++ b
  drop_front zero a b h = refl
  drop_front (suc n) [] b h = absurd (omega arith)
  drop_front (suc n) (x ∷ a) b h = drop_front n a b (omega arith)

  -- Every block may be at the root.
  root-Fits : (pos : ℕ) (b : List (Block V)) → All (Fits 0 pos) b
  root-Fits pos [] = refl
  root-Fits pos (x ∷ b) = ((λ full. mod-one x.pos ∙ sym (mod-one pos)), root-Fits pos b)

  chunks_below :
      (h : ℕ) (stash : List (Block V))
      → 1 ≤ h
      → chunks h (drop stash_size stash)
        ≡ take bucket_size (drop stash_size stash)
          ∷ chunks (h - 1) (drop (stash_size + bucket_size) stash)
  chunks_below zero stash e = absurd (omega arith)
  chunks_below (suc n) stash e =
      ap (λ below. take bucket_size (drop stash_size stash) ∷ below)
        (ap₂ chunks {x = n} {y = suc n - 1} (omega arith) (drop-drop bucket_size stash_size stash))

  -- The stash after the passes: the first level's blocks, and the other levels'.
  rebuilt-OnStash :
      (n pos : ℕ) (first : List (Block V)) (levels : List (Bucket V))
      → length first ≡ stash_size + bucket_size
      → Shaped n levels
      → LevelsFit 1 pos levels
      → OnStash (suc n) pos (first ++ concat levels)
  rebuilt-OnStash n pos first levels e shape fit =
      let root = drop stash_size first in
      let size : length root ≡ bucket_size = length-drop stash_size first ∙ omega (arith, e) in
      record {
        size = length-append first (concat levels) ∙ omega (arith, e, length-concat n levels shape);
        fit = rw (drop_front stash_size first (concat levels) (omega (arith, e))) (
            rw
              (
                take-append root (concat levels) bucket_size (sym size),
                drop-append root (concat levels) bucket_size (sym size),
                chunks-concat n levels shape,
              )
              (root-Fits pos root, fit));
      }

module _ {V : Type 0} ⦃m : Cmov (Block V)⦄ ⦃z : Zeroable V⦄ where
  -- `evict_once_fast` returns when the height is at least 2 and at most 64 and the stash ends with the path of the
  -- position: it only rearranges the blocks of the stash, and leaves every block of the path
  -- where it may be.
  pub evict_once_fast-EvictedOnce :
      (self : CircuitOram V) (pos : ℕ)
      → 2 ≤ self.h
      → self.h ≤ 64
      → OnStash self.h pos self.stash
      → Returns (EvictedOnce self pos) (evict_once_fast self pos)
  unfolding evict_once_fast
  evict_once_fast-EvictedOnce self pos low high s =
      let start = stash_size + bucket_size in
      let n = self.h - 1 in
      let first = take start self.stash in
      let rest = drop start self.stash in
      let levels = chunks n rest in
      let size_rest : length rest ≡ n * bucket_size =
        length-drop start self.stash ∙ omega (arith, s.size, low) in
      let split : chunks self.h (drop stash_size self.stash)
          ≡ take bucket_size (drop stash_size self.stash) ∷ levels =
        chunks_below self.h self.stash (omega (arith, low)) in
      let fit = (subst (LevelsFit 0 pos) split s.fit).1 in
      let r = evict_levels-Rearranged pos first levels fit in
      let shape = r.level_sizes ∙ chunks-Shaped n rest size_rest in
      rw
        (
          le→leb 2 self.h low,
          le→leb self.h 64 high,
          le→leb (path_end self) (length self.stash) (omega (arith, s.size)),
          drop_all (path_end self) self.stash (omega (arith, s.size)),
          List.append-nil (concat (evict_levels pos first levels).1),
        )
        (returns (record {
          stash = (evict_levels pos first levels).0 ++ concat (evict_levels pos first levels).1;
          result = refl;
          on_stash =
              subst
                (λ h.
                  OnStash h pos
                    ((evict_levels pos first levels).0 ++ concat (evict_levels pos first levels).1))
                {x = suc n} {y = self.h} (omega (arith, low))
                (rebuilt-OnStash n pos _ _
                  (r.size ∙ length-take start self.stash (omega (arith, s.size, low))) shape r.fit);
          blocks =
              rw
                (
                  filled-append (evict_levels pos first levels).0
                      (concat (evict_levels pos first levels).1),
                  front-filled self.stash start,
                )
                (subst
                  (λ x.
                    Perm
                      (filled (evict_levels pos first levels).0
                        ++ filled (concat (evict_levels pos first levels).1))
                      (filled first ++ filled x))
                  (concat-chunks n rest size_rest) r.blocks);
        }))
