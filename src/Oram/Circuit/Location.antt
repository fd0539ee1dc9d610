-- ===== src/Oram/Circuit/Location.antt =====
-- crates/oram/src/circuit_oram.rs: a block whose position is known is in the stash or on its path.
use native.Mathlib.Nat.{two-pow-succ, mod-eq_of_lt}
use native.Mathlib.Decide.{dec_lt}
use rostl.Base.{
  ℕ, zero, suc, ◌+◌, ◌-◌, ◌%◌, ◌^◌, ◌≤◌, ◌<◌, ◌≡◌, refl, ap, sym, subst, ◌∙◌, Bool, true, false,
  List, [], ◌∷◌, ◌++◌, arith, Perm, Bool-cases, inl, inr, ◌==◌, ==_iff, get_elem?, some, replicate,
  Returns-some, take, eq→==, lt_of_get_elem?,
}
use mathlib.Core.Option.{some-injective}
use rostl.Primitives.Powers.Laws.{pow_pos}
use rostl.Oram.HeapTree.{HeapTree}
use rostl.Oram.HeapTree.Index.{place}
use rostl.Oram.Circuit.Blocks.{Zeroable, Block, matches, is_empty, stash_size}
use rostl.Oram.Circuit.{Bucket, CircuitOram, concat, default_bucket}
use rostl.Oram.Circuit.Filled.{filled, All, Fits}
use rostl.Oram.Circuit.Levels.{LevelsFit}
use rostl.Oram.Circuit.Parts.{Shaped}
use rostl.Oram.Circuit.Paths.{IsOramTree, OnPath, ReadPath}
use rostl.Oram.Circuit.PathWrites.{write_buckets-WritePath}
use rostl.Oram.Circuit.Elements.{full_match}
use rostl.Oram.Circuit.Tally.{
  tally, tally-perm, tally-append, tally-filled, matches_full, misplaced_full, tally_part,
  tally_parts, misplaced,
}
use rostl.Oram.Circuit.State.{IsCircuitOram, content}

-- Every index of the tree is the place of a node.
pub node_at : (h j : ℕ) → j < 2 ^ h - 1 → (d : ℕ) × (p : ℕ) × (d < h) × (place d p ≡ j)
node_at zero j e = absurd (omega (arith, e))
node_at (suc h) j e = elim (dec_lt j (2 ^ h - 1)) [
  | yes below ↦ let (d, p, inside, at) = node_at h j below in (d, p, omega (arith, inside), at)
  | no other ↦
      let p = j - (2 ^ h - 1) in
      let small : p < 2 ^ h = omega (arith, e, other, two-pow-succ h, pow_pos h) in
      (h, p, omega arith, omega (arith, mod-eq_of_lt small, other, pow_pos h))
]

module _ {V : Type 0} where
  OnPath-at :
      (self : HeapTree (Bucket V)) (path n i d : ℕ) (e : Bucket V)
      → OnPath self path i (replicate n e)
      → i ≤ d
      → d < i + n
      → get_elem? self.tree (place d path) ≡ some e
  OnPath-at self path zero i d e on low high = absurd (omega (arith, low, high))
  OnPath-at self path (suc n) i d e on low high = elim (dec_lt i d) [
    | yes below ↦
        OnPath-at self path n (suc i) d e on.1 (omega (arith, below)) (omega (arith, high))
    | no other ↦
        subst (λ k. get_elem? self.tree (place k path) ≡ some e) {x = i} {y = d}
          (omega (arith, other, low)) on.0
  ]

  -- A bucket off the path of a position has no block there.
  off_path :
      (k pos d p : ℕ) (c : Bucket V)
      → ¬ (pos % 2 ^ d ≡ p % 2 ^ d)
      → All (Fits d p) c
      → tally (misplaced k pos) c ≡ 0
      → tally (matches k) c ≡ 0
  off_path k pos d p [] off fits z = refl
  off_path k pos d p (b ∷ c) off fits z = elim (Bool-cases (matches k b)) [
    | inr e ↦ rw e (off_path k pos d p c off fits.1 (rw e at z))
    | inl e ↦ elim (Bool-cases (b.pos == pos)) [
      | inr away ↦ absurd (omega (arith, rw (e, away) at z))
      | inl here ↦
          absurd (
            off (ap (λ x. x % 2 ^ d) (sym ((==_iff b.pos pos).0 here)) ∙ fits.0 (full_match k b e)))
    ]
  ]

-- What is known of a key: it has one block at most, and that block has the position.
pub record Located {V : Type 0} (self : CircuitOram V) (pos key : ℕ) : Type 0 where
  pub once : tally (matches key) (content self) ≤ 1
  pub here : tally (misplaced key pos) (content self) ≡ 0

module _ (V : Type 0) ⦃z : Zeroable V⦄ where
  abbrev pub empties : ℕ → List (Bucket V)
  empties n = replicate n default_bucket

  pub empties_blocks : (n : ℕ) → filled (concat (empties n)) ≡ []
  empties_blocks zero = refl
  empties_blocks (suc n) = empties_blocks n

  empties-Shaped : (n : ℕ) → Shaped n (empties n)
  empties-Shaped zero = refl
  empties-Shaped (suc n) = ap (◌∷◌ 2) (empties-Shaped n)

  empties-LevelsFit : (n i pos : ℕ) → LevelsFit i pos (empties n)
  empties-LevelsFit zero i pos = refl
  empties-LevelsFit (suc n) i pos =
      (((λ full. absurd (cc)), ((λ full. absurd (cc)), refl)), empties-LevelsFit n (suc i) pos)

module _ {V : Type 0} ⦃z : Zeroable V⦄ where
  -- The tree with an emptied path has no block at the path's position.
  emptied_path :
      (tree : HeapTree (Bucket V)) (key pos : ℕ)
      → IsOramTree tree
      → OnPath tree pos 0 (empties V tree.height)
      → tally (misplaced key pos) (concat tree.tree) ≡ 0
      → tally (matches key) (concat tree.tree) ≡ 0
  emptied_path tree key pos t on z = tally_parts (matches key) tree.tree λ j c at.
      let (d, p, inside, place_j) =
        node_at tree.height j (omega (arith, lt_of_get_elem? tree.tree j at, t.tree.size)) in
      let (b, at_b, (size, fits)) = t.bucket d p inside in
      let same : b ≡ c = some-injective b c (sym at_b ∙ ap (get_elem? tree.tree) place_j ∙ at) in
      elim (Bool-cases (pos % 2 ^ d == p % 2 ^ d)) [
        | inl e ↦
            let on_place : place d pos ≡ j =
              ap (λ r. 2 ^ d - 1 + r) ((==_iff (pos % 2 ^ d) (p % 2 ^ d)).0 e) ∙ place_j in
            let empty =
              OnPath-at tree pos tree.height 0 d default_bucket on (omega arith)
                (omega (arith, inside)) in
            rw
              (some-injective c default_bucket
                (sym at ∙ ap (get_elem? tree.tree) (sym on_place) ∙ empty))
              refl
        | inr e ↦
            off_path key pos d p c (λ g. absurd (cc (e, eq→== (pos % 2 ^ d) (p % 2 ^ d) g)))
              (subst (All (Fits d p)) same fits) (tally_part (misplaced key pos) tree.tree j c at z)
      ]

  tally_split :
      (f : Block V → Bool)
      → ((b : Block V) → is_empty b ≡ true → f b ≡ false)
      → (xs ys zs : List (Block V)) → Perm (filled xs ++ filled ys) zs
      → tally f xs + tally f ys ≡ tally f zs
  tally_split f full xs ys zs p = omega (
    arith,
    tally-perm f (filled xs ++ filled ys) zs p,
    tally-append f (filled xs) (filled ys),
    tally-filled f xs full,
    tally-filled f ys full,
  )

  -- The blocks of the tree that are not on the path.
  pub path_rest :
      (self : CircuitOram V) (pos : ℕ) (old : List (Bucket V))
      → IsCircuitOram self
      → ReadPath self.tree pos 0 self.tree.height old
      → (rest : List (Block V)) × Perm
          (filled (concat old) ++ rest)
          (filled (concat self.tree.tree))
  path_rest self pos old t r =
      let n = self.tree.height in
      let (out, _, w) = Returns-some (
        write_buckets-WritePath pos n 0 old (empties V n) self.tree t.tree (omega arith) r.shape
          r.on_path (empties-Shaped V n) (empties-LevelsFit V n 0 pos)) in
      (filled (concat out.tree), rw (empties_blocks V n) at w.blocks)

  -- On a path that a key's position names is every block of the key that the tree has.
  pub path-Located :
      (self : CircuitOram V) (pos key : ℕ) (old : List (Bucket V))
      → IsCircuitOram self
      → Located self pos key
      → ReadPath self.tree pos 0 self.tree.height old
      → tally (matches key) (take stash_size self.stash ++ concat old)
        ≡ tally (matches key) (content self)
  path-Located self pos key old t known r =
      let front = take stash_size self.stash in
      let tree = self.tree in
      let n = tree.height in
      let (out, _, w) = Returns-some (
        write_buckets-WritePath pos n 0 old (empties V n) tree t.tree (omega arith) r.shape
          r.on_path (empties-Shaped V n) (empties-LevelsFit V n 0 pos)) in
      let moved : Perm (filled (concat old) ++ filled (concat out.tree))
          (filled (concat tree.tree)) =
        rw (empties_blocks V n) at w.blocks in
      let bad =
        tally_split (misplaced key pos) (misplaced_full key pos) (concat old) (concat out.tree)
          (filled (concat tree.tree)) moved in
      let good =
        tally_split (matches key) (matches_full key) (concat old) (concat out.tree)
          (filled (concat tree.tree)) moved in
      let all_bad = tally-append (misplaced key pos) (filled front) (filled (concat tree.tree)) in
      let no_bad : tally (misplaced key pos) (concat out.tree) ≡ 0 =
        omega (arith, bad, all_bad, known.here) in
      let height : n ≡ out.height = sym w.height in
      let on = subst (λ k. OnPath out pos 0 (empties V k)) height w.on_path in
      let no_good = emptied_path out key pos w.tree on no_bad in
      omega (
        arith,
        good,
        no_good,
        tally-append (matches key) front (concat old),
        tally-append (matches key) (filled front) (filled (concat tree.tree)),
        tally-filled (matches key) front (matches_full key),
      )
