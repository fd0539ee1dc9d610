-- ===== src/Oram/Linear/Memcpy.antt =====
-- crates/oram/src/linear_oram.rs: what `oblivious_memcpy` leaves in `dst`, entry by entry.
use native.Mathlib.Nat.{mod-lt}
use native.Mathlib.Decide.{dec_lt}
use rostl.Base.{
  ℕ, suc, ◌+◌, ◌%◌, ◌^◌, ◌≤◌, ◌<◌, ◌≡◌, refl, ap, sym, ◌∙◌, Option, some, List, ◌==◌, ltb, leb,
  ◌&&◌, Bool-cases, ==_iff, le→leb, ◌⊎◌, inl, inr, arith, length, get_elem?, set, if◌then◌else◌,
  le→ltb, lt→ltb, lt→leb, eq→==, length-set, get_elem?-set, get_elem?-some, true, Returns, returns,
  Returns-bind, for_range-Returns, take, drop, ◌++◌,
}
use mathlib.Core.List.{append-nil}
use rostl.Base.Remainder.{mod_injective, turn, unturn}
use rostl.Base.Rotation.{length-rotation, get_elem?-rotation}
use rostl.Primitives.{Cmov}
use rostl.Primitives.Usize.{checked_rem_lem}
use rostl.Sort.Rotate.Rounds.{rotate_left_within}
use rostl.Oram.Linear.{memcpy_round, oblivious_memcpy}

clash :
    (n off i k : ℕ)
    → ((off + k < i) ⊎ (i < off + k))
    → k < n
    → (leb off i && ltb i (off + n)) ≡ true
    → ¬ (i % n ≡ (off + k) % n)
clash n off i k (inl before) h c e = mod_injective n (off + k) i before (ground arith) (sym e)
clash n off i k (inr after) h c e = mod_injective n i (off + k) after (ground arith) e

module _ {A : Type 0} (src : List A) (off : ℕ) (dst : List A) where
  -- After `i` rounds.
  record Copied (i : ℕ) (out : List A) : Type 0 where
    size : length out ≡ length dst
    entry :
        (k : ℕ)
        → k < length dst
        → get_elem? out ((off + k) % length dst) ≡ (
            if ltb (off + k) i
            then get_elem? src (off + k)
            else get_elem? dst ((off + k) % length dst))

  not_here :
      (i : ℕ) (out : List A) (item old : A) (k : ℕ)
      → ((off + k < i) ⊎ (i < off + k))
      → get_elem? out (i % length dst) ≡ some old
      → k < length dst
      → (if i % length dst == (off + k) % length dst
          then some (if leb off i && ltb i (off + length dst) then item else old)
          else get_elem? out ((off + k) % length dst))
        ≡ get_elem? out ((off + k) % length dst)
  not_here i out item old k apart e hk =
      let n = length dst in
      elim (Bool-cases (i % n == (off + k) % n)) [
        | inr other ↦ rw other refl
        | inl same ↦
            let eq = (==_iff (i % n) ((off + k) % n)).0 same in
            elim (Bool-cases (leb off i && ltb i (off + n))) [
              | inr unchosen ↦ rw (same, unchosen) (sym e ∙ ap (get_elem? out) eq)
              | inl chosen ↦ absurd (clash n off i k apart hk chosen eq)
            ]
      ]

  Copied-at :
      (i : ℕ) (out : List A) (item old : A) (k : ℕ)
      → i < length src
      → get_elem? src i ≡ some item
      → get_elem? out (i % length dst) ≡ some old
      → k < length dst
      → Copied i out
      → get_elem?
          (set out (i % length dst) (if leb off i && ltb i (off + length dst) then item else old))
          ((off + k) % length dst)
        ≡ (if ltb (off + k) (suc i)
            then get_elem? src (off + k)
            else get_elem? dst ((off + k) % length dst))
  Copied-at i out item old k h e e' hk c =
      let n = length dst in
      let at =
        get_elem?-set out (i % n) ((off + k) % n)
          (if leb off i && ltb i (off + n) then item else old)
          (omega (arith, c.size, mod-lt i {m = n} (omega arith))) in
      at ∙ elim (dec_lt (off + k) i) [
        | yes before ↦
            not_here i out item old k (inl before) e' hk
            ∙ c.entry k hk
            ∙ rw (lt→ltb (off + k) i before, lt→ltb (off + k) (suc i) (omega arith)) refl
        | no h1 ↦ elim (dec_lt i (off + k)) [
          | yes after ↦
              not_here i out item old k (inr after) e' hk
              ∙ c.entry k hk
              ∙ rw (le→ltb (off + k) i (omega arith), le→ltb (off + k) (suc i) after) refl
          | no h2 ↦
              let same : off + k ≡ i = omega arith in
              rw
                (
                  same,
                  eq→== (i % n) (i % n) refl,
                  le→leb off i (omega arith),
                  lt→ltb i (off + n) (omega arith),
                  lt→ltb i (suc i) (omega arith),
                )
                (sym e)
        ]
      ]

  round-Copied :
      ⦃m : Cmov A⦄ (i : ℕ) (out : List A)
      → 0 < length dst
      → i < length src
      → Copied i out
      → Returns (Copied (suc i)) (memcpy_round src off i out)
  unfolding memcpy_round
  round-Copied ⦃m⦄ i out p h c =
      let (item, e) = get_elem?-some src i h in
      let (old, e') = get_elem?-some out (i % length dst) (omega (arith, c.size, mod-lt i p)) in
      rw
        (
          c.size,
          e,
          checked_rem_lem i (length dst) p,
          e',
          m.cmov_lem old item (leb off i && ltb i (off + length dst)),
        )
        (returns (record {
          size = length-set out (i % length dst) _ ∙ c.size;
          entry = λ k hk. Copied-at i out item old k h e e' hk c;
        }))

  -- What `oblivious_memcpy` leaves at `k`.
  abbrev pub copied : ℕ → Option A
  copied k =
      if ltb off (length src)
      then if ltb (off + k) (length src)
        then get_elem? src (off + k)
        else get_elem? dst ((off + k) % length dst)
      else get_elem? dst k

  pub record IsCopy (out : List A) : Type 0 where
    pub size : length out ≡ length dst
    pub entry : (k : ℕ) → k < length dst → get_elem? out k ≡ copied k

  rotation-IsCopy :
      (mid : List A)
      → 0 < length dst
      → off < length src
      → Copied (length src) mid
      → IsCopy (drop (off % length dst) mid ++ take (off % length dst) mid)
  rotation-IsCopy mid p h c =
      let n = length dst in
      let r = off % n in
      let small : r ≤ length mid = omega (arith, c.size, mod-lt off p) in
      record {
        size = length-rotation mid r small ∙ c.size;
        entry = λ k hk.
            get_elem?-rotation mid r k small (omega (arith, c.size))
            ∙ ap (get_elem? mid) (rw c.size (turn n off k hk))
            ∙ c.entry k hk
            ∙ rw (lt→ltb off (length src) h) refl;
      }

  kept-IsCopy : (mid : List A) → length src ≤ off → Copied (length src) mid → IsCopy mid
  kept-IsCopy mid h c = record {
    size = c.size;
    entry = λ k hk.
        let (i, hi, e) = unturn (length dst) off k hk in
        ap (get_elem? mid) (sym e)
        ∙ c.entry i hi
        ∙ rw (le→ltb (off + i) (length src) (omega arith), le→ltb off (length src) h, e) refl;
  }

  start-Copied : Copied 0 dst
  start-Copied = record { size = refl; entry = λ k hk. rw (le→ltb (off + k) 0 (omega arith)) refl }

  -- `oblivious_memcpy` into a slice that is not empty: every entry of `dst` is the source's, from
  -- the offset on, where the source has it; the others are old entries of `dst`, and none changes
  -- when the offset is beyond the source.
  pub oblivious_memcpy-IsCopy :
      ⦃m : Cmov A⦄
      → 0 < length dst
      → length dst < 2 ^ 63
      → Returns IsCopy (oblivious_memcpy dst src off)
  unfolding oblivious_memcpy
  oblivious_memcpy-IsCopy p b =
      Returns-bind
        (for_range-Returns Copied (length src) (memcpy_round src off) (length src) 0 dst
          (omega arith) (λ i out lo hi c. round-Copied i out p hi c) start-Copied)
        λ mid c. rw (checked_rem_lem off (length dst) p) (elim (dec_lt off (length src)) [
          | yes h ↦
              rw
                (
                  lt→leb (length src) off h,
                  rotate_left_within mid (off % length dst) (omega (arith, c.size))
                      (omega (arith, c.size, mod-lt off p)),
                )
                (returns (rotation-IsCopy mid p h c))
          | no h ↦
              rw
                (
                  le→leb (length src) off (omega arith),
                  rotate_left_within mid 0 (omega (arith, c.size)) (omega arith),
                  append-nil mid,
                )
                (returns (kept-IsCopy mid (omega arith) c))
        ])
