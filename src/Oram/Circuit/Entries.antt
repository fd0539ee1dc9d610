-- ===== src/Oram/Circuit/Entries.antt =====
-- crates/oram/src/circuit_oram.rs: what the memory holds for a key, before and after an operation.
use mathlib.Core.Bool.{Bool-discrete}
use mathlib.Core.List
use mathlib.Core.List.{perm-replicate}
use mathlib.Core.List.Perm
use mathlib.Core.Logic.{if_pos, if_neg}
use rostl.Base.{
  ℕ, suc, ◌≤◌, ◌≡◌, refl, ap, ap₂, subst, ◌∙◌, arith, true, false, Bool-cases, inl, inr, List, [],
  ◌∷◌, ◌++◌, Perm, length, ◌==◌, eq→==, ne→==, ◌<◌,
}
use rostl.Oram.Circuit.Blocks.{Block, matches, dummy_pos}
use rostl.Oram.Circuit.{CircuitOram}
use rostl.Oram.Circuit.Filled.{one, All}
use rostl.Oram.Circuit.Elements.{with_key}
use rostl.Oram.Circuit.State.{content}
use rostl.Oram.Circuit.Tally.{tally, misplaced, length-with_key}
use rostl.Oram.Circuit.Location.{Located}
use rostl.Oram.Circuit.Access.{Accessed}
use rostl.Oram.Circuit.Relocate.{tally_none, matches_other, key_other, one_none, tally-one, at_home}

module _ {V : Type 0} (k : ℕ) where
  with_key-filter :
      (xs : List (Block V)) → with_key k xs ≡ List.filter (λ b. Bool-discrete (matches k b) true) xs
  with_key-filter [] = refl
  with_key-filter (x ∷ xs) = elim (Bool-cases (matches k x)) [
    | inl e ↦ rw (if_pos (Bool-discrete (matches k x) true) e, e) (ap (◌∷◌ x) (with_key-filter xs))
    | inr e ↦
        rw (if_neg (Bool-discrete (matches k x) true) (λ g. absurd (cc (e, g))), e)
          (with_key-filter xs)
  ]

  pub with_key-perm : (xs ys : List (Block V)) → Perm xs ys → Perm (with_key k xs) (with_key k ys)
  with_key-perm xs ys p =
      rw (with_key-filter xs, with_key-filter ys)
        (Perm.filter (λ b. Bool-discrete (matches k b) true) p)

  pub with_key-append :
      (xs ys : List (Block V)) → with_key k (xs ++ ys) ≡ with_key k xs ++ with_key k ys
  with_key-append [] ys = refl
  with_key-append (x ∷ xs) ys = elim (Bool-cases (matches k x)) [
    | inl e ↦ rw e (ap (◌∷◌ x) (with_key-append xs ys))
    | inr e ↦ rw e (with_key-append xs ys)
  ]

  keyed_whole : (xs : List (Block V)) → All (λ b. matches k b ≡ true) xs → with_key k xs ≡ xs
  keyed_whole [] h = refl
  keyed_whole (x ∷ xs) h = rw h.0 (ap (◌∷◌ x) (keyed_whole xs h.1))

  keyed_nothing : (xs : List (Block V)) → tally (matches k) xs ≡ 0 → with_key k xs ≡ []
  keyed_nothing [] h = refl
  keyed_nothing (x ∷ xs) h = elim (Bool-cases (matches k x)) [
    | inl e ↦ absurd (omega (arith, rw e at h))
    | inr e ↦ rw e (keyed_nothing xs (rw e at h))
  ]

-- The memory's blocks of the key.
abbrev pub held : {V : Type 0} → CircuitOram V → ℕ → List (Block V)
held self key = with_key key (content self)

module _ {V : Type 0} (Vset : IsSet V) where
  Block-set : IsSet (Block V)
  Block-set = hlevel

  -- A list that rearranges one block is that block.
  perm_single : (b : Block V) (xs : List (Block V)) → Perm xs (b ∷ []) → xs ≡ b ∷ []
  perm_single b xs p = (perm-replicate Block-set 1 b).0 p

  perm_at_most_one : (xs ys : List (Block V)) → Perm xs ys → length ys ≤ 1 → xs ≡ ys
  perm_at_most_one xs [] p h = Perm.eq-nil p
  perm_at_most_one xs (y ∷ []) p h = perm_single y xs p
  perm_at_most_one xs (y ∷ z ∷ ys) p h = absurd (omega arith)

module _ {V : Type 0} (Vset : IsSet V) {self out : CircuitOram V} {key : ℕ} {block : Block V}
    {removed : List (Block V)} (a : Accessed self key block removed out) where
  -- The blocks that an operation has removed are those that the memory had for the key.
  pub removed-held : length (held self key) ≤ 1 → removed ≡ held self key
  removed-held h =
      perm_at_most_one Vset removed (held self key)
        (Perm.symm (subst (Perm (held self key)) keyed (with_key-perm key _ _ a.before))) h
    where
      keyed : with_key key (removed ++ a.rest) ≡ removed
      keyed =
          with_key-append key removed a.rest
          ∙ ap₂ (◌++◌) (keyed_whole key removed a.of_key) (keyed_nothing key a.rest a.no_other)
          ∙ List.append-nil removed

  -- Afterwards the memory has the new block for the key, unless that is empty.
  pub held_after : held out key ≡ with_key key (one block)
  held_after =
      perm_at_most_one Vset (held out key) (with_key key (one block))
        (subst (Perm (held out key)) keyed (with_key-perm key _ _ a.after))
        (omega (arith, length-with_key key (one block), tally-one (matches key) block))
    where
      keyed : with_key key (one block ++ a.rest) ≡ with_key key (one block)
      keyed =
          with_key-append key (one block) a.rest
          ∙ ap (λ xs. with_key key (one block) ++ xs) (keyed_nothing key a.rest a.no_other)
          ∙ List.append-nil (with_key key (one block))

  -- What the memory has for another key stays.
  pub held_other :
      (k : ℕ) → block.key ≡ key → ¬ (k ≡ key) → length (held self k) ≤ 1 → held out k ≡ held self k
  held_other k same ne h =
      perm_at_most_one Vset (held out k) (held self k) (Perm.trans after (Perm.symm before)) h
    where
      not_removed : with_key k removed ≡ []
      not_removed = keyed_nothing k removed (
          tally_none (matches k) (λ b. matches key b ≡ true) removed (λ b. matches_other k key b ne)
            a.of_key)

      not_new : with_key k (one block) ≡ []
      not_new =
          keyed_nothing k (one block)
            (one_none (matches k) block (inr (key_other k block (λ e. ne (e ∙ same)))))

      before : Perm (held self k) (with_key k a.rest)
      before =
          subst (Perm (held self k))
            (with_key-append k removed a.rest ∙ ap (λ xs. xs ++ with_key k a.rest) not_removed)
            (with_key-perm k _ _ a.before)

      after : Perm (held out k) (with_key k a.rest)
      after =
          subst (Perm (held out k))
            (with_key-append k (one block) a.rest ∙ ap (λ xs. xs ++ with_key k a.rest) not_new)
            (with_key-perm k _ _ a.after)

module _ {V : Type 0} where
  misplaced_held :
      (k pos : ℕ) (xs : List (Block V))
      → tally (misplaced k pos) xs ≡ tally (misplaced k pos) (with_key k xs)
  misplaced_held k pos [] = refl
  misplaced_held k pos (x ∷ xs) = elim (Bool-cases (matches k x)) [
    | inr e ↦ rw e (misplaced_held k pos xs)
    | inl e ↦
        rw (e, e)
          (elim (Bool-cases (x.pos == pos)) [
            | inl g ↦ rw g (misplaced_held k pos xs)
            | inr g ↦ rw g (ap suc (misplaced_held k pos xs))
          ])
  ]

  -- A key without blocks may be looked for on any path.
  pub unheld-Located :
      (self : CircuitOram V) (key pos : ℕ) → held self key ≡ [] → Located self pos key
  unheld-Located self key pos e = record {
    once = omega (arith, length-with_key key (content self), ap length e);
    here = misplaced_held key pos (content self) ∙ ap (tally (misplaced key pos)) e;
  }

  -- A key with one block is on that block's path.
  pub held-Located :
      (self : CircuitOram V) (key pos : ℕ) (value : V)
      → held self key ≡ (record { pos = pos; key = key; value = value }) ∷ []
      → Located self pos key
  held-Located self key pos value e = record {
    once = omega (arith, length-with_key key (content self), ap length e);
    here =
        misplaced_held key pos (content self)
        ∙ ap (tally (misplaced key pos)) e
        ∙ rw (at_home key pos (record { pos = pos; key = key; value = value }) refl) refl;
  }

  -- A full block is what the memory has for its key after it is written.
  pub full_block :
      (pos key : ℕ) (value : V)
      → pos < dummy_pos
      → with_key key (one (record { pos = pos; key = key; value = value }))
        ≡ (record { pos = pos; key = key; value = value }) ∷ []
  full_block pos key value h =
      let full : (pos == dummy_pos) ≡ false = ne→== pos dummy_pos (λ e. omega (arith, e, h)) in
      rw (full, full, eq→== key key refl) refl
