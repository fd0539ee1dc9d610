-- ===== src/Oram/Circuit/Levels.antt =====
-- crates/oram/src/circuit_oram.rs: the three passes of `evict_once_fast` below the first level.
use mathlib.Core.List
use mathlib.Core.List.Perm
use rostl.Base.{
  ℕ, zero, suc, ◌≤◌, ◌≡◌, refl, ap, ap₂, true, List, [], ◌∷◌, ◌++◌, Perm, ◌⊎◌, inl, inr, Bool-cases,
  ltb, leb, arith, length, ltb→lt, leb→le,
}
use rostl.Primitives.Usize.{cmov_base}
use rostl.Primitives.Zeros.{shared_bits}
use rostl.Oram.Circuit.Blocks.{Block, is_empty}
use rostl.Oram.Circuit.Passes.{Plan, any_empty, scan_slots}
use rostl.Oram.Circuit.Filled.{one, filled, filled-append, one_empty, perm_past, All, Fits}
use rostl.Oram.Circuit.Slots.{scan_slots_lem}
use rostl.Oram.Circuit.Moves.{Moved}
use rostl.Oram.Circuit.Held.{Placed}
use rostl.Oram.Circuit.Targets.{Source, Planned, Holds, Prepared}
use rostl.Oram.Circuit.{concat}

-- The blocks of every level from `i` on may stay there.
abbrev pub LevelsFit : {V : Type 0} → ℕ → ℕ → List (List (Block V)) → Type 0
LevelsFit i pos [] = zero ≡ zero
LevelsFit i pos (slots ∷ levels) = All (Fits i pos) slots × LevelsFit (suc i) pos levels

abbrev pub sizes : {V : Type 0} → List (List (Block V)) → List ℕ
sizes [] = []
sizes (slots ∷ levels) = length slots ∷ sizes levels

-- The levels after the third pass: what was held is among them.
pub record Evicted {V : Type 0} (i pos : ℕ) (hold : Block V) (levels out : List (List (Block V)))
    : Type 0 where
  pub size : sizes out ≡ sizes levels
  pub blocks : Perm (filled (concat out)) (one hold ++ filled (concat levels))
  pub fit : LevelsFit i pos out

abbrev pub plan_of : {V : Type 0} → ℕ → ℕ → ℕ → ℕ → ℕ → List (Block V) → Plan V
plan_of pos i idx src dst slots = record {
  slots = slots;
  deepest = cmov_base 0 src (leb (suc i) dst);
  deepest_idx = (scan_slots pos idx 0 0 slots).1;
  has_empty = any_empty slots;
  target = 0;
}

module _ {V : Type 0} (pos i idx src dst : ℕ) (slots : List (Block V)) where
  abbrev pub scan : ℕ × ℕ
  scan = scan_slots pos idx 0 0 slots

  abbrev pub src' : ℕ
  src' = cmov_base src (suc i) (ltb dst scan.0)

  abbrev pub dst' : ℕ
  dst' = cmov_base dst scan.0 (ltb dst scan.0)

  plan_of-reached :
      let plan = plan_of pos i idx src dst slots in
      (plan.deepest ≡ 0) ⊎ ((plan.deepest ≡ src) × (suc i ≤ dst))
  plan_of-reached = elim (Bool-cases (leb (suc i) dst)) [
    | inl e ↦ rw e (inr (refl, leb→le (suc i) dst e))
    | inr e ↦ rw e (inl refl)
  ]

  pub plan_of-Prepared : Prepared pos i idx src dst src' dst' (plan_of pos i idx src dst slots)
  plan_of-Prepared = elim (Bool-cases (ltb dst scan.0)) [
    | inr e ↦ rw e (record {
      target = refl;
      empty = refl;
      reached = plan_of-reached;
      found = inl (refl, refl);
    })
    | inl e ↦ rw e (record {
      target = refl;
      empty = refl;
      reached = plan_of-reached;
      found = elim (scan_slots_lem pos idx 0 0 slots) [
        | inl none_found ↦ absurd (omega (arith, ltb→lt dst scan.0 e, none_found.0))
        | inr f ↦ inr (refl, f)
      ];
    })
  ]

  pub Source-next : Source i src dst → Source (suc i) src' dst'
  Source-next s = elim (Bool-cases (ltb dst scan.0)) [
    | inr e ↦
        rw e
          (record { above = omega (arith, s.above); no_level = s.no_level; no_depth = s.no_depth })
    | inl e ↦ rw e (record {
      above = omega arith;
      no_level = λ z. absurd (omega (arith, z));
      no_depth = λ z. absurd (omega (arith, z, ltb→lt dst scan.0 e));
    })
  ]

module _ {V : Type 0} (i pos : ℕ) where
  -- What goes as deep as level `i` may stay there.
  pub Holds-fit :
      (s d src dst : ℕ) (hold : Block V)
      → Planned i src dst s d
      → Holds pos d hold
      → Fits i pos hold
  Holds-fit s d src dst hold planned (inl (_, e)) full = absurd (cc)
  Holds-fit s d src dst hold (inl (_, z)) (inr (nz, _, le)) full = absurd (omega (arith, z, nz))
  Holds-fit s d src dst hold (inr (_, _, deep, _)) (inr (nz, _, le)) full =
      shared_bits i 32 hold.pos pos (omega (arith, deep, le))

  pub Evicted-cons :
      (hold hold' : Block V) (slots out : List (Block V)) (levels outs : List (List (Block V)))
      → Moved hold slots hold' out
      → Fits i pos hold
      → All (Fits i pos) slots
      → Evicted (suc i) pos hold' levels outs
      → Evicted i pos hold (slots ∷ levels) (out ∷ outs)
  Evicted-cons hold hold' slots out levels outs moved fits all rest = record {
    size = ap₂ ◌∷◌ moved.size rest.size;
    blocks =
        rw (filled-append out (concat outs), filled-append slots (concat levels))
          (Perm.trans (Perm.append_left (filled out) rest.blocks) (
            Perm.trans (perm_past (filled out) (one hold') (filled (concat levels))) (
              rw
                (
                  ← List.append_assoc (one hold') (filled out) (filled (concat levels)),
                  ← List.append_assoc (one hold) (filled slots) (filled (concat levels)),
                )
                (Perm.append_right (filled (concat levels)) moved.blocks))));
    fit = ((moved.all (Fits i pos) fits all).1, rest.fit);
  }

  pub Evicted-last :
      (hold : Block V) (slots out : List (Block V))
      → Placed hold slots out
      → Fits i pos hold
      → All (Fits i pos) slots
      → Evicted i pos hold (slots ∷ []) (out ∷ [])
  Evicted-last hold slots out placed fits all = record {
    size = ap (λ n. n ∷ []) placed.size;
    blocks = rw (List.append-nil slots, List.append-nil out) placed.blocks;
    fit = (placed.all (Fits i pos) fits all, refl);
  }

  pub Placed-empty :
      (hold : Block V) (slots : List (Block V)) → is_empty hold ≡ true → Placed hold slots slots
  Placed-empty hold slots e = record {
    size = refl;
    blocks = rw (one_empty hold e) Perm.rfl;
    all = λ P h p. p;
  }
