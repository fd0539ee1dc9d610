-- ===== src/Oram/Circuit/Slots.antt =====
-- crates/oram/src/circuit_oram.rs: the passes of `evict_once_fast` over one level's slots.
use rostl.Base.{
  ℕ, suc, ◌+◌, ◌<◌, ◌≡◌, refl, true, false, not, ◌&&◌, List, [], ◌∷◌, ◌⊎◌, inl, inr, Bool-cases,
  ltb, ◌==◌, arith, get_elem?, some, ne→==,
}
use rostl.Primitives.{Cmov}
use rostl.Oram.Circuit.Blocks.{Block, is_empty, common_suffix_length}
use rostl.Oram.Circuit.Passes.{scan_slots, any_empty, take_deepest}

-- What a scan over slots that start at index `idx` has found, if it has found a level.
pub record Found {V : Type 0} (pos idx level best : ℕ) (slots : List (Block V)) : Type 0 where
  pub at : ℕ
  pub block : Block V
  pub inside : get_elem? slots at ≡ some block
  pub index : best ≡ idx + at
  pub full : is_empty block ≡ false
  pub depth : level ≡ suc (common_suffix_length block.pos pos)

module _ {V : Type 0} where
  full_deeper :
      (b : Block V) (dst level : ℕ)
      → (not (is_empty b) && ltb dst level) ≡ true
      → is_empty b ≡ false
  full_deeper b dst level e = elim (Bool-cases (is_empty b)) [
    | inr f ↦ f
    | inl t ↦ absurd (cc (rw t at e))
  ]

  Found-cons :
      {pos idx level best : ℕ} {slots : List (Block V)} (b : Block V)
      → Found pos (suc idx) level best slots
      → Found pos idx level best (b ∷ slots)
  Found-cons b f = record {
    at = suc f.at;
    block = f.block;
    inside = f.inside;
    index = omega (arith, f.index);
    full = f.full;
    depth = f.depth;
  }

  pub scan_slots_lem :
      (pos idx dst best : ℕ) (slots : List (Block V))
      → let scan = scan_slots pos idx dst best slots in
        ((scan.0 ≡ dst) × (scan.1 ≡ best)) ⊎ Found pos idx scan.0 scan.1 slots
  unfolding scan_slots
  scan_slots_lem pos idx dst best [] = inl (refl, refl)
  scan_slots_lem pos idx dst best (b ∷ slots) =
      let level = suc (common_suffix_length b.pos pos) in
      elim (Bool-cases (not (is_empty b) && ltb dst level)) [
        | inr e ↦
            rw (e, scan_slots)
              (elim (scan_slots_lem pos (suc idx) dst best slots) [
                | inl same ↦ inl same
                | inr f ↦ inr (Found-cons b f)
              ])
        | inl e ↦
            rw (e, scan_slots)
              (elim (scan_slots_lem pos (suc idx) level idx slots) [
                | inl same ↦ inr (record {
                  at = 0;
                  block = b;
                  inside = refl;
                  index = omega (arith, same.1);
                  full = (full_deeper b dst level e);
                  depth = same.0;
                })
                | inr f ↦ inr (Found-cons b f)
              ])
      ]

  pub any_empty_intro :
      (slots : List (Block V))
      → any_empty slots ≡ true
      → (k : ℕ) × (b : Block V) × (get_elem? slots k ≡ some b) × (is_empty b ≡ true)
  unfolding any_empty
  any_empty_intro [] e = absurd (cc)
  any_empty_intro (b ∷ slots) e = elim (Bool-cases (is_empty b)) [
    | inl t ↦ (0, b, refl, t)
    | inr f ↦ let (k, c, at, t) = any_empty_intro slots (rw f at e) in (suc k, c, at, t)
  ]

module _ {V : Type 0} ⦃m : Cmov (Block V)⦄ where
  -- At the first level: every index but the right one is passed over.
  pub take_deepest_after :
      (idx best target : ℕ) (hold : Block V) (slots : List (Block V))
      → best < idx
      → take_deepest idx best target hold slots ≡ (hold, slots)
  unfolding take_deepest
  take_deepest_after idx best target hold [] h = refl
  take_deepest_after idx best target hold (b ∷ slots) h =
      rw
        (
          ne→== best idx (omega arith),
          m.cmov_lem hold b false,
          take_deepest_after (suc idx) best target hold slots (omega arith),
        )
        refl

  pub take_deepest_none :
      (idx best : ℕ) (hold : Block V) (slots : List (Block V))
      → take_deepest idx best 0 hold slots ≡ (hold, slots)
  unfolding take_deepest
  take_deepest_none idx best hold [] = refl
  take_deepest_none idx best hold (b ∷ slots) = elim (Bool-cases (best == idx)) [
    | inl e ↦ rw (e, m.cmov_lem hold b false, take_deepest_none (suc idx) best hold slots) refl
    | inr e ↦ rw (e, m.cmov_lem hold b false, take_deepest_none (suc idx) best hold slots) refl
  ]
