-- ===== src/Oram/Circuit/Held.antt =====
-- crates/oram/src/circuit_oram.rs: which block `evict_once_fast` holds after a level, and the last
-- level.
use mathlib.Core.List.Perm
use mathlib.Core.Option.{some-injective}
use rostl.Base.{
  ℕ, zero, suc, ◌+◌, ◌<◌, ◌≡◌, refl, ap, Bool, true, false, ◌&&◌, ◌||◌, List, [], ◌∷◌, ◌++◌, Perm,
  ◌⊎◌, inl, inr, Bool-cases, ◌==◌, arith, length, get_elem?, some, eq→==, ne→==,
}
use rostl.Primitives.{Cmov}
use rostl.Oram.Circuit.Blocks.{Block, is_empty}
use rostl.Oram.Circuit.Filled.{one, filled, All, perm_past, one_empty}
use rostl.Oram.Circuit.Passes.{any_empty, move_slots, place_last}

no_flag : (a c : Bool) → ((a && false) || (c && false)) ≡ false
no_flag true true = refl
no_flag true false = refl
no_flag false true = refl
no_flag false false = refl

write_flag : (a c : Bool) → ((a && false) || (c && true)) ≡ c
write_flag true true = refl
write_flag true false = refl
write_flag false true = refl
write_flag false false = refl

-- The held block went to an empty slot.
pub record Placed {V : Type 0} (hold : Block V) (slots out : List (Block V)) : Type 1 where
  pub size : length out ≡ length slots
  pub blocks : Perm (filled out) (one hold ++ filled slots)
  pub all : (P : Block V → Type 0) → P hold → All P slots → All P out

module _ {V : Type 0} ⦃m : Cmov (Block V)⦄ where
  -- With no flag set nothing changes.
  pub move_slots_still :
      (idx best : ℕ) (hold : Block V) (slots : List (Block V))
      → move_slots idx best false false hold slots ≡ (hold, slots)
  unfolding move_slots
  move_slots_still idx best hold [] = refl
  move_slots_still idx best hold (b ∷ slots) =
      rw
        (
          no_flag (best == idx) (is_empty b),
          m.cxchg_lem hold b false,
          move_slots_still (suc idx) best hold slots,
        )
        refl

  move_slots_after :
      (idx best : ℕ) (hold : Block V) (slots : List (Block V))
      → best < idx
      → move_slots idx best true false hold slots ≡ (hold, slots)
  unfolding move_slots
  move_slots_after idx best hold [] h = refl
  move_slots_after idx best hold (b ∷ slots) h = elim (Bool-cases (is_empty b)) [
    | inl e ↦
        rw
          (
            e,
            ne→== best idx (omega arith),
            m.cxchg_lem hold b false,
            move_slots_after (suc idx) best hold slots (omega arith),
          )
          refl
    | inr e ↦
        rw
          (
            e,
            ne→== best idx (omega arith),
            m.cxchg_lem hold b false,
            move_slots_after (suc idx) best hold slots (omega arith),
          )
          refl
  ]

  -- At a level that gives a block away, that block is held.
  pub move_slots_source :
      (idx best at : ℕ) (hold b : Block V) (slots : List (Block V))
      → get_elem? slots at ≡ some b
      → best ≡ idx + at
      → (move_slots idx best true false hold slots).0 ≡ b
  unfolding move_slots
  move_slots_source idx best at hold b [] e h = absurd (cc)
  move_slots_source idx best zero hold b (c ∷ slots) e h =
      rw
        (
          eq→== best idx (omega (arith, h)),
          m.cxchg_lem hold c true,
          move_slots_after (suc idx) best c slots (omega (arith, h)),
        )
        (some-injective c b e)
  move_slots_source idx best (suc at) hold b (c ∷ slots) e h =
      let rest = move_slots_source (suc idx) best at hold b slots e (omega (arith, h)) in
      elim (Bool-cases (is_empty c)) [
        | inl t ↦ rw (t, ne→== best idx (omega (arith, h)), m.cxchg_lem hold c false) rest
        | inr t ↦ rw (t, ne→== best idx (omega (arith, h)), m.cxchg_lem hold c false) rest
      ]

  -- A held empty block stays empty, and an empty slot makes it so.
  pub move_slots_empty :
      (idx best : ℕ) (hold : Block V) (slots : List (Block V))
      → (is_empty hold ≡ true) ⊎ (any_empty slots ≡ true)
      → is_empty (move_slots idx best false true hold slots).0 ≡ true
  unfolding move_slots any_empty
  move_slots_empty idx best hold [] (inl e) = e
  move_slots_empty idx best hold [] (inr e) = absurd (cc)
  move_slots_empty idx best hold (b ∷ slots) e = elim (Bool-cases (is_empty b)) [
    | inl t ↦
        rw (write_flag (best == idx) (is_empty b), t, m.cxchg_lem hold b true)
          (move_slots_empty (suc idx) best b slots (inl t))
    | inr f ↦
        rw (write_flag (best == idx) (is_empty b), f, m.cxchg_lem hold b false)
          (move_slots_empty (suc idx) best hold slots
            (elim e [ inl h ↦ inl h | inr h ↦ inr (rw f at h) ]))
  ]

  pub place_last_none :
      (hold : Block V) (written : Bool) (slots : List (Block V))
      → place_last false hold written slots ≡ slots
  unfolding place_last
  place_last_none hold written [] = refl
  place_last_none hold written (b ∷ slots) = elim (Bool-cases (is_empty b)) [
    | inl e ↦ rw (e, m.cmov_lem b hold false, place_last_none hold (written || false) slots) refl
    | inr e ↦ rw (e, m.cmov_lem b hold false, place_last_none hold (written || false) slots) refl
  ]

  place_last_written :
      (hold : Block V) (slots : List (Block V)) → place_last true hold true slots ≡ slots
  unfolding place_last
  place_last_written hold [] = refl
  place_last_written hold (b ∷ slots) = elim (Bool-cases (is_empty b)) [
    | inl e ↦ rw (e, m.cmov_lem b hold false, place_last_written hold slots) refl
    | inr e ↦ rw (e, m.cmov_lem b hold false, place_last_written hold slots) refl
  ]

  pub place_last-Placed :
      (hold : Block V) (slots : List (Block V))
      → any_empty slots ≡ true
      → Placed hold slots (place_last true hold false slots)
  unfolding place_last any_empty
  place_last-Placed hold [] e = absurd (cc)
  place_last-Placed hold (b ∷ slots) e = elim (Bool-cases (is_empty b)) [
    | inl t ↦
        rw (t, m.cmov_lem b hold true, place_last_written hold slots)
          (record { size = refl; blocks = rw (one_empty b t) Perm.rfl; all = λ P h p. (h, p.1) })
    | inr f ↦
        let rest = place_last-Placed hold slots (rw f at e) in
        rw (f, m.cmov_lem b hold false)
          (record {
            size = ap suc rest.size;
            blocks =
                Perm.trans (Perm.append_left (one b) rest.blocks) (perm_past (one b) (one hold) _);
            all = λ P h p. (p.0, rest.all P h p.1);
          })
  ]
