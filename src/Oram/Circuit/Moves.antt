-- ===== src/Oram/Circuit/Moves.antt =====
-- crates/oram/src/circuit_oram.rs: the moves of `evict_once_fast` over one level's slots.
use mathlib.Core.List.Perm
use rostl.Base.{
  ℕ, zero, suc, ◌+◌, ◌≡◌, refl, ap, Bool, true, false, ◌&&◌, ◌||◌, List, [], ◌∷◌, ◌++◌, Perm, inl,
  inr, Bool-cases, ◌==◌, arith, length, get_elem?, some, eq→==, ne→==,
}
use mathlib.Core.Option.{some-injective}
use rostl.Primitives.{Cmov}
use rostl.Oram.Circuit.Blocks.{Block, is_empty}
use rostl.Oram.Circuit.Filled.{one, filled, All, perm_past}
use rostl.Oram.Circuit.Passes.{take_deepest, move_slots}
use rostl.Oram.Circuit.Slots.{take_deepest_after}

-- A full block left an array: the others stay.
pub record Taken {V : Type 0} (slots : List (Block V)) (b hold : Block V) (out : List (Block V))
    : Type 0 where
  pub size : length out ≡ length slots
  pub held : hold ≡ b
  pub blocks : Perm (one b ++ filled out) (filled slots)

-- What was held and the slots are rearranged; what holds of all of them holds afterwards.
pub record Moved {V : Type 0} (hold : Block V) (slots : List (Block V)) (hold' : Block V)
    (out : List (Block V)) : Type 1 where
  pub size : length out ≡ length slots
  pub blocks : Perm (one hold' ++ filled out) (one hold ++ filled slots)
  pub all : (P : Block V → Type 0) → P hold → All P slots → P hold' × All P out

module _ {V : Type 0} ⦃m : Cmov (Block V)⦄ where
  pub take_deepest-Taken :
      (idx best target at : ℕ) (hold b : Block V) (slots : List (Block V))
      → (target == 0) ≡ false
      → get_elem? slots at ≡ some b
      → best ≡ idx + at
      → let out = take_deepest idx best target hold slots in Taken slots b out.0 out.1
  unfolding take_deepest
  take_deepest-Taken idx best target at hold b [] t e h = absurd (cc)
  take_deepest-Taken idx best target zero hold b (c ∷ slots) t e h =
      let same = some-injective c b e in
      rw
        (
          t,
          eq→== best idx (omega (arith, h)),
          m.cmov_lem hold c true,
          take_deepest_after (suc idx) best target c slots (omega (arith, h)),
          same,
        )
        (record { size = refl; held = refl; blocks = Perm.rfl })
  take_deepest-Taken idx best target (suc at) hold b (c ∷ slots) t e h =
      let rest = take_deepest-Taken (suc idx) best target at hold b slots t e (omega (arith, h)) in
      rw (ne→== best idx (omega (arith, h)), m.cmov_lem hold c false)
        (record {
          size = ap suc rest.size;
          held = rest.held;
          blocks = Perm.trans (perm_past (one b) (one c) _) (Perm.append_left (one c) rest.blocks);
        })

  pub move_slots-Moved :
      (idx best : ℕ) (has_target place : Bool) (hold : Block V) (slots : List (Block V))
      → let out = move_slots idx best has_target place hold slots in Moved hold slots out.0 out.1
  unfolding move_slots
  move_slots-Moved idx best has_target place hold [] = record {
    size = refl;
    blocks = Perm.rfl;
    all = λ P h p. (h, p);
  }
  move_slots-Moved idx best has_target place hold (b ∷ slots) =
      elim (Bool-cases ((best == idx && has_target) || (is_empty b && place))) [
        | inl e ↦
            let rest = move_slots-Moved (suc idx) best has_target place b slots in
            rw (e, m.cxchg_lem hold b true)
              (record {
                size = ap suc rest.size;
                blocks =
                    Perm.trans (perm_past _ (one hold) _) (Perm.append_left (one hold) rest.blocks);
                all = λ P h p. let (l, r) = rest.all P p.0 p.1 in (l, (h, r));
              })
        | inr e ↦
            let rest = move_slots-Moved (suc idx) best has_target place hold slots in
            rw (e, m.cxchg_lem hold b false)
              (record {
                size = ap suc rest.size;
                blocks = Perm.trans (perm_past _ (one b) _) (
                    Perm.trans (Perm.append_left (one b) rest.blocks)
                      (perm_past (one b) (one hold) _));
                all = λ P h p. let (l, r) = rest.all P h p.1 in (l, (p.0, r));
              })
      ]
