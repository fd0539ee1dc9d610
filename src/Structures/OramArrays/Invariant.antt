-- ===== src/Structures/OramArrays/Invariant.antt =====
-- crates/datastructures/src/array.rs: what holds of a LongArray or DynamicArray whose position map
-- has its first level only.
use rostl.Base.{
  ℕ, ◌*◌, ◌^◌, ◌≤◌, ◌<◌, ◌≡◌, refl, sym, ◌∙◌, subst, arith, true, List, length, take, ◌==◌, ==_iff,
  eq→==, Bool-cases, inl, inr, ◌⊎◌, if◌then◌else◌,
}
use rostl.Oram.Circuit.{CircuitOram}
use rostl.Oram.Circuit.Blocks.{Block, dummy_pos, stash_size}
use rostl.Oram.Circuit.Passes.{any_empty}
use rostl.Oram.Circuit.State.{IsCircuitOram}
use rostl.Oram.Circuit.Location.{Located}
use rostl.Oram.Circuit.Access
use rostl.Oram.Circuit.Relocate.{Accessed-Located, Accessed-other-Located}
use rostl.Oram.Recursive.{RecursivePositionMap, fan_out}
use rostl.Oram.Recursive.Flat
use rostl.Oram.Recursive.Flat.{IsFlat, position_of, access_position-Accessed}
use rostl.Structures.OramArrays.{OramArray, Rng}

-- An array of the length: the position map has every index and the position of its one block, and
-- the memory has an empty slot in the stash.
pub record IsArray {A : Type 0} (len : ℕ) (self : OramArray A) : Type 0 where
  pub flat : IsFlat self.pos_map
  pub covers : self.pos_map.n ≡ len
  pub indices : len ≤ length self.pos_map.linear_oram.entries * fan_out
  pub state : IsCircuitOram self.oram
  pub leaves : len ≤ self.oram.max_n
  pub inside : (k : ℕ) → k < len → position_of self.pos_map k < len
  pub located : (k : ℕ) → k < len → Located self.oram (position_of self.pos_map k) k

module _ {A : Type 0} (len : ℕ) (self : OramArray A) (t : IsArray len self) (index new_pos : ℕ)
    (h : index < len) (small : new_pos < len) where
  -- The array after an access that has moved the index to the new position.
  pub moved-IsArray :
      (pos_map : RecursivePositionMap) (oram : CircuitOram A) (block : Block A)
      (removed : List (Block A))
      → Flat.Accessed self.pos_map index new_pos pos_map
      → Access.Accessed self.oram index block removed oram
      → block.key ≡ index
      → (block.pos ≡ new_pos) ⊎ (block.pos ≡ dummy_pos)
      → IsArray len (record { oram = oram; pos_map = pos_map })
  moved-IsArray pos_map oram block removed p a key placed = record {
    flat = p.flat;
    covers = p.n ∙ t.covers;
    indices = omega (arith, p.size, t.indices);
    state = a.state;
    leaves = omega (arith, a.max_n, t.leaves);
    inside = λ k hk. elim (Bool-cases (index == k)) [
      | inl e ↦ subst (λ x. x < len) (sym (position k hk ∙ rw e refl)) small
      | inr e ↦ subst (λ x. x < len) (sym (position k hk ∙ rw e refl)) (t.inside k hk)
    ];
    located = λ k hk. elim (Bool-cases (index == k)) [
      | inl e ↦
          let same = (==_iff index k).0 e in
          subst (λ x. Located oram x k) (sym (position k hk ∙ rw e refl))
            (subst (Located oram new_pos) same (Accessed-Located new_pos a placed))
      | inr e ↦
          subst (λ x. Located oram x k) (sym (position k hk ∙ rw e refl))
            (Accessed-other-Located k (position_of self.pos_map k) a key
              (λ g. absurd (cc (e, eq→== index k (sym g)))) (t.located k hk))
    ];
  }
    where
      position :
          (k : ℕ)
          → k < len
          → position_of pos_map k ≡ (if index == k then new_pos else position_of self.pos_map k)
      position k hk = p.position k (omega (arith, hk, t.indices))

-- When an array of the length can be accessed at the index: the index is within it, the stash has
-- an empty slot, and the generator draws within the length.
pub record Accessible {A : Type 0} (rng : Rng) (len : ℕ) (self : OramArray A) (index : ℕ)
    : Type 0 where
  pub array : IsArray len self
  pub room : any_empty (take stash_size self.oram.stash) ≡ true
  pub inside : index < len
  pub draw : rng 0 len < len
  pub bound : len < 2 ^ 32
