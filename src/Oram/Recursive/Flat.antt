-- ===== src/Oram/Recursive/Flat.antt =====
-- crates/oram/src/recursive_oram.rs: the position map when its first level is all there is.
use Prim.Native.Nat.{bit_and}
use native.Mathlib.Nat.{mod-eq_of_lt}
use rostl.Base.{
  ℕ, ◌*◌, ◌/◌, ◌%◌, ◌^◌, ◌≤◌, ◌<◌, ◌≡◌, refl, ap, sym, ◌∙◌, arith, Bool-cases, inl, inr, some,
  length, set, length-set, lt→ltb, ◌==◌, ==_iff, eq→==, ne→==, if◌then◌else◌,
}
use rostl.Base.Bits.{bit_and-mask}
use rostl.Primitives.{Cmov}
use rostl.Primitives.Usize.{usize_cmov}
use rostl.Oram.Linear
use rostl.Oram.Linear.{LinearOram, oblivious_read_index, oblivious_write_index}
use rostl.Oram.Linear.Access.{
  entry_or, entry_or-set, oblivious_read_index_lem, oblivious_write_index_lem,
  oblivious_read_update_index_correct,
}
use rostl.Oram.Circuit.Blocks.{Block}
use rostl.Oram.Recursive.{
  RecursivePositionMap, InternalNode, node_default, access_node, access_levels, access_position,
  fan_out, level_0_buckets, mask0, maskn,
}

-- The node of the first level that has the key, and its position there.
abbrev node_of : RecursivePositionMap → ℕ → InternalNode
node_of self k = entry_or self.linear_oram.entries (k / fan_out) node_default.default

abbrev pub position_of : RecursivePositionMap → ℕ → ℕ
position_of self k = entry_or (node_of self k).positions (k % fan_out) 0

-- A map without further levels, whose nodes are full.
pub record IsFlat (self : RecursivePositionMap) : Type 0 where
  pub levels : self.h ≡ 0
  pub buckets : length self.linear_oram.entries ≤ level_0_buckets
  pub nodes :
      (i : ℕ)
      → i < length self.linear_oram.entries
      → length (entry_or self.linear_oram.entries i node_default.default).positions ≡ fan_out

-- The map after an access: one key's position is replaced.
pub record Accessed (self : RecursivePositionMap) (k new_pos : ℕ) (out : RecursivePositionMap)
    : Type 0 where
  pub flat : IsFlat out
  pub n : out.n ≡ self.n
  pub size : length out.linear_oram.entries ≡ length self.linear_oram.entries
  pub position :
      (j : ℕ)
      → j < length self.linear_oram.entries * fan_out
      → position_of out j ≡ (if k == j then new_pos else position_of self j)

access_node_lem :
    (index ret position : ℕ) (node : InternalNode)
    → access_node index ret position node ≡ (
      record { positions = set node.positions index position },
      entry_or node.positions index ret,
    )
unfolding access_node
access_node_lem index ret position node =
    rw (oblivious_read_update_index_correct node.positions index ret position) refl

module _ {A : Type 0} ⦃m : Cmov A⦄ where
  read_lem :
      (self : LinearOram A) (index : ℕ) (out : A)
      → index < length self.entries
      → Linear.read self index out ≡ some (entry_or self.entries index out)
  unfolding Linear.read oblivious_read_index
  read_lem self index out h =
      rw (lt→ltb index (length self.entries) h)
        (ap some (oblivious_read_index_lem self.entries index out))

  write_lem :
      (self : LinearOram A) (index : ℕ) (value : A)
      → Linear.write self index value ≡ record { entries = set self.entries index value }
  unfolding Linear.write oblivious_write_index
  write_lem self index value =
      ap (λ e. record { entries = e }) (oblivious_write_index_lem self.entries index value)

module _ (self : RecursivePositionMap) (k new_pos : ℕ) where
  abbrev after : RecursivePositionMap
  after = record {
    linear_oram = record {
      entries =
          set self.linear_oram.entries (k / fan_out)
            (record { positions = set (node_of self k).positions (k % fan_out) new_pos });
    };
    recursive_orams = self.recursive_orams;
    n = self.n;
    h = self.h;
  }

  module _ ⦃mn : Cmov InternalNode⦄ (f : IsFlat self)
      (h : k < length self.linear_oram.entries * fan_out) where
    new_node : InternalNode
    new_node = record { positions = set (node_of self k).positions (k % fan_out) new_pos }

    node_after :
        (i : ℕ)
        → i < length self.linear_oram.entries
        → entry_or after.linear_oram.entries i node_default.default ≡ (
            if k / fan_out == i
            then new_node
            else entry_or self.linear_oram.entries i node_default.default)
    unfolding new_node
    node_after i hi =
        entry_or-set self.linear_oram.entries (k / fan_out) i new_node node_default.default hi

    node_size : length new_node.positions ≡ fan_out
    unfolding new_node
    node_size =
        length-set (node_of self k).positions (k % fan_out) new_pos
        ∙ f.nodes (k / fan_out) (omega (arith, h))

    sizes_after :
        (i : ℕ)
        → i < length self.linear_oram.entries
        → length (entry_or after.linear_oram.entries i node_default.default).positions ≡ fan_out
    sizes_after i hi = elim (Bool-cases (k / fan_out == i)) [
      | inl e ↦ ap (λ node. length node.positions) (node_after i hi ∙ rw e refl) ∙ node_size
      | inr e ↦ ap (λ node. length node.positions) (node_after i hi ∙ rw e refl) ∙ f.nodes i hi
    ]

    same_node_position :
        (j : ℕ)
        → k / fan_out ≡ j / fan_out
        → entry_or new_node.positions (j % fan_out) 0
          ≡ (if k == j then new_pos else position_of self j)
    unfolding new_node
    same_node_position j e =
        let inside : j % fan_out < length (node_of self k).positions =
          omega (arith, f.nodes (k / fan_out) (omega (arith, h))) in
        let at =
          entry_or-set (node_of self k).positions (k % fan_out) (j % fan_out) new_pos 0 inside in
        elim (Bool-cases (k == j)) [
          | inl g ↦
              at
              ∙ rw (g, eq→== (k % fan_out) (j % fan_out) (ap (λ x. x % fan_out) ((==_iff k j).0 g)))
                  refl
          | inr g ↦
              let other : ¬ (k % fan_out ≡ j % fan_out) =
                λ r. absurd (cc (g, eq→== k j (omega (arith, r, e)))) in
              at
              ∙ rw (g, ne→== (k % fan_out) (j % fan_out) other)
                  (ap
                    (λ i.
                      entry_or (entry_or self.linear_oram.entries i node_default.default).positions
                        (j % fan_out) 0)
                    e)
        ]

    position_after :
        (j : ℕ)
        → j < length self.linear_oram.entries * fan_out
        → position_of after j ≡ (if k == j then new_pos else position_of self j)
    position_after j hj = elim (Bool-cases (k / fan_out == j / fan_out)) [
      | inl e ↦
          let node : node_of after j ≡ new_node =
            node_after (j / fan_out) (omega (arith, hj)) ∙ rw e refl in
          ap (λ node. entry_or node.positions (j % fan_out) 0) node
          ∙ same_node_position j ((==_iff (k / fan_out) (j / fan_out)).0 e)
      | inr e ↦
          let other : ¬ (k ≡ j) =
            λ r. absurd (cc (e, eq→== (k / fan_out) (j / fan_out) (ap (λ x. x / fan_out) r))) in
          let node : node_of after j ≡ node_of self j =
            node_after (j / fan_out) (omega (arith, hj)) ∙ rw e refl in
          ap (λ node. entry_or node.positions (j % fan_out) 0) node
          ∙ sym (rw (ne→== k j other) refl)
    ]

    after-Accessed : Accessed self k new_pos after
    after-Accessed =
        let size =
          length-set self.linear_oram.entries (k / fan_out)
            (record { positions = set (node_of self k).positions (k % fan_out) new_pos }) in
        record {
          flat = record {
            levels = f.levels;
            buckets = omega (arith, size, f.buckets);
            nodes = λ i hi. sizes_after i (omega (arith, hi, size));
          };
          n = refl;
          size = size;
          position = position_after;
        }

module _ ⦃mn : Cmov InternalNode⦄ ⦃mb : Cmov (Block InternalNode)⦄ (rng : ℕ → ℕ → ℕ) where
  -- `access_position` on a map without further levels, for a key that it has and a new position
  -- below `n`, returns the key's position, and replaces just that one; the map stays well formed.
  pub access_position-Accessed :
      (self : RecursivePositionMap) (k new_pos : ℕ)
      → IsFlat self
      → k < length self.linear_oram.entries * fan_out
      → new_pos < self.n
      → self.n < 2 ^ 32
      → (out : RecursivePositionMap) × (access_position rng self k new_pos
          ≡ some (out, position_of self k))
        × Accessed self k new_pos out
  unfolding access_position access_levels
  access_position-Accessed self k new_pos f h small bound =
      let key : bit_and k mask0 ≡ k =
        bit_and-mask 11 k ∙ mod-eq_of_lt (omega (arith, h, f.buckets)) in
      let index : bit_and k maskn ≡ k % fan_out = bit_and-mask 4 k in
      (
        after self k new_pos,
        rw (mod-eq_of_lt bound, lt→ltb new_pos self.n small, f.levels, key)
            (rw (read_lem self.linear_oram (k / fan_out) node_default.default (omega (arith, h))) (
              rw (index, access_node_lem (k % fan_out) 0 new_pos (node_of self k))
                (rw
                  (write_lem self.linear_oram (k / fan_out)
                    (record { positions = set (node_of self k).positions (k % fan_out) new_pos }))
                  refl))),
        after-Accessed self k new_pos f h,
      )
