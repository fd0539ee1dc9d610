-- ===== src/Structures/Vector/Items.antt =====
-- crates/datastructures/src/array.rs: what a LongArray or DynamicArray with a one-level position map
-- has at its indices.
use rostl.Base.{ℕ, ◌≤◌, ◌<◌, ◌≡◌, refl, ap, ◌∙◌, arith, [], ◌∷◌, length, if◌then◌else◌}
use rostl.Primitives.{Cmov}
use rostl.Oram.Linear.{Default}
use rostl.Oram.Circuit.Blocks.{Zeroable, Block, dummy_pos}
use rostl.Oram.Circuit.Elements.{with_key, any_block, value_or}
use rostl.Oram.Circuit.Filled.{one}
use rostl.Oram.Circuit.State.{content}
use rostl.Oram.Circuit.Tally.{length-with_key}
use rostl.Oram.Circuit.Operations.{if_room}
use rostl.Oram.Circuit.Entries.{held, removed-held, held_after, held_other, full_block}
use rostl.Oram.Recursive.{InternalNode}
use rostl.Structures.Stack.Invariant.{max_n-lt}
use rostl.Structures.OramArrays.{OramArray, Rng, read, write}
use rostl.Structures.OramArrays.Invariant.{IsArray, Accessible}
use rostl.Structures.OramArrays.Accesses.{read-IsArray, write-IsArray}

-- The array has the value at the index.
pub record ItemAt {A : Type 0} (self : OramArray A) (index : ℕ) (x : A) : Type 0 where
  pub pos : ℕ
  pub here : held self.oram index ≡ (record { pos = pos; key = index; value = x }) ∷ []

module _ {A : Type 0} ⦃m : Cmov A⦄ ⦃mb : Cmov (Block A)⦄ ⦃d : Default A⦄ ⦃z : Zeroable A⦄
    ⦃mn : Cmov InternalNode⦄ ⦃mnb : Cmov (Block InternalNode)⦄ (Aset : IsSet A) (rng : Rng)
    (len : ℕ) (self : OramArray A) (index : ℕ) (c : Accessible rng len self index) where
  at_most_one : (k : ℕ) → k < len → length (held self.oram k) ≤ 1
  at_most_one k h = omega (arith, length-with_key k (content self.oram), (c.array.located k h).once)

  draw_full : rng 0 len < dummy_pos
  draw_full = omega (arith, c.draw, c.array.leaves, max_n-lt self.oram c.array.state)

  -- The array after an access that has left the value at the index.
  pub record Left (x : A) (out : OramArray A) : Type 0 where
    pub array : IsArray len out
    pub here : ItemAt out index x
    pub others : (k : ℕ) (y : A) → k < len → ¬ (k ≡ index) → ItemAt self k y → ItemAt out k y

  pub write-Left :
      (x : A)
      → (out : OramArray A) × Left x out × (write rng len self index x ≡ if_room out.oram out)
  unfolding at_most_one draw_full
  write-Left x =
      let (removed, out, is, a, done) = write-IsArray rng len self index x c in
      (
        out,
        record {
          array = is;
          here = record {
            pos = rng 0 len;
            here = held_after Aset a ∙ full_block (rng 0 len) index x draw_full;
          };
          others = λ k y h ne i. record {
            pos = i.pos;
            here = held_other Aset a k refl ne (at_most_one k h) ∙ i.here;
          };
        },
        done,
      )

  pub read-Left :
      (x ret : A)
      → ItemAt self index x
      → (out : OramArray A) × Left x out × (read rng len self index ret ≡ if_room out.oram (out, x))
  unfolding at_most_one draw_full
  read-Left x ret i =
      let (removed, out, is, a, done) = read-IsArray rng len self index ret c in
      let found = removed-held Aset a (at_most_one index c.inside) ∙ i.here in
      (
        out,
        record {
          array = is;
          here = record {
            pos = rng 0 len;
            here =
                held_after Aset a
                ∙ ap
                    (λ r. with_key index (
                      one (record {
                        pos = if any_block r then rng 0 len else dummy_pos;
                        key = index;
                        value = value_or ret r;
                      })))
                    found
                ∙ full_block (rng 0 len) index x draw_full;
          };
          others = λ k y h ne j. record {
            pos = j.pos;
            here = held_other Aset a k refl ne (at_most_one k h) ∙ j.here;
          };
        },
        done ∙ ap (λ r. if_room out.oram (out, value_or ret r)) found,
      )
