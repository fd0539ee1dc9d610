-- ===== src/Structures/OramArrays/Fresh.antt =====
-- crates/datastructures/src/array.rs: the LongArray or DynamicArray that `new` makes, when the
-- position map has its first level only.
use rostl.Base.{
  ℕ, ◌<◌, ◌≤◌, ◌≡◌, ap, arith, true, [], subst, sym, take, Returns, returns, Returns-bind,
}
use rostl.Primitives.{Cmov}
use rostl.Oram.Linear.{Default}
use rostl.Oram.Circuit.Blocks.{Zeroable, Block, stash_size, matches}
use rostl.Oram.Circuit.Passes.{any_empty}
use rostl.Oram.Circuit.State.{content}
use rostl.Oram.Circuit.Tally.{tally, misplaced}
use rostl.Oram.Circuit.New.{new-Fresh}
use rostl.Oram.Recursive
use rostl.Oram.Recursive.{InternalNode}
use rostl.Oram.Recursive.Flat.{position_of}
use rostl.Oram.Recursive.Fresh.{new-FreshMap}
use rostl.Structures.OramArrays.{OramArray, Rng, new}
use rostl.Structures.OramArrays.Invariant.{IsArray}

-- A new array of the length: well formed, without blocks, with room in the stash, and with the
-- draws as positions.
pub record FreshArray {A : Type 0} (rng : Rng) (len : ℕ) (out : OramArray A) : Type 0 where
  pub array : IsArray len out
  pub empty : content out.oram ≡ []
  pub room : any_empty (take stash_size out.oram.stash) ≡ true
  pub drawn : (j : ℕ) → j < len → position_of out.pos_map j ≡ rng j len

module _ {A : Type 0} ⦃m : Cmov A⦄ ⦃mb : Cmov (Block A)⦄ ⦃d : Default A⦄ ⦃z : Zeroable A⦄
    ⦃mn : Cmov InternalNode⦄ ⦃mnb : Cmov (Block InternalNode)⦄ where
  -- With a generator that draws below n, new for a length n from 2 to 2048 returns a well-formed
  -- array without blocks, with room in the stash, in which the position of an index j is the j-th
  -- draw.
  pub new-FreshArray :
      (rng : Rng) (n : ℕ)
      → 1 < n
      → n ≤ Recursive.linear_map_size
      → ((j : ℕ) → rng j n < n)
      → Returns (FreshArray {A = A} rng n) (new rng n)
  unfolding new
  new-FreshArray rng n low high draw =
      Returns-bind (new-Fresh n low (omega (arith, high))) λ oram o.
        Returns-bind (new-FreshMap rng n (omega (arith, low)) high) λ pos_map p. returns (record {
          array = record {
            flat = p.flat;
            covers = p.size;
            indices = p.indices;
            state = o.state;
            leaves = o.enough;
            inside = λ k h. subst (λ x. x < n) (sym (p.positions k h)) (draw k);
            located = λ k h. record {
              once = subst (λ b. tally (matches k) b ≤ 1) (sym o.empty) (omega arith);
              here = ap (tally (misplaced k (position_of pos_map k))) o.empty;
            };
          };
          empty = o.empty;
          room = o.room;
          drawn = p.positions;
        })
