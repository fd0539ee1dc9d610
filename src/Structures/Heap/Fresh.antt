-- ===== src/Structures/Heap/Fresh.antt =====
-- crates/datastructures/src/heap.rs: the heap that `new` makes.
use mathlib.Core.Option.{some-injective}
use rostl.Base.{
  ℕ, suc, ◌-◌, ◌^◌, ◌≤◌, ◌<◌, ◌≡◌, refl, sym, ap, ◌∙◌, subst, arith, true, false, inl, inr, List,
  [], ◌∷◌, get_elem?, get_elem?-replicate, length-replicate, replicate, some, take, lt→ltb, Returns,
  returns, Returns-bind,
}
use rostl.Oram.HeapTree.{HeapTree, new_with}
use rostl.Oram.HeapTree.Index.{place, place_inside}
use rostl.Oram.Circuit.{CircuitOram, concat}
use rostl.Oram.Circuit.Blocks.{Zeroable, Block, is_empty, matches, default_block, stash_size}
use rostl.Oram.Circuit.Filled.{filled}
use rostl.Oram.Circuit.Passes.{any_empty}
use rostl.Oram.Circuit.State.{IsCircuitOram, content}
use rostl.Oram.Circuit.Tally.{tally}
use rostl.Oram.Circuit.New.{new-Fresh}
use rostl.Structures.Heap.{Heap, HeapElement, heap_element_zeroable, new}
use rostl.Structures.Heap.Least.{In, Below, rank, rank-empty, In-append_right, In-filled, In-concat}
use rostl.Structures.Heap.Nodes.{NodeOk, IsHeap}
use rostl.Structures.Heap.Stamps.{IsStamped, astray}

-- A new heap: without elements, and with room in the stash.
pub record FreshHeap {V : Type 0} (out : Heap V) : Type 0 where
  pub heap : IsHeap out
  pub stamped : IsStamped out
  pub empty : content out.oram ≡ []
  pub room : any_empty (take stash_size out.oram.stash) ≡ true

pub not_in_nil : {A : Type 0} (x : A) → ¬ In x []
not_in_nil x (k, e) = absurd (cc)

module _ {V : Type 0} where
  Below-each :
      (key : ℕ) (xs : List (Block (HeapElement V)))
      → ((b : Block (HeapElement V)) → In b xs → is_empty b ≡ false → key ≤ b.value.key)
      → Below key xs
  Below-each key [] each = refl
  Below-each key (x ∷ xs) each =
      (each x (0, refl), Below-each key xs (λ b i. each b (suc (i.0), i.1)))

module _ {V : Type 0} (block : Block (HeapElement V)) (none_here : is_empty block ≡ true)
    (oram : CircuitOram (HeapElement V)) (t : IsCircuitOram oram)
    (empty : (b : Block (HeapElement V)) → ¬ In b (filled (concat oram.tree.tree))) where
  abbrev pub equal_nodes : HeapTree (Block (HeapElement V))
  equal_nodes = record { tree = replicate (2 ^ oram.h - 1) block; height = oram.h }

  equal_at :
      (d p : ℕ) → d < oram.h → get_elem? (replicate (2 ^ oram.h - 1) block) (place d p) ≡ some block
  equal_at d p h =
      get_elem?-replicate (2 ^ oram.h - 1) (place d p) block (place_inside equal_nodes d p h)

  -- Over a tree without elements a tree of equal empty nodes is right.
  pub empty_node : (d p : ℕ) → d < oram.h → NodeOk oram.tree equal_nodes d p
  empty_node d p h =
      let (bucket, at, fits) = t.tree.bucket d p (omega (arith, h, t.height)) in
      record {
        least = block;
        at = equal_at d p h;
        bound = omega (arith, rank-empty block none_here);
        bucket = bucket;
        bucket_at = at;
        below = Below-each (rank block) bucket λ b i full. absurd (
            empty b (
              In-filled b (concat oram.tree.tree) full
                (In-concat b oram.tree.tree (place d p) bucket at i)));
        children = λ q c same inside at_c.
            let e = some-injective c block (sym at_c ∙ equal_at (suc d) q inside) in
            omega (arith, ap rank e);
        source = inl none_here;
      }

module _ {V : Type 0} ⦃z : Zeroable V⦄ where
  -- new for a size from 2 to 2^31 returns a heap without elements, with room in the stash.
  pub new-FreshHeap : (n : ℕ) → 1 < n → n ≤ 2 ^ 31 → Returns (FreshHeap {V = V}) (new n)
  unfolding new new_with
  new-FreshHeap n low high = Returns-bind (new-Fresh n low high) λ oram o.
      rw (lt→ltb oram.h 64 (omega (arith, o.state.high))) (
        returns (record {
          heap = record {
            ordered = record {
              state = o.state;
              tree = record {
                size = length-replicate (2 ^ oram.h - 1) default_block;
                bound = omega (arith, o.state.high);
              };
              height = refl;
              nodes = empty_node default_block refl oram o.state λ b i. not_in_nil b (
                  subst (In b) o.empty
                    (In-append_right b (filled (take stash_size oram.stash)) _ i));
            };
            root = λ b at. inr o.empty;
          };
          stamped = record {
            once = λ k. omega (arith, ap (tally (matches k)) o.empty);
            unused = λ k h. ap (tally (matches k)) o.empty;
            placed = ap (tally (astray oram.max_n)) o.empty;
          };
          empty = o.empty;
          room = o.room;
        }))
