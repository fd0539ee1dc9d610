-- ===== src/Tests/Vectors.antt =====
-- Instances of the theorems on crates/datastructures/src/vector.rs.
use native.Mathlib.Nat.{ℕ_set}
use mathlib.Core.Option.{some-injective}
use rostl.Base.{ℕ, zero, suc, ◌≡◌, refl, subst, arith, [], ◌∷◌, some, get_elem?}
use rostl.Primitives.Usize.{usize_cmov}
use rostl.Oram.Circuit.Passes.{any_empty}
use rostl.Oram.Circuit.Operations.{if_room}
use rostl.Structures.Vector.{EagerVector, push_back, pop_back}
use rostl.Structures.Vector.Items.{ItemAt}
use rostl.Structures.Vector.Methods.{IsVector, Ready, push_back-IsVector, pop_back-IsVector}
use rostl.Tests.Arrays.{
  block_cmov, node_cmov, node_block_cmov, number_default, number_zeroable, pair, pair-IsArray,
  draws,
}

-- One entry, with a place for another one.
abbrev one_item : EagerVector ℕ
one_item = record { n = 1; array = pair }

one_item-IsVector : IsVector (42 ∷ []) one_item
one_item-IsVector = record { array = pair-IsArray; n = refl; fits = omega arith; items = items }
  where
    items : (i x : ℕ) → get_elem? (42 ∷ []) i ≡ some x → ItemAt pair i x
    items zero x e = subst (ItemAt pair 0) (some-injective 42 x e) (record { pos = 1; here = refl })
    items (suc i) x e = absurd (cc)

one_item-Ready : Ready draws one_item
unfolding any_empty
one_item-Ready = record { room = refl; draw = omega arith }

push_back-IsVector_example :
    (out : EagerVector ℕ) × IsVector (42 ∷ 7 ∷ []) out
    × (push_back (λ i. draws) draws one_item 7 ≡ if_room out.array.oram out)
push_back-IsVector_example =
    push_back-IsVector ℕ_set draws (42 ∷ []) 7 one_item one_item-Ready (λ i. draws)
      one_item-IsVector (omega arith)

pop_back-IsVector_example :
    (out : EagerVector ℕ) × IsVector [] out
    × (pop_back draws one_item ≡ if_room out.array.oram (out, 42))
pop_back-IsVector_example =
    pop_back-IsVector ℕ_set draws [] 42 one_item one_item-Ready one_item-IsVector
