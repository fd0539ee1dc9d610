-- ===== src/Tests/Trees.antt =====
-- Instances of the theorems on crates/oram/src/heap_tree.rs and on the small containers.
use rostl.Base.{List, ℕ, refl, arith, true, false, [], ◌∷◌}
use rostl.Primitives.Usize.{usize_cmov}
use rostl.Primitives.OOption.{OOption}
use rostl.Oram.HeapTree.{HeapTree}
use rostl.Oram.HeapTree.Index.{IsTree}
use rostl.Structures.ShortArray.{ShortArray}

abbrev small : HeapTree ℕ
small = record { tree = 0 ∷ 1 ∷ 2 ∷ 3 ∷ 5 ∷ 4 ∷ 6 ∷ []; height = 3 }

small-IsTree : IsTree small
small-IsTree = record { size = refl; bound = omega arith }

abbrev seven : ℕ
seven = 7

abbrev absent : OOption ℕ
absent = record { value = 5; is_some = false }

abbrev present : OOption ℕ
present = record { value = 8; is_some = true }

abbrev slots : ShortArray ℕ
slots = record { entries = 4 ∷ 5 ∷ 6 ∷ [] }

abbrev left : List ℕ
left = 1 ∷ 2 ∷ []

abbrev right : List ℕ
right = 3 ∷ 4 ∷ []
