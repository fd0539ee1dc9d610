-- ===== src/Tests/Networks.antt =====
-- Runs of crates/sort/src/{batcher,bitonic,bose_nelson,shuffle}.rs, and instances of its theorems.
use rostl.Base.{◌-◌, ◌*◌, ℕ, ◌≡◌, refl, arith, List, [], ◌∷◌, some, none, leb, Returns, for_range}
use rostl.Primitives
use rostl.Primitives.CswapIndex.{cswap}
use rostl.Primitives.Usize.{usize_cmov, checked_add}
use rostl.Primitives.Powers.{get_strictly_bigger_power_of_two, fill_bits}
use rostl.Sort.Bitonic.{Ord, bitonic_sort, bitonic_payload_sort, swap_both}
use rostl.Sort.Bitonic.Together.{
  Rearranged, Together, bitonic_sort-Rearranged, bitonic_payload_sort-Together,
}
use rostl.Sort.Utils.{cswap_greater}
use rostl.Sort.Batcher.{batcher_sort}
use rostl.Sort.Batcher.Termination.{batcher_sort-Rearranged}
use rostl.Sort.BoseNelson.{bose_nelson_sort, bn_merge}
use rostl.Sort.BoseNelson.Termination.{bose_nelson_sort-Rearranged}
use rostl.Sort.BoseNelson.Endless.{bn_merge-endless}
use rostl.Sort.Shuffle.{shuffle}
use rostl.Sort.Shuffle.Rearranges.{shuffle-Rearranged}

instance abbrev usize_ord : Ord ℕ
usize_ord = record { le = leb }

abbrev input : List ℕ
input = 3 ∷ 1 ∷ 2 ∷ []

abbrev names : List ℕ
names = 30 ∷ 10 ∷ 20 ∷ []

bitonic_sort_run : bitonic_sort input ≡ some (1 ∷ 2 ∷ 3 ∷ [])
unfolding bitonic_sort for_range cswap rostl.Primitives.cswap get_strictly_bigger_power_of_two
    fill_bits
bitonic_sort_run = refl

bitonic_payload_sort_run :
    bitonic_payload_sort input names ≡ some ((1 ∷ 2 ∷ 3 ∷ [], 10 ∷ 20 ∷ 30 ∷ []))
unfolding bitonic_payload_sort for_range cswap rostl.Primitives.cswap swap_both
    get_strictly_bigger_power_of_two fill_bits
bitonic_payload_sort_run = refl

bitonic_sort-Rearranged_example : Returns (Rearranged input) (bitonic_sort input)
bitonic_sort-Rearranged_example = bitonic_sort-Rearranged input (omega arith)

bitonic_payload_sort-Together_example :
    Returns (Together input names) (bitonic_payload_sort input names)
bitonic_payload_sort-Together_example = bitonic_payload_sort-Together input names refl (omega arith)

abbrev six : List ℕ
six = 3 ∷ 1 ∷ 4 ∷ 1 ∷ 5 ∷ 2 ∷ []

abbrev one_and_three : List ℕ
one_and_three = 4 ∷ 1 ∷ 2 ∷ 3 ∷ []

bose_nelson_sort_run : bose_nelson_sort six ≡ some (1 ∷ 1 ∷ 2 ∷ 3 ∷ 4 ∷ 5 ∷ [])
unfolding bose_nelson_sort cswap_greater cswap rostl.Primitives.cswap
bose_nelson_sort_run = refl

batcher_sort_run : batcher_sort six ≡ some (1 ∷ 1 ∷ 2 ∷ 3 ∷ 4 ∷ 5 ∷ [])
unfolding batcher_sort for_range checked_add cswap_greater cswap rostl.Primitives.cswap
batcher_sort_run = refl

batcher_sort-Rearranged_example : Returns (Rearranged input) (batcher_sort input)
batcher_sort-Rearranged_example = batcher_sort-Rearranged input (omega arith)

bose_nelson_sort-Rearranged_example : Returns (Rearranged input) (bose_nelson_sort input)
bose_nelson_sort-Rearranged_example = bose_nelson_sort-Rearranged input

bn_merge-endless_example : bn_merge 100 one_and_three 0 1 1 3 ≡ none
bn_merge-endless_example = bn_merge-endless 100 one_and_three 0 1

-- A generator that draws 5, 3, 1 and then 0.
abbrev draws : ℕ → ℕ
draws i = 5 - 2 * i

shuffle-Rearranged_example : Returns (Rearranged input) (shuffle draws input)
shuffle-Rearranged_example = shuffle-Rearranged draws input (omega arith)
