-- ===== src/Tests/Sorting.antt =====
-- Runs of crates/sort and crates/primitives, and instances of their theorems.
use rostl.Base.{
  ℕ, ◌^◌, ◌≡◌, refl, arith, Bool, List, [], ◌∷◌, ◌++◌, some, none, length, leb, drop, take,
  if◌then◌else◌, ◌==◌, Returns, Returns-at, for_range, store,
}
use rostl.Primitives
use rostl.Primitives.Usize.{usize_cmov, checked_sub, checked_rem}
use rostl.Primitives.CswapIndex.{cswap}
use rostl.Primitives.Powers.{
  get_strictly_bigger_power_of_two, get_smaller_or_equal_power_of_two, fill_bits,
}
use rostl.Sort.Compaction.{
  compute_prefix_sum, marked_before, compact_payload, compact, distribute_payload,
}
use rostl.Sort.Compaction.PrefixSum.{IsPrefixSum}
use rostl.Sort.Compaction.Ends.{Compacted}
use rostl.Sort.Compaction.Whole.{compact_payload-Compacted}
use rostl.Sort.Compaction.Compact.{rank, IsCompact, compact_correct, compute_prefix_sum-IsPrefixSum}
use rostl.Sort.Compaction.RoundTrip.{distribute_payload-compact_payload}
use rostl.Sort.Rotate.{rotate_left}
use rostl.Sort.Rotate.Rounds.{rotate_left_correct}

abbrev is_zero : ℕ → Bool
is_zero x = x == 0

abbrev input : List ℕ
input = 5 ∷ 0 ∷ 3 ∷ 0 ∷ 8 ∷ []

abbrev sums : List ℕ
sums = 0 ∷ 1 ∷ 1 ∷ 2 ∷ 2 ∷ 3 ∷ []

compute_prefix_sum-input : compute_prefix_sum input is_zero ≡ some sums
unfolding compute_prefix_sum for_range store
compute_prefix_sum-input = refl

compact_run : compact input is_zero ≡ some (5 ∷ 3 ∷ 8 ∷ 0 ∷ 0 ∷ [], 3)
unfolding compact for_range store get_smaller_or_equal_power_of_two get_strictly_bigger_power_of_two
    fill_bits marked_before checked_sub checked_rem cswap rostl.Primitives.cswap
compact_run = refl

rotate_run : rotate_left input 2 ≡ some (3 ∷ 0 ∷ 8 ∷ 5 ∷ 0 ∷ [])
unfolding rotate_left for_range checked_sub cswap rostl.Primitives.cswap
rotate_run = refl

sums-IsPrefixSum : IsPrefixSum sums 5 (rank is_zero input)
sums-IsPrefixSum =
    Returns-at (compute_prefix_sum-IsPrefixSum is_zero input) compute_prefix_sum-input

compact_correct_example : Returns (IsCompact is_zero input) (compact input is_zero)
compact_correct_example = compact_correct is_zero input (omega arith)

compact_payload-Compacted_example :
    Returns (Compacted input (rank is_zero input) 5) (compact_payload input sums)
compact_payload-Compacted_example =
    compact_payload-Compacted input sums (rank is_zero input) (omega arith) sums-IsPrefixSum

distribute_payload-compact_payload_example :
    Returns (λ out. distribute_payload out sums ≡ some input) (compact_payload input sums)
distribute_payload-compact_payload_example =
    distribute_payload-compact_payload input sums (rank is_zero input) (omega arith)
      sums-IsPrefixSum

abbrev four : List ℕ
four = 0 ∷ 7 ∷ 0 ∷ 9 ∷ []

abbrev four_sums : List ℕ
four_sums = 0 ∷ 0 ∷ 1 ∷ 1 ∷ 2 ∷ []

four_sums_run : compute_prefix_sum four is_zero ≡ some four_sums
unfolding compute_prefix_sum for_range store
four_sums_run = refl

four_sums-IsPrefixSum : IsPrefixSum four_sums (2 ^ 2) (rank is_zero four)
four_sums-IsPrefixSum = Returns-at (compute_prefix_sum-IsPrefixSum is_zero four) four_sums_run

rotate_left_correct_example : rotate_left input 2 ≡ (
    if leb (length input) 1
    then some input
    else if leb 2 (length input)
    then some (drop 2 input ++ take 2 input)
    else none)
rotate_left_correct_example = rotate_left_correct input 2 (omega arith)

-- At 2^63, which the debug assertion admits, the sum saturates one below the power of two.
bigger_at_the_limit :
    get_strictly_bigger_power_of_two 0x8000_0000_0000_0000 ≡ some 0xFFFF_FFFF_FFFF_FFFF
unfolding get_strictly_bigger_power_of_two fill_bits
bigger_at_the_limit = refl
