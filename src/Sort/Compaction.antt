-- ===== src/Sort/Compaction.antt =====
-- crates/sort/src/compaction.rs: oblivious compaction and its inverse. A slice is a list, and a
-- method that writes through `&mut` returns the new one. `none` is a panic, a violated `assume!`,
-- or fuel that ran out; the fuel is the length of the slice, which every call shortens.
pub mod Places
pub mod PrefixSum
pub mod Halves
pub mod Offset
pub mod Ends
pub mod Whole
pub mod Compact
pub mod Undo
pub mod RoundTrip
use Prim.Native.Nat.{bit_and}
use rostl.Base.{
  ℕ, zero, suc, ◌+◌, ◌-◌, ◌/◌, Bool, not, xor, Option, none, some, List, [], ◌∷◌, ◌++◌,
  if◌then◌else◌, leb, ◌==◌, ltb, length, get_elem?, store, take, drop, replicate, ◌>>=◌, for_range,
}
use rostl.Primitives.{Cmov}
use rostl.Primitives.CswapIndex.{cswap}
use rostl.Primitives.Usize.{checked_sub, checked_rem, bit_not, cmov_base}
use rostl.Primitives.Powers.{get_smaller_or_equal_power_of_two}

-- One round of the loop of `compute_prefix_sum`.
prefix_sum_round : {A : Type 0} → List A → (A → Bool) → ℕ → List ℕ → Option (List ℕ)
prefix_sum_round arr is_dummy i sarr = do
  x ← get_elem? arr i
  let adder = cmov_base 1 0 (is_dummy x)
  prev ← get_elem? sarr i
  store sarr (i + 1) (prev + adder)

unfoldable pub compute_prefix_sum : {A : Type 0} → List A → (A → Bool) → Option (List ℕ)
unfolding prefix_sum_round
compute_prefix_sum arr is_dummy =
    let size = length arr in
    for_range size 0 (prefix_sum_round arr is_dummy) (replicate (size + 1) 0)

-- `let cond = s ^ (i >= zright); arr.cswap(i, i + half_n, cond)`, for every `i` below `half_n`.
pub exchange_halves : {A : Type 0} ⦃m : Cmov A⦄ → ℕ → Bool → ℕ → List A → Option (List A)
exchange_halves half_n s zright arr =
    for_range half_n 0 (λ i a. cswap a i (i + half_n) (xor s (leb zright i))) arr

-- `arr.cswap(i, i + n1, i >= m)`, for every `i` below `n2`.
pub exchange_ends : {A : Type 0} ⦃m : Cmov A⦄ → ℕ → ℕ → ℕ → List A → Option (List A)
exchange_ends n1 n2 m arr = for_range n2 0 (λ i a. cswap a i (i + n1) (leb m i)) arr

-- `s_a ^ s_b`
abbrev pub choice_bit : ℕ → ℕ → ℕ → ℕ → Bool
choice_bit half_n z zleft m = xor (leb half_n (zleft + m)) (leb half_n z)

-- The case of two entries.
pub swap_pair : {A : Type 0} ⦃m : Cmov A⦄ → List A → List ℕ → ℕ → ℕ → Option (List A)
swap_pair arr payload m z = do
  p2 ← get_elem? payload 2
  p1 ← get_elem? payload 1
  last ← checked_sub p2 p1
  cswap arr 0 1 (not (bit_and (bit_not m) last == z))

-- `payload[i] - payload[0]`
unfoldable pub marked_before : List ℕ → ℕ → Option ℕ
marked_before payload i = do
  p ← get_elem? payload i
  first ← get_elem? payload 0
  checked_sub p first

-- `assume!(unsafe: arr.len() + 1 == payload.len())`
abbrev pub sized : {A : Type 0} → List A → List ℕ → Bool
sized arr payload = length arr + 1 == length payload

module _ {A : Type 0} ⦃cm : Cmov A⦄ where
  pub compact_payload_offset : ℕ → List A → List ℕ → ℕ → Option (List A)
  unfolding exchange_halves swap_pair
  compact_payload_offset zero arr payload z = none
  compact_payload_offset (suc fuel) arr payload z =
      let half_n = length arr / 2 in
      let halves : ℕ → Option (List A) = λ m. do
        zleft ← checked_rem z half_n
        zright ← checked_rem (z + m) half_n
        left ← compact_payload_offset fuel (take half_n arr) (take (half_n + 1) payload) zleft
        right ← compact_payload_offset fuel (drop half_n arr) (drop half_n payload) zright
        exchange_halves half_n (choice_bit half_n z zleft m) zright (left ++ right)
      in let whole : Option (List A) = do
        m ← marked_before payload half_n
        if length arr == 2 then swap_pair arr payload m z else halves m
        in if sized arr payload then whole else none

  pub compact_payload_loop : ℕ → List A → List ℕ → Option (List A)
  unfolding compact_payload_offset exchange_ends
  compact_payload_loop zero arr payload = none
  compact_payload_loop (suc fuel) arr payload =
      let n = length arr in
      let parts : ℕ → ℕ → Option (List A) = λ n1 n2. do
        m ← marked_before payload n2
        left ← compact_payload_loop fuel (take n2 arr) (take (n2 + 1) payload)
        z ← checked_rem (n1 - n2 + m) n1
        right ← compact_payload_offset n1 (drop n2 arr) (drop n2 payload) z
        exchange_ends n1 n2 m (left ++ right)
      in let whole : Option (List A) = do
        n1 ← get_smaller_or_equal_power_of_two n
        if n - n1 == 0 then compact_payload_offset n arr payload 0 else parts n1 (n - n1)
        in if sized arr payload then (if leb n 1 then some arr else whole) else none

  unfoldable pub compact_payload : List A → List ℕ → Option (List A)
  unfolding compact_payload_loop
  compact_payload arr payload = compact_payload_loop (length arr + 1) arr payload

  -- The compacted slice, and the number of entries that are not dummies.
  unfoldable pub compact : List A → (A → Bool) → Option (List A × ℕ)
  unfolding compact_payload compute_prefix_sum
  compact arr is_dummy = do
    payload ← compute_prefix_sum arr is_dummy
    out ← compact_payload arr payload
    count ← get_elem? payload (length payload - 1)
    some (out, count)

  pub distribute_payload_offset : ℕ → List A → List ℕ → ℕ → Option (List A)
  unfolding exchange_halves swap_pair
  distribute_payload_offset zero arr payload z = none
  distribute_payload_offset (suc fuel) arr payload z =
      let half_n = length arr / 2 in
      let halves : ℕ → Option (List A) = λ m. do
        zleft ← checked_rem z half_n
        zright ← checked_rem (z + m) half_n
        mid ← exchange_halves half_n (choice_bit half_n z zleft m) zright arr
        left ← distribute_payload_offset fuel (take half_n mid) (take (half_n + 1) payload) zleft
        right ← distribute_payload_offset fuel (drop half_n mid) (drop half_n payload) zright
        some (left ++ right)
      in let whole : Option (List A) = do
        m ← marked_before payload half_n
        if length arr == 2 then swap_pair arr payload m z else halves m
        in if sized arr payload then whole else none

  pub distribute_payload_loop : ℕ → List A → List ℕ → Option (List A)
  unfolding distribute_payload_offset exchange_ends
  distribute_payload_loop zero arr payload = none
  distribute_payload_loop (suc fuel) arr payload =
      let n = length arr in
      let parts : ℕ → ℕ → Option (List A) = λ n1 n2. do
        m ← marked_before payload n2
        mid ← exchange_ends n1 n2 m arr
        left ← distribute_payload_loop fuel (take n2 mid) (take (n2 + 1) payload)
        z ← checked_rem (n1 - n2 + m) n1
        right ← distribute_payload_offset n1 (drop n2 mid) (drop n2 payload) z
        some (left ++ right)
      in let whole : Option (List A) = do
        n1 ← get_smaller_or_equal_power_of_two n
        if n - n1 == 0 then distribute_payload_offset n arr payload 0 else parts n1 (n - n1)
        in if sized arr payload then (if leb n 1 then some arr else whole) else none

  unfoldable pub distribute_payload : List A → List ℕ → Option (List A)
  unfolding distribute_payload_loop
  distribute_payload arr payload = distribute_payload_loop (length arr + 1) arr payload
