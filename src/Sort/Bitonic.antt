-- ===== src/Sort/Bitonic.antt =====
-- crates/sort/src/bitonic.rs: the bitonic sorter. The macros' bodies, which the plain sorter and the
-- one with a payload share, are functions of the state, of its keys and of its conditional swap.
-- `none` is a panic, a violated `assume!`, or fuel that ran out.
pub mod Runs
pub mod Together
use rostl.Base.{
  ℕ, zero, suc, ◌+◌, ◌-◌, ◌*◌, ◌/◌, ◌%◌, ◌^◌, Bool, true, not, ◌&&◌, Option, none, some, List, leb,
  ltb, ◌==◌, length, get_elem?, if◌then◌else◌, ◌>>=◌, for_range,
}
use rostl.Primitives.{Cmov}
use rostl.Primitives.Zeros.{zeros_loop}
use rostl.Primitives.CswapIndex.{cswap}
use rostl.Primitives.Powers.{get_strictly_bigger_power_of_two}

-- `Ord`, as far as the sorter uses it: the operator `<=`.
pub record Ord (A : Type 0) : Type 0 where
  pub le : A → A → Bool

-- `n.trailing_zeros()` and `n.is_power_of_two()` of the standard library.
unfoldable pub trailing_zeros : ℕ → ℕ
unfolding zeros_loop
trailing_zeros n = zeros_loop 64 n

unfoldable pub is_power_of_two : ℕ → Bool
unfolding trailing_zeros
is_power_of_two n = n == 2 ^ trailing_zeros n

-- `assume!(unsafe: size > 1)` and `assume!(unsafe: start + size <= arr.len())`
abbrev pub region : {A : Type 0} → List A → ℕ → ℕ → Bool
region arr start size = ltb 1 size && leb (start + size) (length arr)

module _ {S A : Type 0} ⦃o : Ord A⦄ (keys : S → List A) (swap : S → ℕ → ℕ → Bool → Option S) where
  -- The comparison of two keys, and the swap by its outcome.
  unfoldable pub compare_swap : Bool → ℕ → ℕ → S → Option S
  compare_swap up left right s = do
    l ← get_elem? (keys s) left
    r ← get_elem? (keys s) right
    let cond = o.le l r
    swap s left right (if up then not cond else cond)

  -- One value of `sz` in the body of `__bitonic_merge_pow2_body`.
  unfoldable pub merge_blocks : Bool → ℕ → ℕ → ℕ → S → Option S
  unfolding compare_swap
  merge_blocks up start size sz s =
      let blocks = 2 ^ sz in
      let s2 = size / 2 ^ (sz + 1) in
      for_range blocks 0
        (λ j.
          for_range s2 0
            (λ i. compare_swap up (start + 2 * j * s2 + i) (start + 2 * j * s2 + i + s2)))
        s

  unfoldable pub merge_pow2 : Bool → ℕ → ℕ → S → Option S
  unfolding merge_blocks trailing_zeros is_power_of_two
  merge_pow2 up start size s =
      if region (keys s) start size && is_power_of_two size
      then for_range (trailing_zeros size) 0 (merge_blocks up start size) s
      else none

  -- The first loop of `__bitonic_merge_body`.
  unfoldable pub merge_ends : Bool → ℕ → ℕ → ℕ → S → Option S
  unfolding compare_swap
  merge_ends up start size s2 s =
      for_range (size - s2) 0 (λ i. compare_swap up (start + i) (start + i + s2)) s

  unfoldable pub merge : ℕ → Bool → ℕ → ℕ → S → Option S
  unfolding merge_ends merge_pow2
  merge zero up start size s = none
  merge (suc fuel) up start size s =
      let body : Option S = do
        p2 ← get_strictly_bigger_power_of_two (size - 1)
        let s2 = p2 / 2
        ends ← merge_ends up start size s2 s
        front ← (if ltb 1 s2 then merge_pow2 up start s2 ends else some ends)
        let rest : Option S = merge fuel up (start + s2) (size - s2) front
        if ltb 1 (size - s2) then rest else some front
      in if region (keys s) start size then body else none

  unfoldable pub sort_inner : ℕ → Bool → ℕ → ℕ → S → Option S
  unfolding merge
  sort_inner zero up start size s = none
  sort_inner (suc fuel) up start size s =
      let half_size = size / 2 in
      let lower : S → Option S = λ t. sort_inner fuel (not up) start half_size t in
      let both : Option S = do
        upper ← sort_inner fuel up (start + half_size) (size - half_size) s
        if ltb 1 half_size then lower upper else some upper
      in let body : Option S = do
        t ← (if ltb 1 (size - half_size) then both else some s)
        merge size up start size t
        in if region (keys s) start size then body else none

module _ {A : Type 0} ⦃o : Ord A⦄ ⦃m : Cmov A⦄ where
  unfoldable pub bitonic_sort : List A → Option (List A)
  unfolding sort_inner
  bitonic_sort arr =
      if leb (length arr) 1
      then some arr
      else sort_inner (λ a. a) cswap (length arr) true 0 (length arr) arr

module _ {A P : Type 0} ⦃o : Ord A⦄ ⦃m : Cmov A⦄ ⦃mp : Cmov P⦄ where
  -- The keys and the payload are swapped by the same choice.
  unfoldable pub swap_both : List A × List P → ℕ → ℕ → Bool → Option (List A × List P)
  swap_both s left right cond =
      let both : Option (List A × List P) = do
        arr ← cswap s.0 left right cond
        payload ← cswap s.1 left right cond
        some (arr, payload)
      in if length s.0 == length s.1 then both else none

  unfoldable pub bitonic_payload_sort : List A → List P → Option (List A × List P)
  unfolding sort_inner
  bitonic_payload_sort arr payload =
      let sorted : Option (List A × List P) =
        sort_inner (λ s. s.0) swap_both (length arr) true 0 (length arr) (arr, payload) in
      if leb (length arr) 1
      then some (arr, payload)
      else if length arr == length payload
      then sorted
      else none
