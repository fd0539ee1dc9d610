-- ===== src/Primitives/Powers.antt =====
-- crates/primitives/src/utils.rs: `min`, `max` and the powers of two.
pub mod Smear
pub mod Laws
use Prim.Native.Nat.{bit_or}
use rostl.Base.{
  ℕ, zero, suc, ◌+◌, ◌-◌, ◌*◌, ◌/◌, ◌^◌, ◌≤◌, ◌<◌, ◌≡◌, refl, Option, none, some, arith,
  if◌then◌else◌, ltb, leb, ◌>>=◌,
}
use rostl.Primitives.Usize.{usize_max}

-- `n | (n >> s)`
abbrev pub or_shift : ℕ → ℕ → ℕ
or_shift s n = bit_or n (n / 2 ^ s)

abbrev pub saturating_add : ℕ → ℕ → ℕ
saturating_add a b = if leb (a + b) usize_max then a + b else usize_max

-- The const functions `max` and `min`.
pub max : ℕ → ℕ → ℕ
max a b = if ltb b a then a else b

pub min : ℕ → ℕ → ℕ
min a b = if ltb a b then a else b

-- The six lines that set every bit below the highest one.
unfoldable pub fill_bits : ℕ → ℕ
fill_bits n =
    let n1 = or_shift 1 n in
    let n2 = or_shift 2 n1 in
    let n3 = or_shift 4 n2 in let n4 = or_shift 8 n3 in let n5 = or_shift 16 n4 in or_shift 32 n5

-- The `debug_assert!` panics.
unfoldable pub get_strictly_bigger_power_of_two : ℕ → Option ℕ
get_strictly_bigger_power_of_two n =
    if leb n 0x8000_0000_0000_0000 then some (saturating_add (fill_bits n) 1) else none

unfoldable pub get_smaller_or_equal_power_of_two : ℕ → Option ℕ
unfolding get_strictly_bigger_power_of_two
get_smaller_or_equal_power_of_two n = get_strictly_bigger_power_of_two n >>= λ p. some (p / 2)

-- The loop of the deprecated version: `none` is fuel that ran out, or an overflow.
bigger_loop : ℕ → ℕ → ℕ → Option ℕ
bigger_loop zero size n = none
bigger_loop (suc fuel) size n =
    let rest = if leb (n * 2) usize_max then bigger_loop fuel size (n * 2) else none in
    if leb n size then rest else some n

pub get_strictly_bigger_power_of_two_loop : ℕ → Option ℕ
unfolding bigger_loop
get_strictly_bigger_power_of_two_loop size = bigger_loop 65 size 1
