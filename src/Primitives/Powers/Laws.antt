-- ===== src/Primitives/Powers/Laws.antt =====
-- What the powers of two of crates/primitives/src/utils.rs are.
use mathlib.Core.WellFounded
use native.Mathlib.Nat.{two-pow-succ}
use rostl.Base.{
  ℕ, zero, suc, ◌+◌, ◌/◌, ◌^◌, ◌≤◌, ◌<◌, ◌≡◌, ◌⊎◌, inl, inr, refl, ap, arith, some, le→leb, Returns,
  returns, Returns-bind,
}
use rostl.Base.Order.{lt_wf}
use rostl.Primitives.Usize.{usize_max}
use rostl.Primitives.Powers.{
  fill_bits, get_strictly_bigger_power_of_two, get_smaller_or_equal_power_of_two,
}
use rostl.Primitives.Powers.Smear.{smear, smear_six_step}

-- `p` is the least power of two above `n`.
pub record IsNextPower (n p : ℕ) : Type 0 where
  pub exponent : ℕ
  pub power : p ≡ 2 ^ exponent
  pub above : n < p
  pub least : (j : ℕ) → n < 2 ^ j → p ≤ 2 ^ j

-- `p` is the greatest power of two that is at most `n`.
pub record IsLastPower (n p : ℕ) : Type 0 where
  pub exponent : ℕ
  pub power : p ≡ 2 ^ exponent
  pub within : p ≤ n
  pub greatest : n < p + p

-- `fill_bits n` is one below a power of two that is above `n` and at most twice `n`.
abbrev Filled : ℕ → Type 0
Filled n = (k : ℕ) × (smear 6 n + 1 ≡ 2 ^ k) × (n < 2 ^ k) × (((n ≡ 0) × (k ≡ 0)) ⊎ (2 ^ k ≤ n + n))

smear_six-zero : smear 6 0 ≡ 0
unfolding smear
smear_six-zero = refl

fill_bits-eq-smear : (n : ℕ) → fill_bits n ≡ smear 6 n
unfolding smear fill_bits
fill_bits-eq-smear n = refl

pub pow_pos : (k : ℕ) → 0 < 2 ^ k
pow_pos zero = omega arith
pow_pos (suc k) = omega (arith, two-pow-succ k, pow_pos k)

pub lt_pow : (k : ℕ) → k < 2 ^ k
lt_pow zero = omega arith
lt_pow (suc k) = omega (arith, two-pow-succ k, lt_pow k)

-- A power of two that is at most `n + 1`, for an even `n`, is at most `n` unless it is 1.
pow_even : (k n : ℕ) → 2 ^ k ≤ n / 2 + n / 2 → 2 ^ suc k ≤ n + n
pow_even k n h = omega (arith, two-pow-succ k)

filled_step : (n : ℕ) → 0 < n → n < 2 ^ 64 → Filled (n / 2) → Filled n
filled_step n pos b (k, power, above, inl (e, z)) = (
  suc k,
  omega (arith, smear_six_step n pos b, two-pow-succ k),
  omega (arith, two-pow-succ k),
  inr (omega (arith, two-pow-succ k, ap (λ t. 2 ^ t) z)),
)
filled_step n pos b (k, power, above, inr below) = (
  suc k,
  omega (arith, smear_six_step n pos b, two-pow-succ k),
  omega (arith, two-pow-succ k),
  inr (pow_even k n below),
)

filled_below : (n : ℕ) → ((m : ℕ) → m < n → m < 2 ^ 64 → Filled m) → n < 2 ^ 64 → Filled n
filled_below zero ih b = (0, omega (arith, smear_six-zero), omega arith, inl (refl, refl))
filled_below (suc n) ih b =
    filled_step (suc n) (omega arith) b (ih (suc n / 2) (omega arith) (omega arith))

filled : (n : ℕ) → n < 2 ^ 64 → Filled n
filled n = WellFounded.induction lt_wf {C = λ k. k < 2 ^ 64 → Filled k} n filled_below

-- Two powers of two are a factor of two apart.
power_gap : (j k : ℕ) → 2 ^ j < 2 ^ k → 2 ^ j + 2 ^ j ≤ 2 ^ k
power_gap zero zero h = absurd (omega arith)
power_gap zero (suc k) h = omega (arith, two-pow-succ k, pow_pos k)
power_gap (suc j) zero h = absurd (omega (arith, two-pow-succ j, pow_pos j))
power_gap (suc j) (suc k) h = omega (
  arith,
  two-pow-succ j,
  two-pow-succ k,
  power_gap j k (omega (arith, two-pow-succ j, two-pow-succ k)),
)

least_power : (n k j : ℕ) → ((n ≡ 0) × (k ≡ 0)) ⊎ (2 ^ k ≤ n + n) → n < 2 ^ j → 2 ^ k ≤ 2 ^ j
least_power n k j (inl (e, z)) h = omega (arith, ap (λ t. 2 ^ t) z)
least_power n k j (inr below) h =
    let no_less : ¬ (2 ^ j < 2 ^ k) = λ g. omega (arith, power_gap j k g) in omega arith

-- Below 2^63 the function returns the least power of two that is greater than `n`.
pub get_strictly_bigger_power_of_two_correct :
    (n : ℕ) → n < 2 ^ 63 → Returns (IsNextPower n) (get_strictly_bigger_power_of_two n)
unfolding get_strictly_bigger_power_of_two
get_strictly_bigger_power_of_two_correct n h =
    let (k, power, above, below) = filled n (omega arith) in
    let value : fill_bits n + 1 ≡ 2 ^ k = omega (arith, fill_bits-eq-smear n) in
    let fits : 2 ^ k ≤ 2 ^ 63 = least_power n k 63 below h in
    rw
      (
        le→leb n 0x8000_0000_0000_0000 (omega arith),
        le→leb (fill_bits n + 1) usize_max (omega arith),
      )
      (returns (record {
        exponent = k;
        power = value;
        above = omega arith;
        least = λ j hj. omega (arith, least_power n k j below hj);
      }))

-- Below 2^63, and above 0, the function returns the greatest power of two that is at most `n`.
pub get_smaller_or_equal_power_of_two_correct :
    (n : ℕ) → 0 < n → n < 2 ^ 63 → Returns (IsLastPower n) (get_smaller_or_equal_power_of_two n)
unfolding get_smaller_or_equal_power_of_two
get_smaller_or_equal_power_of_two_correct n pos h =
    Returns-bind (get_strictly_bigger_power_of_two_correct n h) λ p v. halved p v.exponent v.power v
  where
    halved : (p k : ℕ) → p ≡ 2 ^ k → IsNextPower n p → Returns (IsLastPower n) (some (p / 2))
    halved p zero e v = absurd (omega (arith, v.above))
    halved p (suc k) e v =
        let no_less : ¬ (n < 2 ^ k) = λ g. omega (arith, v.least k g, two-pow-succ k, pow_pos k) in
        returns (record {
          exponent = k;
          power = omega (arith, two-pow-succ k);
          within = omega (arith, two-pow-succ k);
          greatest = omega (arith, two-pow-succ k);
        })
