-- ===== src/Base/Bits.antt =====
-- Masks: the bits of a number that `&` with a power of two, or with all lower bits, keeps.
use Prim.Native.Nat.{bit_and, bit_and-bitwise, min}
use native.Mathlib.Nat.{
  one-le-pow, mod-one, div-add-mod, mul_assoc, two-pow-succ, pow-suc, div-div-eq-div-mul, mul_comm,
}
use rostl.Base.Digits.{digits_spare}
use rostl.Base.{
  ℕ, zero, suc, ◌+◌, ◌-◌, ◌≤◌, ◌*◌, ◌/◌, ◌%◌, ◌^◌, ◌≡◌, sym, ◌∙◌, ap, arith, ◌<◌, ◌⊎◌, inl, inr,
}

pub parity : (b : ℕ) → b < 2 → (b ≡ 0) ⊎ (b ≡ 1)
parity b h = ground arith

and_zero : (b : ℕ) → bit_and 0 b ≡ 0
and_zero = bit_and-bitwise 0

-- `&` by its lowest digit and the others.
pub bit_and_step : (a b : ℕ) → bit_and a b ≡ bit_and (a / 2) (b / 2) * 2 + min (a % 2) (b % 2)
bit_and_step zero b = omega (arith, and_zero b, and_zero (b / 2))
bit_and_step (suc a) b =
    let half = suc a / 2 in
    let whole = bit_and-bitwise (suc a) b in
    let high = bit_and-bitwise half (b / 2) in
    omega (arith, whole, high, digits_spare (λ t. zero) min a half (b / 2) (omega arith))

one_bit : (q p p' b : ℕ) → p' ≡ p + p → q % 2 * p * 2 + min (p' % 2) b ≡ q % 2 * p'
one_bit q p p' b e = elim (parity (q % 2) (omega arith)) [
  | inl z ↦ rw z (omega arith)
  | inr z ↦ rw z (omega arith)
]

-- A single bit.
pub bit_and-pow : (j k : ℕ) → bit_and (2 ^ j) k ≡ k / 2 ^ j % 2 * 2 ^ j
bit_and-pow zero k = omega (arith, bit_and_step 1 k, and_zero (k / 2))
bit_and-pow (suc j) k =
    let e : 2 ^ suc j / 2 ≡ 2 ^ j = omega (arith, two-pow-succ j) in
    let q : k / 2 / 2 ^ j ≡ k / 2 ^ suc j =
      div-div-eq-div-mul k 2 (2 ^ j) ∙ ap (λ t. k / t) (mul_comm 2 (2 ^ j) ∙ sym (pow-suc 2 j)) in
    bit_and_step (2 ^ suc j) k
    ∙ rw (e, bit_and-pow j (k / 2), q)
        (one_bit (k / 2 ^ suc j) (2 ^ j) (2 ^ suc j) (k % 2) (two-pow-succ j))

pub mod_halves : (k p : ℕ) → k % (2 * p) ≡ k / 2 % p * 2 + k % 2
mod_halves k p =
    let one = div-add-mod k (2 * p) in
    let two = div-add-mod (k / 2) p in
    let same : k / 2 / p ≡ k / (2 * p) = div-div-eq-div-mul k 2 p in
    let cut : 2 * p * (k / (2 * p)) ≡ 2 * (p * (k / 2 / p)) =
      mul_assoc 2 p (k / (2 * p)) ∙ ap (λ t. 2 * (p * t)) (sym same) in
    omega arith

bit_and_nothing : (n k : ℕ) → k ≤ n → bit_and k 0 ≡ 0
bit_and_nothing n zero h = and_zero 0
bit_and_nothing zero (suc k) h = absurd (omega arith)
bit_and_nothing (suc n) (suc k) h =
    omega (arith, bit_and_step (suc k) 0, bit_and_nothing n (suc k / 2) (omega arith))

-- A mask of the `d` lowest bits.
pub bit_and-mask : (d k : ℕ) → bit_and k (2 ^ d - 1) ≡ k % 2 ^ d
bit_and-mask zero k = bit_and_nothing k k (omega arith) ∙ sym (mod-one k)
bit_and-mask (suc d) k =
    let dbl = two-pow-succ d in
    let pos = one-le-pow d 2 (omega arith) in
    let high : (2 ^ suc d - 1) / 2 ≡ 2 ^ d - 1 = omega arith in
    let low : (2 ^ suc d - 1) % 2 ≡ 1 = omega arith in
    let split : k % 2 ^ suc d ≡ k / 2 % 2 ^ d * 2 + k % 2 =
      ap (λ t. k % t) {x = 2 ^ suc d} {y = 2 * 2 ^ d} (omega arith) ∙ mod_halves k (2 ^ d) in
    bit_and_step k (2 ^ suc d - 1) ∙ rw (high, low, bit_and-mask d (k / 2), split) (omega arith)
