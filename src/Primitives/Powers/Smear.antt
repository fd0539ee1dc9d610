-- ===== src/Primitives/Powers/Smear.antt =====
-- Why or-ing a number with its shifts by 1, 2, 4, …, 32 sets every bit below its highest one:
-- halving commutes with each round, and the lowest bit of the result is set if any of the 64 is.
use Prim.Native.Nat.{bit_or, bit_or-bitwise}
use native.Mathlib.Nat.{
  pow-suc, mul-mod_right, div-add-mod, mul_assoc, mul_comm, div-div-eq-div-mul, two-pow-succ,
}
use rostl.Base.Digits.{digits_spare}
use rostl.Base.{
  ℕ, zero, suc, ◌+◌, ◌*◌, ◌/◌, ◌%◌, ◌^◌, ◌<◌, max, ◌≡◌, ◌≢◌, refl, ◌∙◌, ap, sym, arith,
}

or_zero : (b : ℕ) → bit_or 0 b ≡ b
or_zero = bit_or-bitwise 0

-- `|` by its lowest digit and the others.
pub bit_or_step : (a b : ℕ) → bit_or a b ≡ bit_or (a / 2) (b / 2) * 2 + max (a % 2) (b % 2)
bit_or_step zero b = omega (arith, or_zero b, or_zero (b / 2))
bit_or_step (suc a) b =
    let half = suc a / 2 in
    let whole = bit_or-bitwise (suc a) b in
    let high = bit_or-bitwise half (b / 2) in
    omega (arith, whole, high, digits_spare (λ t. t) max a half (b / 2) (omega arith))

half-bit_or : (a b : ℕ) → bit_or a b / 2 ≡ bit_or (a / 2) (b / 2)
half-bit_or a b = omega (arith, bit_or_step a b)

div_swap : (x a b : ℕ) → x / a / b ≡ x / b / a
div_swap x a b =
    div-div-eq-div-mul x a b ∙ ap (λ t. x / t) (mul_comm a b) ∙ sym (div-div-eq-div-mul x b a)

-- The number after `i` of the rounds.
unfoldable pub smear : ℕ → ℕ → ℕ
smear zero n = n
smear (suc i) n = bit_or (smear i n) (smear i n / 2 ^ 2 ^ i)

smear-half : (i n : ℕ) → smear i (n / 2) ≡ smear i n / 2
unfolding smear
smear-half zero n = refl
smear-half (suc i) n =
    let y = smear i n in
    rw (smear-half i n, half-bit_or y (y / 2 ^ 2 ^ i), div_swap y (2 ^ 2 ^ i) 2)

smear-shift : (i s n : ℕ) → smear i (n / 2 ^ s) ≡ smear i n / 2 ^ s
smear-shift i zero n = ap (smear i) {x = n / 1} {y = n} (omega arith) ∙ omega arith
smear-shift i (suc s) n =
    rw (pow-suc 2 s, ← div-div-eq-div-mul n (2 ^ s) 2, smear-half i (n / 2 ^ s), smear-shift i s n)
      (div-div-eq-div-mul (smear i n) (2 ^ s) 2)

square : (m n : ℕ) → n % m ≡ 0 → n / m % m ≡ 0 → n % (m * m) ≡ 0
square m n h k =
    let inner : n / m ≡ m * (n / m / m) = omega (arith, div-add-mod (n / m) m) in
    let e : n ≡ m * m * (n / m / m) =
      rw mul_assoc (omega (arith, div-add-mod n m, ap (λ (t : ℕ). m * t) inner)) in
    omega (arith, mul-mod_right (m * m) (n / m / m), ap (λ (t : ℕ). t % (m * m)) e)

pow_add : (a b : ℕ) → 2 ^ (a + b) ≡ 2 ^ a * 2 ^ b
pow_add a zero = ap (λ t. 2 ^ t) {x = a + 0} {y = a} (omega arith) ∙ omega arith
pow_add a (suc b) =
    let e : a + suc b ≡ suc (a + b) = omega arith in
    rw (e, pow-suc 2 (a + b), pow-suc 2 b, pow_add a b) (mul_assoc (2 ^ a) (2 ^ b) 2)

-- If the lowest bit is clear after `i` rounds, the lowest 2^i bits were clear before.
smear-low : (i n : ℕ) → smear i n % 2 ≡ 0 → n % 2 ^ 2 ^ i ≡ 0
unfolding smear
smear-low zero n h = h
smear-low (suc i) n h =
    let m = 2 ^ 2 ^ i in
    let parts = bit_or_step (smear i n) (smear i n / m) in
    let low = smear-low i n (omega arith) in
    let high = smear-low i (n / m) (rw (smear-shift i (2 ^ i) n) (omega arith)) in
    rw (two-pow-succ i, pow_add (2 ^ i) (2 ^ i)) (square m n low high)

-- One bit at a time: the result is all ones.
pub smear_six_step : (n : ℕ) → 0 < n → n < 2 ^ 64 → smear 6 n ≡ smear 6 (n / 2) * 2 + 1
smear_six_step n h b =
    let odd : smear 6 n % 2 ≢ 0 = λ e. omega (arith, smear-low 6 n e) in
    omega (arith, smear-half 6 n)
