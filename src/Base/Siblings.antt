-- ===== src/Base/Siblings.antt =====
-- One bit of a number inverted: what leads to the other child of a node.
use Prim.Native.Nat.{bit_xor, bit_xor-bitwise, differ}
use native.Mathlib.Nat.{two-pow-succ}
use rostl.Base.Bits.{mod_halves, parity}
use rostl.Base.Digits.{digits_spare}
use rostl.Base.{
  ℕ, zero, suc, ◌+◌, ◌-◌, ◌≤◌, subst, ◌*◌, ◌/◌, ◌%◌, ◌^◌, ◌≡◌, refl, ap, sym, ◌∙◌, arith, inl, inr,
}

xor_zero : (b : ℕ) → bit_xor 0 b ≡ b
xor_zero = bit_xor-bitwise 0

-- By the lowest digit and the others.
xor_step : (a b : ℕ) → bit_xor a b ≡ bit_xor (a / 2) (b / 2) * 2 + differ (a % 2) (b % 2)
xor_step zero b = omega (arith, xor_zero b, xor_zero (b / 2))
xor_step (suc a) b =
    let half = suc a / 2 in
    let whole = bit_xor-bitwise (suc a) b in
    let high = bit_xor-bitwise half (b / 2) in
    omega (arith, whole, high, digits_spare (λ b. b) differ a half (b / 2) (omega arith))

halves : (j k : ℕ) → k % 2 ^ suc j ≡ k / 2 % 2 ^ j * 2 + k % 2
halves j k =
    ap (λ t. k % t) {x = 2 ^ suc j} {y = 2 * 2 ^ j} (omega (arith, two-pow-succ j))
    ∙ mod_halves k (2 ^ j)

differ_zero : (b : ℕ) → b % 2 ≡ differ (b % 2) 0
differ_zero b = elim (parity (b % 2) (omega arith)) [ inl e ↦ rw e refl | inr e ↦ rw e refl ]

differ_one : (p q : ℕ) → ¬ (q % 2 ≡ p % 2) → q % 2 ≡ differ (p % 2) 1
differ_one p q ne = elim (parity (p % 2) (omega arith)) [
  | inl e ↦ elim (parity (q % 2) (omega arith)) [
    | inl g ↦ absurd (ne (g ∙ sym e))
    | inr g ↦ rw (e, g) refl
  ]
  | inr e ↦ elim (parity (q % 2) (omega arith)) [
    | inl g ↦ rw (e, g) refl
    | inr g ↦ absurd (ne (g ∙ sym e))
  ]
]

-- The paths that part from a path at bit `j` are those of the path with this bit inverted.
pub other_child :
    (j p q : ℕ)
    → q % 2 ^ j ≡ p % 2 ^ j
    → ¬ (q % 2 ^ suc j ≡ p % 2 ^ suc j)
    → q % 2 ^ suc j ≡ bit_xor p (2 ^ j) % 2 ^ suc j
other_child zero p q same other =
    let step = xor_step p 1 in omega (arith, step, differ_one p q other)
other_child (suc j) p q same other =
    let low : q % 2 ≡ p % 2 = omega (arith, halves j q, halves j p) in
    let high : q / 2 % 2 ^ j ≡ p / 2 % 2 ^ j = omega (arith, halves j q, halves j p, low) in
    let parts : ¬ (q / 2 % 2 ^ suc j ≡ p / 2 % 2 ^ suc j) =
      λ e. other (omega (arith, halves (suc j) q, halves (suc j) p, e, low)) in
    let rest = other_child j (p / 2) (q / 2) high parts in
    let x = bit_xor p (2 ^ suc j) in
    let half : 2 ^ suc j / 2 ≡ 2 ^ j = omega (arith, two-pow-succ j) in
    let even : 2 ^ suc j % 2 ≡ 0 = omega (arith, two-pow-succ j) in
    let step : x ≡ bit_xor (p / 2) (2 ^ j) * 2 + differ (p % 2) 0 =
      xor_step p (2 ^ suc j) ∙ rw (half, even) refl in
    let x_half : x / 2 ≡ bit_xor (p / 2) (2 ^ j) = omega (arith, step, differ_zero p) in
    omega (
      arith,
      halves (suc j) q,
      halves (suc j) x,
      rest,
      ap (λ t. t % 2 ^ suc j) x_half,
      step,
      differ_zero p,
      low,
    )

pub xor_low : (j p : ℕ) → bit_xor p (2 ^ j) % 2 ^ j ≡ p % 2 ^ j
xor_low zero p = omega arith
xor_low (suc j) p =
    let x = bit_xor p (2 ^ suc j) in
    let half : 2 ^ suc j / 2 ≡ 2 ^ j = omega (arith, two-pow-succ j) in
    let even : 2 ^ suc j % 2 ≡ 0 = omega (arith, two-pow-succ j) in
    let step : x ≡ bit_xor (p / 2) (2 ^ j) * 2 + differ (p % 2) 0 =
      xor_step p (2 ^ suc j) ∙ rw (half, even) refl in
    let x_half : x / 2 ≡ bit_xor (p / 2) (2 ^ j) = omega (arith, step, differ_zero p) in
    omega (
      arith,
      halves j x,
      halves j p,
      xor_low j (p / 2),
      ap (λ t. t % 2 ^ j) x_half,
      step,
      differ_zero p,
    )

low_bit : (j p q : ℕ) → p % 2 ^ suc j ≡ q % 2 ^ suc j → p % 2 ^ j ≡ q % 2 ^ j
low_bit zero p q e = omega arith
low_bit (suc j) p q e =
    let low : p % 2 ≡ q % 2 = omega (arith, halves (suc j) p, halves (suc j) q) in
    let high : p / 2 % 2 ^ suc j ≡ q / 2 % 2 ^ suc j =
      omega (arith, halves (suc j) p, halves (suc j) q, low) in
    omega (arith, halves j p, halves j q, low_bit j (p / 2) (q / 2) high, low)

low_more : (n j p q : ℕ) → p % 2 ^ (n + j) ≡ q % 2 ^ (n + j) → p % 2 ^ j ≡ q % 2 ^ j
low_more zero j p q e = subst (λ k. p % 2 ^ k ≡ q % 2 ^ k) {x = 0 + j} {y = j} (omega arith) e
low_more (suc n) j p q e = low_more n j p q (
    low_bit (n + j) p q
      (subst (λ k. p % 2 ^ k ≡ q % 2 ^ k) {x = suc n + j} {y = suc (n + j)} (omega arith) e))

-- Paths that agree down to a depth agree above it.
pub low_bits : (i j p q : ℕ) → i ≤ j → p % 2 ^ j ≡ q % 2 ^ j → p % 2 ^ i ≡ q % 2 ^ i
low_bits i j p q h e =
    low_more (j - i) i p q
      (subst (λ k. p % 2 ^ k ≡ q % 2 ^ k) {x = j} {y = j - i + i} (omega arith) e)
