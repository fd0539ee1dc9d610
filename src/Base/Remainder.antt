-- ===== src/Base/Remainder.antt =====
-- Remainders: by a power of two bit by bit, and of numbers that run through a cycle.
use native.Mathlib.Nat.{
  div-add-mod, div-div-eq-div-mul, mul_assoc, mul-le-mul_left, mul-suc, mod-lt, mod-eq-sub-mod,
  mod-add-mod, mod-eq_of_lt,
}
use native.Mathlib.Decide.{dec_lt}
use rostl.Base.{
  ℕ, suc, ◌+◌, ◌-◌, ◌*◌, ◌/◌, ◌%◌, ◌<◌, ◌≡◌, ap, sym, ◌∙◌, inl, inr, arith, ltb, if◌then◌else◌,
  lt→ltb, le→ltb,
}
use rostl.Base.Bits.{parity}

double : (p q h k r r' : ℕ) → p * q + r ≡ k → p * 2 * h + r' ≡ k → q / 2 ≡ h → r' ≡ r + q % 2 * p
double p q h k r r' e1 e2 e3 = elim (parity (q % 2) (omega arith)) [
  | inl z ↦
      let f : p * q ≡ p * 2 * h =
        ap (λ t. p * t) {x = q} {y = 2 * h} (omega arith) ∙ sym (mul_assoc p 2 h) in
      rw z (omega arith)
  | inr z ↦
      let f : p * q ≡ p * 2 * h + p =
        ap (λ t. p * t) {x = q} {y = 2 * h + 1} (omega arith) ∙ omega (arith, mul_assoc p 2 h) in
      rw z (omega arith)
]

-- One more bit of `k`.
pub mod_double : (k p : ℕ) → 0 < p → k % (p * 2) ≡ k % p + k / p % 2 * p
mod_double k p h =
    let halve : k / p / 2 ≡ k / (p * 2) = div-div-eq-div-mul k p 2 in
    let one = div-add-mod k p in
    let two = div-add-mod k (p * 2) in
    double p (k / p) (k / (p * 2)) k (k % p) (k % (p * 2)) (omega arith) (omega arith)
      (omega (arith, halve))

-- Numbers that differ by less than `n` have different remainders.
pub mod_injective : (n a b : ℕ) → a < b → b < a + n → ¬ (a % n ≡ b % n)
mod_injective n a b h h' e =
    let ea = div-add-mod a n in
    let eb = div-add-mod b n in
    elim (dec_lt (a / n) (b / n)) [
      | yes more ↦
          omega (
            arith,
            mul-le-mul_left {m = suc (a / n)} {n = b / n} n (omega arith),
            mul-suc n (a / n),
          )
      | no less ↦ omega (arith, mul-le-mul_left {m = b / n} {n = a / n} n (omega arith))
    ]

pub turn :
    (n off k : ℕ)
    → k < n
    → (if ltb (k + off % n) n then k + off % n else k + off % n - n) ≡ (off + k) % n
turn n off k h =
    let r = mod-lt off {m = n} (omega arith) in
    let e : (off + k) % n ≡ (off % n + k) % n = sym (mod-add-mod off n k) in
    elim (dec_lt (k + off % n) n) [
      | yes below ↦
          rw (lt→ltb (k + off % n) n below) (sym (e ∙ mod-eq_of_lt (omega arith) ∙ omega arith))
      | no above ↦
          rw (le→ltb (k + off % n) n (omega arith))
            (sym (e ∙ mod-eq-sub-mod (omega arith) ∙ mod-eq_of_lt (omega arith) ∙ omega arith))
    ]

-- Every index below `n` is a remainder of `off + i`, for an `i` below `n`.
pub unturn : (n off k : ℕ) → k < n → (i : ℕ) × (i < n) × ((off + i) % n ≡ k)
unturn n off k h =
    let r = mod-lt off {m = n} (omega arith) in
    elim (dec_lt k (off % n)) [
      | yes before ↦ (
        k + n - off % n,
        omega arith,
        sym (turn n off (k + n - off % n) (omega arith)) ∙ ground arith,
      )
      | no after ↦
          (k - off % n, omega arith, sym (turn n off (k - off % n) (omega arith)) ∙ ground arith)
    ]
