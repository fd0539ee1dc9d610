-- ===== src/Primitives/Zeros.antt =====
-- Trailing zeros of a number, as the standard library counts them, and the bits that two numbers
-- share.
use Prim.Native.Nat.{bit_xor, bit_xor-bitwise, differ}
use native.Mathlib.Nat.{two-pow-succ, mod-one}
use rostl.Base.{
  ℕ, zero, suc, ◌+◌, ◌*◌, ◌/◌, ◌%◌, ◌^◌, ◌≤◌, ◌<◌, ◌≡◌, refl, ap, ◌∙◌, sym, ◌==◌, if◌then◌else◌,
  arith, Bool-cases, true, inl, inr, ==_iff, eq→==,
}
use rostl.Base.Digits.{digits_spare}
use rostl.Base.Bits.{mod_halves}

-- At most so many zeros as the first argument says, the width of the type.
unfoldable pub zeros_loop : ℕ → ℕ → ℕ
zeros_loop zero n = 0
zeros_loop (suc rounds) n =
    let rest = zeros_loop rounds (n / 2) in if n % 2 == 0 then suc rest else 0

-- A power of two has as many as its exponent says.
pub zeros_loop-pow : (k rounds : ℕ) → k < rounds → zeros_loop rounds (2 ^ k) ≡ k
unfolding zeros_loop
zeros_loop-pow zero zero h = absurd (omega arith)
zeros_loop-pow zero (suc rounds) h = refl
zeros_loop-pow (suc k) zero h = absurd (omega arith)
zeros_loop-pow (suc k) (suc rounds) h =
    let even : (2 ^ suc k % 2 == 0) ≡ true =
      eq→== (2 ^ suc k % 2) 0 (omega (arith, two-pow-succ k)) in
    let half : 2 ^ suc k / 2 ≡ 2 ^ k = omega (arith, two-pow-succ k) in
    rw (even, half) (ap suc (zeros_loop-pow k rounds (omega arith)))

xor_zero : (b : ℕ) → bit_xor 0 b ≡ b
xor_zero = bit_xor-bitwise 0

xor_step : (a b : ℕ) → bit_xor a b ≡ bit_xor (a / 2) (b / 2) * 2 + differ (a % 2) (b % 2)
xor_step zero b = omega (arith, xor_zero b, xor_zero (b / 2))
xor_step (suc a) b =
    let half = suc a / 2 in
    let whole = bit_xor-bitwise (suc a) b in
    let high = bit_xor-bitwise half (b / 2) in
    omega (arith, whole, high, digits_spare (λ t. t) differ a half (b / 2) (omega arith))

differ_bits : (a b : ℕ) → a < 2 → b < 2 → (differ a b < 2) × (differ a b ≡ 0 → a ≡ b)
differ_bits zero b h h' = (h', λ e. omega arith)
differ_bits (suc zero) zero h h' = (omega arith, λ e. omega arith)
differ_bits (suc zero) (suc zero) h h' = (omega arith, λ e. refl)
differ_bits (suc zero) (suc (suc b)) h h' = absurd (omega arith)
differ_bits (suc (suc a)) b h h' = absurd (omega arith)

-- `a ^ b` shifted by one, and its lowest bit.
xor_half :
    (a b : ℕ) → (bit_xor a b / 2 ≡ bit_xor (a / 2) (b / 2)) × (bit_xor a b % 2 ≡ 0 → a % 2 ≡ b % 2)
xor_half a b =
    let (small, same) = differ_bits (a % 2) (b % 2) (omega arith) (omega arith) in
    let step = xor_step a b in (omega arith, λ e. same (omega arith))

-- As many low bits as `a ^ b` has trailing zeros are the same in both.
pub shared_bits : (d rounds a b : ℕ) → d ≤ zeros_loop rounds (bit_xor a b) → a % 2 ^ d ≡ b % 2 ^ d
unfolding zeros_loop
shared_bits zero rounds a b h = mod-one a ∙ sym (mod-one b)
shared_bits (suc d) zero a b h = absurd (omega arith)
shared_bits (suc d) (suc rounds) a b h = elim (Bool-cases (bit_xor a b % 2 == 0)) [
  | inr odd ↦ absurd (omega (arith, rw odd at h))
  | inl even ↦
      let (half, low) = xor_half a b in
      let dbl : 2 ^ suc d ≡ 2 * 2 ^ d = omega (arith, two-pow-succ d) in
      let rest = shared_bits d rounds (a / 2) (b / 2) (omega (arith, rw (even, half) at h)) in
      let bit = low ((==_iff (bit_xor a b % 2) 0).0 even) in
      rw dbl (mod_halves a (2 ^ d) ∙ omega arith ∙ sym (mod_halves b (2 ^ d)))
]
