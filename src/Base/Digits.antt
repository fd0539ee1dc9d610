-- ===== src/Base/Digits.antt =====
-- Bitwise operations, digit by digit: fuel beyond the left argument changes nothing.
use Prim.Native.Nat.{digits}
use rostl.Base.{ℕ, zero, suc, ◌+◌, ◌-◌, ◌/◌, ◌≤◌, ◌≡◌, refl, ap, ◌∙◌, arith}

module _ (rest : ℕ → ℕ) (op : ℕ → ℕ → ℕ) where
  spare_unit : (n a b : ℕ) → a ≤ n → digits rest op (suc n) a b ≡ digits rest op n a b
  spare_unit zero zero b h = refl
  spare_unit (suc n) zero b h = refl
  spare_unit zero (suc a) b h = absurd (omega arith)
  spare_unit (suc n) (suc a) b h = omega (arith, spare_unit n (suc a / 2) (b / 2) (omega arith))

  spare_units : (d n a b : ℕ) → a ≤ n → digits rest op (d + n) a b ≡ digits rest op n a b
  spare_units zero n a b h = ap (λ f. digits rest op f a b) {x = 0 + n} {y = n} (omega arith)
  spare_units (suc d) n a b h =
      ap (λ f. digits rest op f a b) {x = suc d + n} {y = suc (d + n)} (omega arith)
      ∙ spare_unit (d + n) a b (omega arith)
      ∙ spare_units d n a b h

  -- The fuel that is just enough.
  pub digits_spare : (n a b : ℕ) → a ≤ n → digits rest op n a b ≡ digits rest op a a b
  digits_spare n a b h =
      ap (λ f. digits rest op f a b) {x = n} {y = n - a + a} (omega arith)
      ∙ spare_units (n - a) a a b (omega arith)
