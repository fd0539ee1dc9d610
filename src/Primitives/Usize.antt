-- ===== src/Primitives/Usize.antt =====
-- Arithmetic on `usize`, 64 bits wide, in a build with overflow checks and debug assertions: what
-- would overflow panics. Also `Cmov` for integers, which crates/primitives/src/asm_x86.rs
-- implements by the processor's conditional move.
use rostl.Base.{
  ℕ, ◌+◌, ◌-◌, ◌%◌, ◌^◌, ◌≤◌, ◌<◌, ◌≡◌, refl, Bool, true, false, Option, none, some, arith,
  if◌then◌else◌, ltb, ◌==◌, le→ltb, lt→ltb, ne→==,
}
use rostl.Primitives.{Cmov}

abbrev pub usize_max : ℕ
usize_max = 2 ^ 64 - 1

-- `a + b`
unfoldable pub checked_add : ℕ → ℕ → Option ℕ
checked_add a b = if ltb (a + b) (2 ^ 64) then some (a + b) else none

-- `a.wrapping_sub(b)`
abbrev pub wrapping_sub : ℕ → ℕ → ℕ
wrapping_sub a b = (a + 2 ^ 64 - b) % 2 ^ 64

-- `a - b`
unfoldable pub checked_sub : ℕ → ℕ → Option ℕ
checked_sub a b = if ltb a b then none else some (a - b)

-- `a % b`
unfoldable pub checked_rem : ℕ → ℕ → Option ℕ
checked_rem a b = if b == 0 then none else some (a % b)

-- `!a`
abbrev pub bit_not : ℕ → ℕ
bit_not a = usize_max - a

pub checked_add_lem : (a b : ℕ) → a + b < 2 ^ 64 → checked_add a b ≡ some (a + b)
unfolding checked_add
checked_add_lem a b h = rw (lt→ltb (a + b) (2 ^ 64) h)

pub checked_sub_lem : (a b : ℕ) → b ≤ a → checked_sub a b ≡ some (a - b)
unfolding checked_sub
checked_sub_lem a b h = rw (le→ltb a b h)

pub checked_rem_lem : (a b : ℕ) → 0 < b → checked_rem a b ≡ some (a % b)
unfolding checked_rem
checked_rem_lem a b h = rw (ne→== b 0 (omega arith))

-- `cmovnz` on one register, and `cxchg` by two of them.
abbrev pub cmov_base : ℕ → ℕ → Bool → ℕ
cmov_base self other choice = if choice then other else self

abbrev pub cxchg_base : ℕ → ℕ → Bool → ℕ × ℕ
cxchg_base self other choice = (cmov_base self other choice, cmov_base other self choice)

pub cxchg_base_lem :
    (a b : ℕ) (choice : Bool) → cxchg_base a b choice ≡ (if choice then (b, a) else (a, b))
cxchg_base_lem a b true = refl
cxchg_base_lem a b false = refl

instance abbrev pub usize_cmov : Cmov ℕ
usize_cmov = record {
  cmov = cmov_base;
  cxchg = cxchg_base;
  cmov_lem = λ a b c. refl;
  cxchg_lem = cxchg_base_lem;
}
