-- ===== src/Structures/OramArrays/RealIndex.antt =====
-- crates/datastructures/src/array.rs: the subarrays of a MultiWayArray share no index of the memory.
use Prim.Native.Nat.{bit_or}
use mathlib.Core.Option.{some-injective}
use native.Mathlib.Nat.{
  two-pow-succ, pow-suc, mod-eq_of_lt, pow-le-pow_right, mul_assoc, mul-le-mul_right, suc-mul,
}
use native.Mathlib.Decide.{dec_lt}
use rostl.Base.{
  ℕ, zero, suc, ◌+◌, ◌*◌, ◌/◌, ◌^◌, ◌≤◌, ◌<◌, ◌≡◌, refl, ap, sym, ◌∙◌, arith, some, ltb, Bool-cases,
  inl, inr, ltb→lt,
}
use rostl.Primitives.Powers.Smear.{bit_or_step}
use rostl.Primitives.Powers.Laws.{pow_pos, lt_pow}
use rostl.Oram.Circuit.{ilog2_loop}
use rostl.Oram.Circuit.New.{ilog2_loop_lem, exponent_le, exponent_lt}
use rostl.Structures.OramArrays.MultiWay.{MultiWayArray, multi_way_len, get_real_index}

bit_or_zero : (rounds a : ℕ) → a < 2 ^ rounds → bit_or a 0 ≡ a
bit_or_zero zero a h = let z : a ≡ 0 = omega (arith, h) in rw z refl
bit_or_zero (suc rounds) a h =
    let rest = bit_or_zero rounds (a / 2) (omega (arith, h, two-pow-succ rounds)) in
    bit_or_step a 0 ∙ ground (arith, rest)

bit_or_low : (k i s : ℕ) → s < 2 ^ k → bit_or (i * 2 ^ k) s ≡ i * 2 ^ k + s
bit_or_low zero i s h =
    let none_low : s ≡ 0 = omega (arith, h) in
    rw none_low (bit_or_zero i (i * 2 ^ 0) (omega (arith, lt_pow i)) ∙ omega arith)
bit_or_low (suc k) i s h =
    let p = i * 2 ^ k in
    let twice : i * 2 ^ suc k ≡ 2 * p =
      ap (λ x. i * x) (pow-suc 2 k) ∙ sym (mul_assoc i (2 ^ k) 2) ∙ omega arith in
    let half : i * 2 ^ suc k / 2 ≡ p = omega (arith, twice) in
    let rest = bit_or_low k i (s / 2) (omega (arith, h, two-pow-succ k)) in
    bit_or_step (i * 2 ^ suc k) s ∙ rw half (ground (arith, rest, twice))

ilog2_pow : (k : ℕ) → k < 64 → ilog2_loop 64 (2 ^ k) ≡ k
ilog2_pow k h =
    let (low, high) = ilog2_loop_lem 64 (2 ^ k) (pow_pos k) (
      omega (
        arith,
        two-pow-succ k,
        pow_pos k,
        pow-le-pow_right {n = 2} (omega arith) {i = suc k} {j = 64} (omega (arith, h)),
      )) in
    let l = ilog2_loop 64 (2 ^ k) in omega (arith, exponent_le l k low, exponent_lt k (suc l) high)

row_le : (p i i' s s' : ℕ) → s < p → i * p + s ≡ i' * p + s' → i' ≤ i
row_le p i i' s s' h e = elim (dec_lt i i') [
  | no ne ↦ omega (arith, ne)
  | yes below ↦
      absurd (omega (arith, h, e, suc-mul i p, mul-le-mul_right {m = suc i} {n = i'} p below))
]

module _ {A : Type 0} (self : MultiWayArray A) (k len : ℕ) (small : k < 64)
    (length : multi_way_len self ≡ some len) (room : len * 2 ^ k ≤ 2 ^ 64) where
  -- Within bounds the index is the subarray's number behind the index in it.
  get_real_index_lem :
      (subarray index r : ℕ)
      → get_real_index (2 ^ k) self subarray index ≡ some r
      → (subarray < 2 ^ k) × (r ≡ index * 2 ^ k + subarray)
  unfolding get_real_index
  get_real_index_lem subarray index r e = elim (Bool-cases (ltb subarray (2 ^ k))) [
    | inr f ↦ absurd (cc (rw (length, f) at e))
    | inl f ↦ elim (Bool-cases (ltb index len)) [
      | inr g ↦ absurd (cc (rw (length, f, g) at e))
      | inl g ↦
          let below = ltb→lt subarray (2 ^ k) f in
          let inside = ltb→lt index len g in
          let fits : index * 2 ^ k < 2 ^ 64 = omega (
            arith,
            pow_pos k,
            suc-mul index (2 ^ k),
            mul-le-mul_right {m = suc index} {n = len} (2 ^ k) inside,
            room,
          ) in
          (
            below,
            sym (
                some-injective _ _ (
                  rw
                    (
                      length,
                      f,
                      g,
                      ilog2_pow k small,
                      mod-eq_of_lt fits,
                      bit_or_low k index subarray below,
                    )
                    at e)),
          )
    ]
  ]

  -- For 2^k subarrays, k below 64, that together have at most 2^64 indices: no two subarrays, and
  -- no two indices of one, have the same index in the memory.
  pub get_real_index_injective :
      (subarray index subarray' index' r : ℕ)
      → get_real_index (2 ^ k) self subarray index ≡ some r
      → get_real_index (2 ^ k) self subarray' index' ≡ some r
      → (subarray ≡ subarray') × (index ≡ index')
  get_real_index_injective subarray index subarray' index' r e e' =
      let (low, at) = get_real_index_lem subarray index r e in
      let (low', at') = get_real_index_lem subarray' index' r e' in
      let no_less = row_le (2 ^ k) index' index subarray' subarray low' (sym at' ∙ at) in
      let no_more = row_le (2 ^ k) index index' subarray subarray' low (sym at ∙ at') in
      let same : index ≡ index' = omega (arith, no_less, no_more) in
      (omega (arith, at, at', ap (λ x. x * 2 ^ k) same), same)
