-- ===== src/Sort/Rotate/Rounds.antt =====
-- crates/sort/src/rotate.rs: `rotate_left` rotates, whatever the slice and the amount.
use Prim.Native.Nat.{bit_and}
use native.Mathlib.Decide.{dec_lt}
use native.Mathlib.Nat.{two-pow-succ, mod-eq_of_lt, mod-one, mod_self, pow-le-pow_right, mod-le}
use mathlib.Core.List.Perm
use rostl.Base.{
  ℕ, zero, suc, ◌+◌, ◌-◌, ◌*◌, ◌/◌, ◌%◌, ◌^◌, ◌≤◌, ◌<◌, ◌≡◌, refl, sym, ap, ◌∙◌, inl, inr, Bool,
  true, false, List, ◌++◌, some, none, if◌then◌else◌, leb, ltb, length, arith, Returns,
  Returns-bind, get_elem?, take, drop, Bool-cases, returns, Returns-some, leb→le, list_ext,
  get_elem?-none, ne→==, subst, Option, ◌>>=◌, lt→ltb, le→leb, le→ltb,
}
use rostl.Base.Bits.{bit_and-pow, parity}
use rostl.Base.Remainder.{mod_double}
use rostl.Base.Rotation.{short_rotation, length-rotation, get_elem?-rotation}
use rostl.Primitives.{Cmov}
use rostl.Primitives.Powers.Laws.{pow_pos}
use rostl.Sort.Swaps.{Moved}
use rostl.Sort.Rotate.{enabled, reverse_region, rotate_rounds, rotate_left}
use rostl.Sort.Rotate.Reverse.{reverse_region-Moved, turned, turned_lem}

-- `out` is `arr`, rotated left by `r`.
record Rotated {A : Type 0} (arr : List A) (r : ℕ) (out : List A) : Type 0 where
  size : length out ≡ length arr
  entry :
      (i : ℕ)
      → i < length arr
      → get_elem? out i
        ≡ get_elem? arr (if ltb (i + r) (length arr) then i + r else i + r - length arr)

module _ {A : Type 0} (arr : List A) where
  kept-Rotated :
      (r r' s : ℕ) (cur out : List A)
      → r ≡ r'
      → Rotated arr r cur
      → Moved cur (turned (length arr) s false) out
      → Rotated arr r' out
  kept-Rotated r r' s cur out e c w =
      rw (← e) (record { size = w.size ∙ c.size; entry = λ i hi. w.entry i ∙ c.entry i hi })

  turned-Rotated :
      (r s : ℕ) (cur out : List A)
      → r + s ≤ length arr
      → s < length arr
      → Rotated arr r cur
      → Moved cur (turned (length arr) s true) out
      → Rotated arr (r + s) out
  turned-Rotated r s cur out b h c w = record {
    size = w.size ∙ c.size;
    entry = λ i hi.
        w.entry i
        ∙ ap (get_elem? cur) (turned_lem (length arr) s i h hi)
        ∙ elim (dec_lt (i + s) (length arr)) [
          | yes below ↦
              rw (lt→ltb (i + s) (length arr) below)
                (c.entry (i + s) below ∙ ap (get_elem? arr) (ground arith))
          | no above ↦
              rw (le→ltb (i + s) (length arr) (omega arith))
                (c.entry (i + s - length arr) (omega arith) ∙ ap (get_elem? arr) (ground arith))
        ];
  }

  round-Rotated :
      (r s k : ℕ) (cur out : List A)
      → r + k / s % 2 * s ≤ length arr
      → s < length arr
      → 0 < s
      → Rotated arr r cur
      → Moved cur (turned (length arr) s (enabled s k)) out
      → bit_and s k ≡ k / s % 2 * s
      → Rotated arr (r + k / s % 2 * s) out
  round-Rotated r s k cur out b h p c w e = elim (parity (k / s % 2) (omega arith)) [
    | inl z ↦
        let unset : bit_and s k ≡ 0 = e ∙ ap (λ t. t * s) z ∙ omega arith in
        let off : enabled s k ≡ false = rw unset refl in
        kept-Rotated r (r + k / s % 2 * s) s cur out (rw z (omega arith)) c (rw off at w)
    | inr z ↦
        let on : enabled s k ≡ true = rw (e, z, ne→== (1 * s) 0 (omega arith)) refl in
        let go = turned-Rotated r s cur out (omega (arith, rw z at b)) h c (rw on at w) in
        subst (λ t. Rotated arr t out) {x = r + s} (rw z (omega arith)) go
  ]

  thrice-Moved :
      ⦃m : Cmov A⦄ {Q : List A → Type 0} {f : List A → Option (List A)} (s : ℕ) (enable : Bool)
      (cur : List A)
      → length cur ≡ length arr
      → s < length arr
      → ((out : List A) → Moved cur (turned (length arr) s enable) out → Returns Q (f out))
      → Returns Q (
          reverse_region cur 0 s enable >>= λ head.
          reverse_region head s (length arr) enable >>= λ parts.
          reverse_region parts 0 (length arr) enable >>= f)
  thrice-Moved s enable cur e h k =
      Returns-bind (reverse_region-Moved cur 0 s enable (omega arith) (omega arith)) λ head w1.
        Returns-bind
          (reverse_region-Moved head s (length arr) enable (omega arith) (omega (arith, w1.size)))
          λ parts w2.
            Returns-bind
              (reverse_region-Moved parts 0 (length arr) enable (omega arith)
                (omega (arith, w1.size, w2.size)))
              λ out w3. k out (record {
                size = w3.size ∙ w2.size ∙ w1.size;
                entry = λ i. w3.entry i ∙ w2.entry _ ∙ w1.entry _;
                perm = Perm.trans w3.perm (Perm.trans w2.perm w1.perm);
              })

-- A slice rotated left: its tail, then its head.
Rotated-eq :
    {A : Type 0} (arr out : List A) (k : ℕ)
    → k ≤ length arr
    → Rotated arr k out
    → out ≡ drop k arr ++ take k arr
Rotated-eq arr out k b c = list_ext out (drop k arr ++ take k arr) λ i.
    elim (dec_lt i (length arr)) [
      | yes inside ↦ c.entry i inside ∙ sym (get_elem?-rotation arr k i b inside)
      | no outside ↦
          get_elem?-none out i (omega (arith, c.size))
          ∙ sym
              (get_elem?-none (drop k arr ++ take k arr) i (omega (arith, length-rotation arr k b)))
    ]

start-Rotated : {A : Type 0} (arr : List A) (k : ℕ) → Rotated arr (k % 2 ^ 0) arr
start-Rotated arr k =
    rw (mod-one k) (record { size = refl; entry = λ i h. ap (get_elem? arr) (ground arith) })

below_63 : (j n : ℕ) → 2 ^ j < n → n < 2 ^ 63 → suc j ≤ 63
below_63 j n more b = elim (dec_lt j 63) [
  | yes h ↦ omega arith
  | no h ↦
      absurd (omega (arith, pow-le-pow_right {n = 2} (omega arith) {i = 63} {j = j} (omega arith)))
]

-- Once `s` has passed the length, every bit of `k` has been read, or `k` is `s`.
all_bits :
    {A : Type 0} (arr : List A) (k s : ℕ) (cur : List A)
    → k ≤ length arr
    → length arr ≤ s
    → 0 < s
    → Rotated arr (k % s) cur
    → Rotated arr k cur
all_bits arr k s cur h d p c = elim (dec_lt k s) [
  | yes below ↦ subst (λ t. Rotated arr t cur) (mod-eq_of_lt below) c
  | no full ↦
      let e : k ≡ s = omega arith in
      let c' : Rotated arr 0 cur =
        subst (λ t. Rotated arr t cur) (ap (λ t. t % s) e ∙ mod_self s) c in
      record { size = c.size; entry = λ i hi. c'.entry i hi ∙ ap (get_elem? arr) (ground arith) }
]

rounds-Rotated :
    {A : Type 0} ⦃m : Cmov A⦄ (arr : List A) (k fuel j : ℕ) (cur : List A)
    → length arr < 2 ^ 63
    → k ≤ length arr
    → 65 ≤ j + fuel
    → j ≤ 63
    → Rotated arr (k % 2 ^ j) cur
    → Returns (λ out. out ≡ drop k arr ++ take k arr) (rotate_rounds fuel (2 ^ j) k cur)
unfolding rotate_rounds
rounds-Rotated arr k zero j cur b h f g c = absurd (omega arith)
rounds-Rotated arr k (suc fuel) j cur b h f g c = elim (dec_lt (2 ^ j) (length arr)) [
  | yes more ↦
      let same : length cur ≡ length arr = c.size in
      let e : 2 ^ j * 2 % 2 ^ 64 ≡ 2 ^ suc j =
        mod-eq_of_lt (omega arith) ∙ omega (arith, two-pow-succ j) in
      let bit = mod_double k (2 ^ j) (pow_pos j) in
      let low : k % (2 ^ j * 2) ≤ k = mod-le k (2 ^ j * 2) in
      rw (same, lt→ltb (2 ^ j) (length arr) more, e)
        (thrice-Moved arr (2 ^ j) (enabled (2 ^ j) k) cur c.size more λ out w.
          rounds-Rotated arr k fuel (suc j) out b h (omega arith) (below_63 j (length arr) more b) (
            subst (λ t. Rotated arr t out)
              (sym bit ∙ ap (λ t. k % t) (omega (arith, two-pow-succ j)))
              (round-Rotated arr (k % 2 ^ j) (2 ^ j) k cur out (omega arith) more (pow_pos j) c w
                (bit_and-pow j k))))
  | no done ↦
      rw (c.size, le→ltb (2 ^ j) (length arr) (omega arith))
        (returns
          (Rotated-eq arr cur k h (all_bits arr k (2 ^ j) cur h (omega arith) (pow_pos j) c)))
]

-- `rotate_left` on a slice shorter than 2^63: one that has fewer than two entries stays; another is
-- rotated left by `k`, and the call panics when `k` exceeds its length.
pub rotate_left_correct :
    {A : Type 0} ⦃m : Cmov A⦄ (arr : List A) (k : ℕ)
    → length arr < 2 ^ 63
    → rotate_left arr k ≡ (
        if leb (length arr) 1
        then some arr
        else if leb k (length arr)
        then some (drop k arr ++ take k arr)
        else none)
unfolding rotate_left
rotate_left_correct arr k b = elim (Bool-cases (leb (length arr) 1)) [
  | inl short ↦ rw short refl
  | inr long ↦ elim (Bool-cases (leb k (length arr))) [
    | inr over ↦ rw (long, over) refl
    | inl within ↦
        let (out, e, same) = Returns-some (
          rounds-Rotated arr k 65 0 arr b (leb→le k (length arr) within) (omega arith) (omega arith)
            (start-Rotated arr k)) in
        rw (long, within) (e ∙ ap some same)
  ]
]

-- Within its length, a slice is rotated, however short it is.
pub rotate_left_within :
    {A : Type 0} ⦃m : Cmov A⦄ (arr : List A) (k : ℕ)
    → length arr < 2 ^ 63
    → k ≤ length arr
    → rotate_left arr k ≡ some (drop k arr ++ take k arr)
rotate_left_within arr k b h =
    rotate_left_correct arr k b ∙ elim (Bool-cases (leb (length arr) 1)) [
      | inl short ↦ rw short (ap some (short_rotation arr k (leb→le (length arr) 1 short) h))
      | inr long ↦ rw (long, le→leb k (length arr) h) refl
    ]
