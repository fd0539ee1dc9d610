-- ===== src/Oram/Circuit/New.antt =====
-- crates/oram/src/circuit_oram.rs: the structure that `new` makes.
use native.Mathlib.Nat.{two-pow-succ, pow-le-pow_right}
use native.Mathlib.Decide.{dec_lt}
use rostl.Base.{
  ℕ, zero, suc, ◌+◌, ◌-◌, ◌*◌, ◌/◌, ◌^◌, ◌≤◌, ◌<◌, ◌≡◌, refl, ap, ap₂, ◌∙◌, true, [], ◌++◌, arith,
  take, replicate, length-replicate, get_elem?-replicate, ltb, lt→ltb, Returns, returns, ltb→lt,
  ltb→le, Bool-cases, inl, inr,
}
use rostl.Primitives.Powers.Laws.{pow_pos}
use rostl.Oram.HeapTree
use rostl.Oram.HeapTree.{HeapTree}
use rostl.Oram.HeapTree.Index.{place, place_inside}
use rostl.Oram.Circuit.Blocks.{Zeroable, default_block, stash_size, bucket_size}
use rostl.Oram.Circuit.{CircuitOram, Bucket, default_bucket, ilog2_loop, height_of, new}
use rostl.Oram.Circuit.Filled.{filled}
use rostl.Oram.Circuit.Passes.{any_empty}
use rostl.Oram.Circuit.Paths.{IsOramTree}
use rostl.Oram.Circuit.State.{IsCircuitOram, content}
use rostl.Oram.Circuit.Location.{empties_blocks}

-- `ilog2` is the exponent of the largest power of two that is not above the number.
pub ilog2_loop_lem :
    (rounds n : ℕ)
    → 0 < n
    → n < 2 ^ rounds
    → (2 ^ ilog2_loop rounds n ≤ n) × (n < 2 ^ suc (ilog2_loop rounds n))
unfolding ilog2_loop
ilog2_loop_lem zero n h small = absurd (omega (arith, h, small))
ilog2_loop_lem (suc rounds) n h small = elim (Bool-cases (ltb n 2)) [
  | inl e ↦ rw e (omega (arith, h), omega (arith, ltb→lt n 2 e))
  | inr e ↦
      let big = ltb→le n 2 e in
      let (low, high) =
        ilog2_loop_lem rounds (n / 2) (omega (arith, big))
          (omega (arith, small, two-pow-succ rounds)) in
      let k = ilog2_loop rounds (n / 2) in
      rw e (
        omega (arith, low, two-pow-succ k),
        omega (arith, high, two-pow-succ (suc k), two-pow-succ k),
      )
]

pub exponent_lt : (a b : ℕ) → 2 ^ a < 2 ^ b → a < b
exponent_lt a b h = elim (dec_lt a b) [
  | yes e ↦ e
  | no ne ↦
      absurd (
        omega
          (arith, h, pow-le-pow_right {n = 2} (omega arith) {i = b} {j = a} (omega (arith, ne))))
]

pub exponent_le : (a b : ℕ) → 2 ^ a ≤ 2 ^ b → a ≤ b
exponent_le a b h = elim (dec_lt b a) [
  | no ne ↦ omega (arith, ne)
  | yes e ↦ absurd (
      omega (
        arith,
        h,
        two-pow-succ b,
        pow_pos b,
        pow-le-pow_right {n = 2} (omega arith) {i = suc b} {j = a} (omega (arith, e)),
      ))
]

-- The leaves of a tree of this height are the next power of two.
height_of_lem :
    (max_n : ℕ)
    → 1 < max_n
    → max_n ≤ 2 ^ 31
    → let h = height_of max_n in
      (2 ≤ h) × (h ≤ 32) × (max_n ≤ 2 ^ (h - 1)) × (2 ^ (h - 1) < 2 * max_n)
height_of_lem max_n low high =
    let h0 = ilog2_loop 64 max_n in
    let (below, above) = ilog2_loop_lem 64 max_n (omega (arith, low)) (omega (arith, high)) in
    let flat = exponent_le h0 31 (omega (arith, below, high)) in
    elim (Bool-cases (ltb (2 ^ h0) max_n)) [
      | inl e ↦
          let strict = ltb→lt (2 ^ h0) max_n e in
          let up : 2 ^ (h0 + 2 - 1) ≡ 2 * 2 ^ h0 =
            ap (λ k. 2 ^ k) {x = h0 + 2 - 1} {y = suc h0} (omega arith)
            ∙ omega (arith, two-pow-succ h0) in
          let flatter : h0 < 31 = exponent_lt h0 31 (omega (arith, strict, high)) in
          rw e (
            omega arith,
            omega (arith, flatter),
            omega (arith, up, above, two-pow-succ h0),
            omega (arith, up, strict),
          )
      | inr e ↦
          let exact = ltb→le (2 ^ h0) max_n e in
          let up : 2 ^ (h0 + 1 - 1) ≡ 2 ^ h0 =
            ap (λ k. 2 ^ k) {x = h0 + 1 - 1} {y = h0} (omega arith) in
          let steep : 0 < h0 = exponent_lt 0 h0 (omega (arith, exact, low)) in
          rw e (
            omega (arith, steep),
            omega (arith, flat),
            omega (arith, up, exact),
            omega (arith, up, below, low),
          )
    ]

-- What `new` makes: an empty memory, with room in the stash.
pub record Fresh {V : Type 0} (max_n : ℕ) (out : CircuitOram V) : Type 0 where
  pub state : IsCircuitOram out
  pub empty : content out ≡ []
  pub room : any_empty (take stash_size out.stash) ≡ true
  pub enough : max_n ≤ out.max_n
  pub tight : out.max_n < 2 * max_n

module _ (V : Type 0) ⦃z : Zeroable V⦄ where
  some_room :
      (n : ℕ) → 0 < n → any_empty (take stash_size (replicate n (default_block {V = V}))) ≡ true
  unfolding any_empty
  some_room zero h = absurd (omega (arith, h))
  some_room (suc n) h = refl

module _ {V : Type 0} ⦃z : Zeroable V⦄ where
  no_blocks : (k n : ℕ) → filled (take k (replicate n (default_block {V = V}))) ≡ []
  no_blocks zero n = refl
  no_blocks (suc k) zero = refl
  no_blocks (suc k) (suc n) = no_blocks k n

  abbrev pub fresh_tree : ℕ → HeapTree (Bucket V)
  fresh_tree h = record { tree = replicate (2 ^ h - 1) default_bucket; height = h }

  pub fresh_tree-IsOramTree : (h : ℕ) → h ≤ 33 → IsOramTree (fresh_tree h)
  fresh_tree-IsOramTree h high = record {
    tree = record { size = length-replicate (2 ^ h - 1) default_bucket; bound = high };
    bucket = λ depth path inside. (
      default_bucket,
      get_elem?-replicate (2 ^ h - 1) (place depth path) default_bucket
          (place_inside (fresh_tree h) depth path inside),
      (refl, ((λ full. absurd (cc)), ((λ full. absurd (cc)), refl))),
    );
  }

  -- `new` for a number from 2 to 2^31 returns a well-formed state without blocks, with room in the
  -- stash, and with at least as many leaves as the number says and less than twice as many.
  pub new-Fresh :
      (max_n : ℕ) → 1 < max_n → max_n ≤ 2 ^ 31 → Returns (Fresh {V = V} max_n) (new max_n)
  unfolding new HeapTree.new
  new-Fresh max_n low high =
      let h = height_of max_n in
      let (h_low, h_high, enough, tight) = height_of_lem max_n low high in
      rw
        (
          lt→ltb 1 max_n low,
          lt→ltb max_n (2 ^ 32) (omega (arith, high)),
          lt→ltb (height_of max_n) 64 (omega (arith, h_high)),
        )
        (returns (record {
          state = record {
            tree = fresh_tree-IsOramTree h (omega (arith, h_high));
            height = refl;
            low = h_low;
            high = h_high;
            leaves = refl;
            stash = length-replicate (stash_size + h * bucket_size) default_block;
            counter = pow_pos (h - 1);
          };
          empty =
              ap₂ ◌++◌ (no_blocks stash_size (stash_size + h * bucket_size))
                (empties_blocks V (2 ^ h - 1));
          room = some_room V (stash_size + h * bucket_size) (omega arith);
          enough = enough;
          tight = tight;
        }))
