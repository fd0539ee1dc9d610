-- ===== src/Oram/Circuit/Blocks.antt =====
-- crates/oram/src/circuit_oram.rs: the blocks, and the scans over an array of them. What is
-- written through `&mut` is returned, the array first.
use Prim.Native.Nat.{bit_xor}
use rostl.Base.{
  ℕ, zero, suc, ◌+◌, ◌-◌, ◌*◌, ◌/◌, ◌%◌, ◌^◌, Bool, true, false, not, ◌&&◌, ◌||◌, Option, none,
  some, ◌>>=◌, List, [], ◌∷◌, ◌==◌,
}
use rostl.Primitives.{Cmov}
use rostl.Primitives.Usize.{cmov_base}
use rostl.Primitives.Zeros.{zeros_loop}

-- `DUMMY_POS`, the largest position of 32 bits.
abbrev pub dummy_pos : ℕ
dummy_pos = 2 ^ 32 - 1

-- Blocks per bucket: the constant `Z`.
abbrev pub bucket_size : ℕ
bucket_size = 2

-- The constant `S`.
abbrev pub stash_size : ℕ
stash_size = 20

-- A position of 32 bits, a key of 64 bits, and a value.
pub record Block (V : Type 0) : Type 0 where
  pub pos : ℕ
  pub key : ℕ
  pub value : V

-- The value whose bytes are zeros, of the crate bytemuck, which a struct's fields have one by one.
pub record Zeroable (V : Type 0) : Type 0 where
  pub zeroed : V

abbrev pub default_block : {V : Type 0} ⦃z : Zeroable V⦄ → Block V
default_block ⦃z⦄ = record { pos = dummy_pos; key = 0; value = z.zeroed }

abbrev pub is_empty : {V : Type 0} → Block V → Bool
is_empty self = self.pos == dummy_pos

abbrev pub with_pos : {V : Type 0} → Block V → ℕ → Block V
with_pos self pos = record { pos = pos; key = self.key; value = self.value }

-- A full block of the key.
abbrev pub matches : {V : Type 0} → ℕ → Block V → Bool
matches k item = not (is_empty item) && item.key == k

-- A debug assertion of the loops: not a second match.
abbrev pub asserted {ℓ} : {A : Type ℓ} → Bool → Option A → Option A
asserted true o = o
asserted false o = none

module _ {V : Type 0} ⦃m : Cmov V⦄ where
  -- The loop, with the variables `ret` and `rv`.
  unfoldable pub read_and_remove_from :
      ℕ → List (Block V) → V → Bool → Option (List (Block V) × V × Bool)
  read_and_remove_from k [] ret rv = some ([], ret, rv)
  read_and_remove_from k (item ∷ arr) ret rv =
      let matched = matches k item in
      asserted (not matched || not rv) (do
        let ret' = m.cmov ret item.value matched
        let item' = with_pos item (cmov_base item.pos dummy_pos matched)
        (arr', ret'', rv') ← read_and_remove_from k arr ret' (rv || matched)
        some (item' ∷ arr', ret'', rv'))

  unfoldable pub read_and_remove_element :
      List (Block V) → ℕ → V → Option (List (Block V) × V × Bool)
  unfolding read_and_remove_from
  read_and_remove_element arr k ret = read_and_remove_from k arr ret false

module _ {V : Type 0} where
  unfoldable pub remove_from : ℕ → List (Block V) → Bool → Option (List (Block V) × Bool)
  remove_from k [] rv = some ([], rv)
  remove_from k (item ∷ arr) rv =
      let matched = matches k item in
      asserted (not matched || not rv) (do
        let item' = with_pos item (cmov_base item.pos dummy_pos matched)
        (arr', rv') ← remove_from k arr (rv || matched)
        some (item' ∷ arr', rv'))

  unfoldable pub remove_element : List (Block V) → ℕ → Option (List (Block V) × Bool)
  unfolding remove_from
  remove_element arr k = remove_from k arr false

module _ {V : Type 0} ⦃m : Cmov (Block V)⦄ where
  -- The loop, with the variable `rv`; its assertion always holds.
  unfoldable pub write_from : Block V → List (Block V) → Bool → List (Block V) × Bool
  write_from val [] rv = ([], rv)
  write_from val (item ∷ arr) rv =
      let matched = is_empty item && not rv in
      let rest = write_from val arr (rv || matched) in (m.cmov item val matched ∷ rest.0, rest.1)

  unfoldable pub write_block_to_empty_slot : List (Block V) → Block V → List (Block V) × Bool
  unfolding write_from
  write_block_to_empty_slot arr val = write_from val arr false

-- The loop of `reverse_bits`. A shift of a `usize` loses what passes the 64th bit.
unfoldable pub reverse_from : ℕ → ℕ → ℕ → ℕ
reverse_from zero result value = result
reverse_from (suc bits) result value =
    reverse_from bits (result * 2 % 2 ^ 64 + value % 2) (value / 2)

unfoldable pub reverse_bits : ℕ → ℕ → ℕ
unfolding reverse_from
reverse_bits n bits = reverse_from bits 0 n

-- The trailing zeros of `a ^ b`, of 32 bits.
abbrev pub common_suffix_length : ℕ → ℕ → ℕ
common_suffix_length a b = zeros_loop 32 (bit_xor a b)
