-- ===== src/Structures/Stack.antt =====
-- crates/datastructures/src/stack.rs: the stack as a linked list in a Circuit ORAM. The random
-- generator of a call is an argument. What is written through `&mut` is returned, the stack first;
-- `none` is a panic.
pub mod Invariant
pub mod Push
pub mod Pop
use rostl.Base.{ℕ, ◌+◌, ◌%◌, ◌^◌, Bool, not, ◌||◌, Option, none, some, ltb, if◌then◌else◌, ◌>>=◌}
use rostl.Primitives.{Cmov}
use rostl.Primitives.Usize.{checked_add, wrapping_sub, cmov_base}
use rostl.Oram.Linear.{Default}
use rostl.Oram.Circuit
use rostl.Oram.Circuit.{CircuitOram}
use rostl.Oram.Circuit.Blocks.{Zeroable, Block, dummy_pos, asserted}
use rostl.Oram.Circuit.Ops
use rostl.Oram.Circuit.Ops.{write_or_insert}
use rostl.Oram.Recursive.{random_range}

pub record StackElement (A : Type 0) : Type 0 where
  pub value : A
  pub next : ℕ

instance abbrev pub element_default : {A : Type 0} ⦃d : Default A⦄ → Default (StackElement A)
element_default ⦃d⦄ = record { default = record { value = d.default; next = 0 } }

instance abbrev pub element_zeroable : {A : Type 0} ⦃z : Zeroable A⦄ → Zeroable (StackElement A)
element_zeroable ⦃z⦄ = record { zeroed = record { value = z.zeroed; next = 0 } }

pub record Stack (A : Type 0) : Type 0 where
  pub oram : CircuitOram (StackElement A)
  pub top : ℕ
  pub size : ℕ

module _ {A : Type 0} ⦃d : Default A⦄ ⦃z : Zeroable A⦄ ⦃mb : Cmov (Block (StackElement A))⦄ where
  unfoldable pub new : ℕ → Option (Stack A)
  new max_size = do
    oram ← Circuit.new max_size
    some (record { oram = oram; top = dummy_pos; size = 0 })

  -- The first draw is the path that is read, the second the element's position.
  unfoldable pub maybe_push : (ℕ → ℕ → ℕ) → Stack A → Bool → A → Option (Stack A)
  maybe_push rng self real value = asserted (not real || ltb self.size self.oram.max_n) (do
    new_id ← checked_add self.size 1
    read_pos ← random_range rng 0 (self.oram.max_n % 2 ^ 32)
    drawn ← random_range rng 1 (self.oram.max_n % 2 ^ 32)
    let new_pos = cmov_base drawn dummy_pos (not real)
    (oram, found) ←
        write_or_insert self.oram read_pos new_pos new_id
          (record { value = value; next = self.top })
    asserted (not found) (
        some (record {
          oram = oram;
          top = cmov_base self.top new_pos real;
          size = cmov_base self.size new_id real;
        })))

module _ {A : Type 0} ⦃d : Default A⦄ ⦃z : Zeroable A⦄ ⦃m : Cmov A⦄ ⦃me : Cmov (StackElement A)⦄
    ⦃mb : Cmov (Block (StackElement A))⦄ where
  -- The source also computes a `new_pos`, which it does not use.
  unfoldable pub maybe_pop : (ℕ → ℕ → ℕ) → Stack A → Bool → A → Option (Stack A × A)
  maybe_pop rng self real out = asserted (not real || ltb 0 self.size) (do
    drawn ← random_range rng 0 (self.oram.max_n % 2 ^ 32)
    let read_pos = cmov_base drawn self.top real
    (oram, found, imse) ← Ops.read self.oram read_pos read_pos self.size element_default.default
    some (
      record {
        oram = oram;
        top = cmov_base self.top imse.next real;
        size = cmov_base self.size (wrapping_sub self.size 1) real;
      },
      m.cmov out imse.value real,
    ))
