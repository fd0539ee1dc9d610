-- ===== src/Oram/Linear.antt =====
-- crates/oram/src/linear_oram.rs: reads and writes that scan the whole slice. What is written
-- through `&mut` is returned, the slice first; `none` is a panic.
pub mod Access
pub mod Memcpy
use rostl.Base.{
  ℕ, zero, suc, ◌+◌, ◌%◌, Bool, ◌&&◌, Option, none, some, List, [], ◌∷◌, ◌==◌, leb, ltb, length,
  get_elem?, set, replicate, if◌then◌else◌, ◌>>=◌, for_range,
}
use rostl.Primitives.{Cmov}
use rostl.Primitives.Usize.{checked_rem, cmov_base}
use rostl.Sort.Rotate.{rotate_left}

module _ {A : Type 0} ⦃m : Cmov A⦄ where
  -- The loop of `oblivious_read_update_index`, from entry `i` on.
  pub read_update_from : ℕ → List A → ℕ → A → A → List A × A
  read_update_from i [] index ret value = ([], ret)
  read_update_from i (item ∷ arr) index ret value =
      let choice = i == index in
      let ret' = m.cmov ret item choice in
      let item' = m.cmov item value choice in
      let rest = read_update_from (suc i) arr index ret' value in (item' ∷ rest.0, rest.1)

  unfoldable pub oblivious_read_update_index : List A → ℕ → A → A → List A × A
  unfolding read_update_from
  oblivious_read_update_index arr index ret value = read_update_from 0 arr index ret value

  -- The loop of `oblivious_read_index`, from entry `i` on.
  pub read_from : ℕ → List A → ℕ → A → A
  read_from i [] index out = out
  read_from i (item ∷ arr) index out =
      let choice = i == index in read_from (suc i) arr index (m.cmov out item choice)

  unfoldable pub oblivious_read_index : List A → ℕ → A → A
  unfolding read_from
  oblivious_read_index arr index out = read_from 0 arr index out

  -- The loop of `oblivious_write_index`, from entry `i` on.
  pub write_from : ℕ → List A → ℕ → A → List A
  write_from i [] index value = []
  write_from i (item ∷ arr) index value =
      let choice = i == index in m.cmov item value choice ∷ write_from (suc i) arr index value

  unfoldable pub oblivious_write_index : List A → ℕ → A → List A
  unfolding write_from
  oblivious_write_index arr index value = write_from 0 arr index value

  -- A round of the loop of `oblivious_memcpy`. The sum does not overflow: it is only computed when
  -- `src_offset` is an index of `src`.
  pub memcpy_round : List A → ℕ → ℕ → List A → Option (List A)
  memcpy_round src src_offset i dst = do
    let len = length dst
    item ← get_elem? src i
    let choice = leb src_offset i && ltb i (src_offset + len)
    j ← checked_rem i len
    old ← get_elem? dst j
    some (set dst j (m.cmov old item choice))

  -- The new `dst`.
  unfoldable pub oblivious_memcpy : List A → List A → ℕ → Option (List A)
  unfolding memcpy_round rotate_left
  oblivious_memcpy dst src src_offset = do
    copied ← for_range (length src) 0 (memcpy_round src src_offset) dst
    shift_amount ← checked_rem src_offset (length dst)
    let shift_amount' = cmov_base shift_amount 0 (leb (length src) src_offset)
    rotate_left copied shift_amount'

pub record LinearOram (A : Type 0) : Type 0 where
  -- The source's field `data`.
  pub entries : List A

-- The value `T::default()`.
pub record Default (A : Type 0) : Type 0 where
  pub default : A

module _ {A : Type 0} ⦃m : Cmov A⦄ where
  unfoldable pub new : ⦃d : Default A⦄ → ℕ → LinearOram A
  new ⦃d⦄ max_n = record { entries = replicate max_n d.default }

  -- The new value of `ret`.
  unfoldable pub read : LinearOram A → ℕ → A → Option A
  unfolding read_from
  read self index ret =
      if ltb index (length self.entries) then some (read_from 0 self.entries index ret) else none

  unfoldable pub write : LinearOram A → ℕ → A → LinearOram A
  unfolding write_from
  write self index value = record { entries = write_from 0 self.entries index value }

  unfoldable pub read_update : LinearOram A → ℕ → A → A → LinearOram A × A
  unfolding oblivious_read_update_index
  read_update self index value ret =
      let r = oblivious_read_update_index self.entries index ret value in
      (record { entries = r.0 }, r.1)
