-- ===== src/Structures/ShortArray.antt =====
-- crates/datastructures/src/array.rs: ShortArray, an array that is scanned whole. Its constant
-- length is that of the list.
use rostl.Base.{ℕ, ◌≡◌, List, length, replicate, set, length-set, ◌==◌, if◌then◌else◌, ◌<◌}
use rostl.Primitives.{Cmov}
use rostl.Oram.Linear.{Default, oblivious_read_index, oblivious_write_index}
use rostl.Oram.Linear.Access.{entry_or-set, oblivious_read_index_lem, oblivious_write_index_lem}

pub record ShortArray (A : Type 0) : Type 0 where
  -- The source's field `data`.
  pub entries : List A

module _ {A : Type 0} ⦃m : Cmov A⦄ where
  unfoldable pub new : ⦃d : Default A⦄ → ℕ → ShortArray A
  new ⦃d⦄ n = record { entries = replicate n d.default }

  -- The new value of `out`.
  unfoldable pub read : ShortArray A → ℕ → A → A
  unfolding oblivious_read_index
  read self index out = oblivious_read_index self.entries index out

  unfoldable pub write : ShortArray A → ℕ → A → ShortArray A
  unfolding oblivious_write_index
  write self index value = record { entries = oblivious_write_index self.entries index value }

  -- A read within bounds after a write gives the written value at the same index, and the old entry
  -- at another; a write keeps the length.
  pub read-write_array :
      (self : ShortArray A) (i j : ℕ) (value out : A)
      → j < length self.entries
      → (read (write self i value) j out ≡ (if i == j then value else read self j out))
        × (length (write self i value).entries ≡ length self.entries)
  unfolding read write
  read-write_array self i j value out h =
      let e = oblivious_write_index_lem self.entries i value in
      rw
        (
          e,
          oblivious_read_index_lem (set self.entries i value) j out,
          oblivious_read_index_lem self.entries j out,
        )
        (entry_or-set self.entries i j value out h, length-set self.entries i value)
