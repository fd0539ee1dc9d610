-- ===== src/Oram/Linear/Access.antt =====
-- crates/oram/src/linear_oram.rs: the scans read and write the entry asked for, and no other.
use rostl.Base.{
  ℕ, zero, suc, ◌+◌, ◌<◌, ◌≡◌, refl, ap, ap₂, ◌∙◌, none, some, List, [], ◌∷◌, ◌==◌, ltb, arith,
  length, length-set, length-replicate, Bool-cases, inl, inr, ltb→lt, set, replicate, if◌then◌else◌,
  true, false, eq→==, ne→==,
}
use rostl.Primitives.{Cmov}
use rostl.Oram.Linear.{
  read_update_from, oblivious_read_update_index, read_from, oblivious_read_index, write_from,
  oblivious_write_index, LinearOram, Default, new, read, write,
}

-- An entry, or a value that stands in for it out of range.
abbrev pub entry_or : {A : Type 0} → List A → ℕ → A → A
entry_or [] i a = a
entry_or (x ∷ xs) zero a = x
entry_or (x ∷ xs) (suc i) a = entry_or xs i a

module _ {A : Type 0} ⦃m : Cmov A⦄ where
  passed :
      (k : ℕ) (arr : List A) (index : ℕ) (out : A) → index < k → read_from k arr index out ≡ out
  unfolding read_from
  passed k [] index out h = refl
  passed k (x ∷ arr) index out h =
      rw (ne→== k index (omega arith), m.cmov_lem out x false)
        (passed (suc k) arr index out (omega arith))

  read_from_lem :
      (k j : ℕ) (arr : List A) (i : ℕ) (out : A)
      → j ≡ k + i
      → read_from k arr j out ≡ entry_or arr i out
  unfolding read_from
  read_from_lem k j [] i out e = refl
  read_from_lem k j (x ∷ arr) zero out e =
      rw (eq→== k j (omega arith), m.cmov_lem out x true) (passed (suc k) arr j x (omega arith))
  read_from_lem k j (x ∷ arr) (suc i) out e =
      rw (ne→== k j (omega arith), m.cmov_lem out x false)
        (read_from_lem (suc k) j arr i out (omega arith))

  write_passed :
      (k : ℕ) (arr : List A) (index : ℕ) (v : A) → index < k → write_from k arr index v ≡ arr
  unfolding write_from
  write_passed k [] index v h = refl
  write_passed k (x ∷ arr) index v h =
      rw (ne→== k index (omega arith), m.cmov_lem x v false)
        (ap (◌∷◌ x) (write_passed (suc k) arr index v (omega arith)))

  write_from_lem :
      (k j : ℕ) (arr : List A) (i : ℕ) (v : A) → j ≡ k + i → write_from k arr j v ≡ set arr i v
  unfolding write_from
  write_from_lem k j [] i v e = refl
  write_from_lem k j (x ∷ arr) zero v e =
      rw (eq→== k j (omega arith), m.cmov_lem x v true)
        (ap (◌∷◌ v) (write_passed (suc k) arr j v (omega arith)))
  write_from_lem k j (x ∷ arr) (suc i) v e =
      rw (ne→== k j (omega arith), m.cmov_lem x v false)
        (ap (◌∷◌ x) (write_from_lem (suc k) j arr i v (omega arith)))

  -- A read and update is a read, then a write.
  read_update_from_lem :
      (k : ℕ) (arr : List A) (index : ℕ) (ret v : A)
      → read_update_from k arr index ret v ≡ (write_from k arr index v, read_from k arr index ret)
  unfolding read_update_from read_from write_from
  read_update_from_lem k [] index ret v = refl
  read_update_from_lem k (x ∷ arr) index ret v =
      rw (read_update_from_lem (suc k) arr index (m.cmov ret x (k == index)) v) refl

  -- `oblivious_write_index` writes the entry at `index` alone; out of range it changes nothing.
  pub oblivious_write_index_lem :
      (arr : List A) (index : ℕ) (value : A)
      → oblivious_write_index arr index value ≡ set arr index value
  unfolding oblivious_write_index
  oblivious_write_index_lem arr index value = write_from_lem 0 index arr index value (omega arith)

  pub oblivious_read_index_lem :
      (arr : List A) (index : ℕ) (out : A)
      → oblivious_read_index arr index out ≡ entry_or arr index out
  unfolding oblivious_read_index
  oblivious_read_index_lem arr index out = read_from_lem 0 index arr index out (omega arith)

  -- `oblivious_read_update_index` returns the old entry at `index` and writes the new one; out of
  -- range it leaves both the slice and `ret` alone.
  pub oblivious_read_update_index_correct :
      (arr : List A) (index : ℕ) (ret value : A)
      → oblivious_read_update_index arr index ret value
        ≡ (set arr index value, entry_or arr index ret)
  unfolding oblivious_read_update_index
  oblivious_read_update_index_correct arr index ret value =
      read_update_from_lem 0 arr index ret value
      ∙ ap₂ (λ a b. (a, b)) (write_from_lem 0 index arr index value (omega arith))
          (read_from_lem 0 index arr index ret (omega arith))

  pub entry_or-set :
      (arr : List A) (i j : ℕ) (v out : A)
      → j < length arr
      → entry_or (set arr i v) j out ≡ (if i == j then v else entry_or arr j out)
  entry_or-set [] i j v out h = absurd (omega arith)
  entry_or-set (x ∷ arr) zero zero v out h = refl
  entry_or-set (x ∷ arr) (suc i) zero v out h = ground arith
  entry_or-set (x ∷ arr) zero (suc j) v out h = ground arith
  entry_or-set (x ∷ arr) (suc i) (suc j) v out h =
      entry_or-set arr i j v out (omega arith) ∙ ground arith

  pub entry_or-replicate : (n j : ℕ) (a out : A) → j < n → entry_or (replicate n a) j out ≡ a
  entry_or-replicate zero j a out h = absurd (omega arith)
  entry_or-replicate (suc n) zero a out h = refl
  entry_or-replicate (suc n) (suc j) a out h = entry_or-replicate n j a out (omega arith)

  -- A read after a write: what was written at the index, the old entry elsewhere, and a panic out of
  -- range.
  pub read-write :
      (self : LinearOram A) (i j : ℕ) (v out : A)
      → read (write self i v) j out ≡ (
          if ltb j (length self.entries)
          then some (if i == j then v else entry_or self.entries j out)
          else none)
  unfolding read write
  read-write self i j v out =
      let e = write_from_lem 0 i self.entries i v (omega arith) in
      rw (e, length-set self.entries i v)
        (elim (Bool-cases (ltb j (length self.entries))) [
          | inl h ↦ rw h (
              ap some (
                read_from_lem 0 j (set self.entries i v) j out (omega arith)
                ∙ entry_or-set self.entries i j v out (ltb→lt j (length self.entries) h)))
          | inr h ↦ rw h refl
        ])

  -- A read of a new memory gives the default value.
  pub read-new :
      ⦃d : Default A⦄ (n j : ℕ) (out : A)
      → read (new n) j out ≡ (if ltb j n then some d.default else none)
  unfolding read new
  read-new ⦃d⦄ n j out = rw (length-replicate n d.default) (elim (Bool-cases (ltb j n)) [
    | inl h ↦ rw h (
        ap some (
          read_from_lem 0 j (replicate n d.default) j out (omega arith)
          ∙ entry_or-replicate n j d.default out (ltb→lt j n h)))
    | inr h ↦ rw h refl
  ])
