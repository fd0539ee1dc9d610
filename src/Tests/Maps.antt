-- ===== src/Tests/Maps.antt =====
-- Instances of the theorems on crates/datastructures/src/map.rs.
use rostl.Base.{
  replicate, Perm, length, arith, ℕ, ◌≡◌, refl, true, false, ◌&&◌, [], ◌∷◌, some, if◌then◌else◌,
  ◌==◌, ==_iff, ◌>>=◌,
}
use rostl.Primitives.{Cmov}
use rostl.Primitives.Usize.{usize_cmov}
use rostl.Oram.Linear.{Default}
use rostl.Structures.UnsortedMap.Buckets.{
  OHash, InlineElement, Bucket, insert_if_available, update_if_exists,
}
use rostl.Structures.UnsortedMap.BucketLaws.{
  lookup, is_some, insert_if_available-lookup, update_if_exists-lookup,
}
use rostl.Structures.UnsortedMap.Conserved.{
  entries, with_pending, IsBucket, insert_or_exchange-Perm,
}
use rostl.Structures.UnsortedMap.{insert_or_exchange}
use rostl.Structures.UnsortedMap.Queued.{after_pop, scan, scan_queue-missed}

instance abbrev number_hash : OHash ℕ
number_hash = record { eq = ◌==◌; eq_iff = ==_iff }

instance abbrev number_default : Default ℕ
number_default = record { default = 0 }

instance abbrev element_cmov : Cmov (InlineElement ℕ ℕ)
element_cmov = record {
  cmov = λ a b c. if c then b else a;
  cxchg = λ a b c. if c then (b, a) else (a, b);
  cmov_lem = λ a b c. refl;
  cxchg_lem = λ a b c. refl;
}

abbrev element : ℕ → ℕ → InlineElement ℕ ℕ
element key value = record { key = key; value = value }

-- A bucket with the keys 3 and 5, the second slot free.
abbrev bucket : Bucket ℕ ℕ
bucket = record {
  is_valid = true ∷ false ∷ true ∷ false ∷ [];
  elements = element 3 30 ∷ element 4 40 ∷ element 5 50 ∷ element 0 0 ∷ [];
}

insert_if_available-lookup_example :
    ((insert_if_available bucket true (element 4 44)).1 ≡ true)
    × ((key : ℕ)
        → lookup key (insert_if_available bucket true (element 4 44)).0
          ≡ (if true && (true && (4 == key)) then some 44 else lookup key bucket))
insert_if_available-lookup_example = insert_if_available-lookup bucket true (element 4 44) refl

update_if_exists-lookup_example :
    ((update_if_exists bucket true (element 5 55)).1 ≡ true)
    × ((key : ℕ)
        → lookup key (update_if_exists bucket true (element 5 55)).0
          ≡ (if (5 == key) && is_some (lookup key bucket) then some 55 else lookup key bucket))
update_if_exists-lookup_example = update_if_exists-lookup bucket (element 5 55)

scan_queue-missed_example :
    (after_pop (element 1 10) (element 2 20) >>= scan 2 0)
    ≡ some (1, some (record { timestamp = 2; value = element 2 20 }), false)
scan_queue-missed_example = scan_queue-missed (element 1 10) (element 2 20) 0

-- A bucket without a free slot.
abbrev full_bucket : Bucket ℕ ℕ
full_bucket = record {
  is_valid = replicate 4 true;
  elements = element 3 30 ∷ element 4 40 ∷ element 5 50 ∷ element 6 60 ∷ [];
}

insert_or_exchange-Perm_example :
    let out = insert_or_exchange 2 false (element 7 70) full_bucket in
    Perm
      (with_pending out.1.0 out.1.1 (entries out.0.is_valid out.0.elements))
      (element 7 70 ∷ full_bucket.elements)
    × (IsBucket out.0 × (length out.0.elements ≡ 4))
insert_or_exchange-Perm_example =
    insert_or_exchange-Perm 2 false (element 7 70) full_bucket refl (omega arith)
