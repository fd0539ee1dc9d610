-- ===== src/Structures/UnsortedMap.antt =====
-- crates/datastructures/src/map.rs: the cuckoo map of two tables and an insertion queue. The hash
-- functions are a field of the map, from the table and the key to 64 bits; the random generators of
-- a call are arguments; `none` is a panic.
pub mod Buckets
pub mod BucketLaws
pub mod Queued
pub mod Conserved
use rostl.Base.{
  ℕ, zero, suc, ◌+◌, ◌-◌, ◌*◌, ◌/◌, ◌^◌, Bool, true, false, not, ◌&&◌, ◌||◌, Option, none, some,
  List, [], ◌∷◌, ltb, max, if◌then◌else◌, ◌>>=◌, for_range,
}
use rostl.Primitives.{Cmov}
use rostl.Primitives.Usize.{checked_add, checked_rem, cmov_base}
use rostl.Oram.Linear.{Default}
use rostl.Oram.Circuit.Blocks.{Zeroable, Block, asserted}
use rostl.Oram.Recursive.{InternalNode}
use rostl.Structures.Queue
use rostl.Structures.Queue.{ShortQueue, ShortQueueElement, is_empty, maybe_push, maybe_pop}
use rostl.Structures.OramArrays.{Rng}
use rostl.Structures.OramArrays.MultiWay.{
  MultiWayArray, new_multi_way, read_multi_way, update_multi_way,
}
use rostl.Structures.UnsortedMap.Buckets.{
  OHash, InlineElement, inline_element_default, Bucket, bucket_default, bucket_zeroable,
  map_bucket_size, update_if_exists, read_if_exists, insert_if_available, exchange_at,
}

abbrev pub insertion_queue_max_size : ℕ
insertion_queue_max_size = 10

abbrev pub deamortized_insertions : ℕ
deamortized_insertions = 2

pub record UnsortedMap (K V : Type 0) : Type 0 where
  pub size : ℕ
  pub capacity : ℕ
  pub table_size : ℕ
  pub table : MultiWayArray (Bucket K V)
  pub hash_builders : ℕ → K → ℕ
  pub insertion_queue : ShortQueue (InlineElement K V)

module _ {K V : Type 0} where
  abbrev pub with_table : UnsortedMap K V → MultiWayArray (Bucket K V) → UnsortedMap K V
  with_table self table = record {
    size = self.size;
    capacity = self.capacity;
    table_size = self.table_size;
    table = table;
    hash_builders = self.hash_builders;
    insertion_queue = self.insertion_queue;
  }

  abbrev pub with_queue : UnsortedMap K V → ShortQueue (InlineElement K V) → UnsortedMap K V
  with_queue self queue = record {
    size = self.size;
    capacity = self.capacity;
    table_size = self.table_size;
    table = self.table;
    hash_builders = self.hash_builders;
    insertion_queue = queue;
  }

  abbrev pub with_size : UnsortedMap K V → ℕ → UnsortedMap K V
  with_size self size = record {
    size = size;
    capacity = self.capacity;
    table_size = self.table_size;
    table = self.table;
    hash_builders = self.hash_builders;
    insertion_queue = self.insertion_queue;
  }

  unfoldable pub hash_key : UnsortedMap K V → ℕ → K → Option ℕ
  hash_key self index key = checked_rem (self.hash_builders index key) self.table_size

-- `(capacity * 10).div_ceil(9 * BUCKET_SIZE).max(2)`
unfoldable pub table_size_of : ℕ → Option ℕ
table_size_of capacity =
    if ltb (capacity * 10) (2 ^ 64)
    then some (max ((capacity * 10 + 9 * map_bucket_size - 1) / (9 * map_bucket_size)) 2)
    else none

module _ {K V : Type 0} ⦃h : OHash K⦄ ⦃mv : Cmov V⦄ where
  -- The scan of the queue in `get`, over the first slots: the new `ret` and `found`.
  unfoldable pub scan_queue :
      K → ℕ → List (ShortQueueElement (InlineElement K V)) → V → Bool → Option (V × Bool)
  scan_queue key zero slots ret found = some (ret, found)
  scan_queue key (suc n) [] ret found = none
  scan_queue key (suc n) (element ∷ slots) ret found =
      let found_local = not (is_empty element) && h.eq element.value.key key in
      scan_queue key n slots (mv.cmov ret element.value.value found_local) (found || found_local)

  -- The same in `write`: the new slots and `updated`.
  unfoldable pub write_queue :
      K
      → V
      → ℕ
      → List (ShortQueueElement (InlineElement K V))
      → Bool
      → Option (List (ShortQueueElement (InlineElement K V)) × Bool)
  write_queue key value zero slots updated = some (slots, updated)
  write_queue key value (suc n) [] updated = none
  write_queue key value (suc n) (element ∷ slots) updated = do
    let choice = not updated && (not (is_empty element) && h.eq element.value.key key)
    (rest, updated') ← write_queue key value n slots (updated || choice)
    some (
      record {
        timestamp = element.timestamp;
        value = record {
          key = element.value.key;
          value = mv.cmov element.value.value value choice;
        };
      }
          ∷ rest,
      updated',
    )

module _ {K V : Type 0} ⦃me : Cmov (InlineElement K V)⦄ where
  -- What `try_insert_entry` does with a bucket: the bucket, `done` and `element`.
  unfoldable pub insert_or_exchange :
      ℕ → Bool → InlineElement K V → Bucket K V → Bucket K V × (Bool × InlineElement K V)
  unfolding exchange_at
  insert_or_exchange randidx done element bucket =
      let inserted = insert_if_available bucket (not done) element in
      let done' = done || inserted.1 in
      let out = exchange_at randidx inserted.0.elements element (not done') in
      (record { is_valid = inserted.0.is_valid; elements = out.0 }, (done', out.1))

module _ {K V : Type 0} ⦃h : OHash K⦄ ⦃dk : Default K⦄ ⦃dv : Default V⦄ ⦃zk : Zeroable K⦄
    ⦃zv : Zeroable V⦄ ⦃mv : Cmov V⦄ ⦃me : Cmov (InlineElement K V)⦄ ⦃m : Cmov (Bucket K V)⦄
    ⦃mb : Cmov (Block (Bucket K V))⦄ ⦃mn : Cmov InternalNode⦄
    ⦃mnb : Cmov (Block InternalNode)⦄ where
  unfoldable pub new : (ℕ → Rng) → (ℕ → K → ℕ) → ℕ → Option (UnsortedMap K V)
  new rngs hash_builders capacity = asserted (ltb 0 capacity) (do
    table_size ← table_size_of capacity
    table ← new_multi_way rngs 2 table_size
    some (record {
      size = 0;
      capacity = capacity;
      table_size = table_size;
      table = table;
      hash_builders = hash_builders;
      insertion_queue = Queue.new insertion_queue_max_size;
    }))

  -- A table's part of `get`: the map, `tmp`, `ret` and `found`.
  unfoldable pub get_round :
      (ℕ → Rng)
      → K
      → ℕ
      → UnsortedMap K V × Bucket K V × V × Bool
      → Option (UnsortedMap K V × Bucket K V × V × Bool)
  get_round rngs key index (self, tmp, ret, found) = do
    hash ← hash_key self index key
    (table, tmp) ← read_multi_way (rngs index) 2 self.table index hash tmp
    let local = read_if_exists tmp key ret
    some (with_table self table, tmp, local.0, found || local.1)

  -- The map, `ret`, and whether the key was found.
  unfoldable pub get : (ℕ → Rng) → UnsortedMap K V → K → V → Option (UnsortedMap K V × V × Bool)
  get rngs self key ret = do
    (self, tmp, ret, found) ←
        for_range 2 0 (get_round rngs key) (self, bucket_default.default, ret, false)
    (ret, found) ← scan_queue key self.insertion_queue.size self.insertion_queue.elements ret found
    some (self, ret, found)

  -- A table's part of `try_insert_entry`: the map, `element` and `done`. The second table comes
  -- first.
  unfoldable pub insert_round :
      (ℕ → Rng)
      → ℕ
      → UnsortedMap K V × InlineElement K V × Bool
      → Option (UnsortedMap K V × InlineElement K V × Bool)
  insert_round rngs index_rev (self, element, done) = do
    let index = 1 - index_rev
    hash ← hash_key self index element.key
    (table, found, out) ←
        update_multi_way (rngs (2 * index_rev)) 2 self.table index hash
          (insert_or_exchange (rngs (2 * index_rev + 1) 0 map_bucket_size) done element)
    some (with_table self table, out.1, out.0)

  unfoldable pub try_insert_entry :
      (ℕ → Rng)
      → UnsortedMap K V
      → Bool
      → InlineElement K V
      → Option (UnsortedMap K V × InlineElement K V × Bool)
  try_insert_entry rngs self real element =
      for_range 2 0 (insert_round rngs) (self, element, not real)

  unfoldable pub deamortize_round : (ℕ → ℕ → Rng) → ℕ → UnsortedMap K V → Option (UnsortedMap K V)
  deamortize_round rngs i self = do
    let real = ltb 0 self.insertion_queue.size
    (queue, element) ← maybe_pop self.insertion_queue real inline_element_default.default
    (self, element, done) ← try_insert_entry (rngs i) (with_queue self queue) real element
    queue ← maybe_push self.insertion_queue (not done) element
    some (with_queue self queue)

  unfoldable pub deamortize_insertion_queue :
      (ℕ → ℕ → Rng) → UnsortedMap K V → Option (UnsortedMap K V)
  deamortize_insertion_queue rngs self =
      for_range deamortized_insertions 0 (deamortize_round rngs) self

  unfoldable pub insert_cond :
      (ℕ → ℕ → Rng) → UnsortedMap K V → K → V → Bool → Option (UnsortedMap K V)
  insert_cond rngs self key value real =
      asserted (ltb self.insertion_queue.size insertion_queue_max_size) (do
        queue ← maybe_push self.insertion_queue real (record { key = key; value = value })
        self ← deamortize_insertion_queue rngs (with_queue self queue)
        size ← checked_add self.size 1
        some (with_size self (cmov_base self.size size real)))

  -- `insert` has the body of `insert_cond` with `true` for `real`.
  unfoldable pub insert : (ℕ → ℕ → Rng) → UnsortedMap K V → K → V → Option (UnsortedMap K V)
  insert rngs self key value = insert_cond rngs self key value true

  -- What `write` does with a bucket: the bucket and `updated`.
  unfoldable pub write_bucket : K → V → Bool → Bucket K V → Bucket K V × Bool
  write_bucket key value updated bucket =
      let out = update_if_exists bucket (not updated) (record { key = key; value = value }) in
      (out.0, updated || out.1)

  unfoldable pub write_round :
      (ℕ → Rng) → K → V → ℕ → UnsortedMap K V × Bool → Option (UnsortedMap K V × Bool)
  write_round rngs key value index (self, updated) = do
    hash ← hash_key self index key
    (table, found, updated) ←
        update_multi_way (rngs index) 2 self.table index hash (write_bucket key value updated)
    some (with_table self table, updated)

  unfoldable pub write : (ℕ → Rng) → UnsortedMap K V → K → V → Option (UnsortedMap K V)
  write rngs self key value = do
    (self, updated) ← for_range 2 0 (write_round rngs key value) (self, false)
    (slots, updated) ←
        write_queue key value self.insertion_queue.size self.insertion_queue.elements updated
    asserted updated (
        some (
          with_queue self (record {
            highest_timestamp = self.insertion_queue.highest_timestamp;
            lowest_timestamp = self.insertion_queue.lowest_timestamp;
            size = self.insertion_queue.size;
            elements = slots;
          })))
