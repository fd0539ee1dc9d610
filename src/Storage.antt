-- ===== src/Storage.antt =====
-- crates/storage/src/memstore.rs: pages in memory. `none` is a panic; the methods return no error of
-- their own. A write returns the new store, a read the new buffer.
pub mod Pages
use rostl.Base.{
  ℕ, ◌+◌, ◌*◌, ◌/◌, ◌^◌, ◌&&◌, Option, none, some, List, ◌++◌, ltb, leb, ◌==◌, length, take, drop,
  replicate, if◌then◌else◌,
}

abbrev pub page_size : ℕ
page_size = 4096

pub record MemStore : Type 0 where
  -- The source's field `data`.
  pub bytes : List ℕ

-- An allocation of 2^63 bytes or more panics.
unfoldable pub open_store : ℕ → Option MemStore
open_store total_pages =
    if ltb (total_pages * page_size) (2 ^ 63)
    then some (record { bytes = replicate (total_pages * page_size) 0 })
    else none

-- The range and the length of the buffer are checked.
unfoldable pub read_page : MemStore → ℕ → List ℕ → Option (List ℕ)
read_page self block_idx buf =
    let start = block_idx * page_size in
    let stop = start + page_size in
    if leb stop (length self.bytes) && (length buf == page_size)
    then some (take page_size (drop start self.bytes))
    else none

unfoldable pub write_page : MemStore → ℕ → List ℕ → Option MemStore
write_page self block_idx buf =
    let start = block_idx * page_size in
    let stop = start + page_size in
    if leb stop (length self.bytes) && (length buf == page_size)
    then some (record { bytes = take start self.bytes ++ (buf ++ drop stop self.bytes) })
    else none

pub pages_len : MemStore → ℕ
pages_len self = length self.bytes / page_size
