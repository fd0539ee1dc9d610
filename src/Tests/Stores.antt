-- ===== src/Tests/Stores.antt =====
-- An instance of the theorem on crates/storage/src/memstore.rs.
use rostl.Base.{
  ℕ, ◌*◌, ◌≡◌, arith, List, some, replicate, length-replicate, ◌==◌, if◌then◌else◌, ◌>>=◌,
}
use rostl.Storage.{page_size, MemStore, read_page, write_page}
use rostl.Storage.Pages.{read_page-write_page}

abbrev store_of_two : MemStore
store_of_two = record { bytes = replicate (2 * page_size) 0 }

abbrev page : List ℕ
page = replicate page_size 7

read_page-write_page_example :
    (write_page store_of_two 1 page >>= λ s. read_page s 0 page)
    ≡ (if 1 == 0 then some page else read_page store_of_two 0 page)
read_page-write_page_example =
    read_page-write_page store_of_two 1 0 page page (length-replicate {A = ℕ} page_size 7)
      (length-replicate {A = ℕ} page_size 7)
      (omega (arith, length-replicate {A = ℕ} (2 * page_size) 0))
      (omega (arith, length-replicate {A = ℕ} (2 * page_size) 0))
