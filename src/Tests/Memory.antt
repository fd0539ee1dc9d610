-- ===== src/Tests/Memory.antt =====
-- Runs of crates/oram, and instances of its theorems.
use rostl.Base.{ℕ, ◌≡◌, refl, arith, List, [], ◌∷◌, some, Returns, for_range}
use rostl.Primitives
use rostl.Primitives.CswapIndex.{cswap}
use rostl.Primitives.Usize.{usize_cmov, checked_sub, checked_rem}
use rostl.Oram.Linear.{oblivious_memcpy, LinearOram, Default, read, write}
use rostl.Oram.Linear.Memcpy.{IsCopy, oblivious_memcpy-IsCopy}

abbrev cells : List ℕ
cells = 4 ∷ 5 ∷ 6 ∷ []

abbrev memory : LinearOram ℕ
memory = record { entries = cells }

instance abbrev zero_default : Default ℕ
zero_default = record { default = 0 }

abbrev source : List ℕ
source = 1 ∷ 2 ∷ 3 ∷ 4 ∷ 5 ∷ []

memcpy_run : oblivious_memcpy cells source 1 ≡ some (2 ∷ 3 ∷ 4 ∷ [])
unfolding oblivious_memcpy for_range checked_sub checked_rem cswap rostl.Primitives.cswap
memcpy_run = refl

read_run : read (write memory 1 9) 1 0 ≡ some 9
unfolding read write
read_run = refl

oblivious_memcpy-IsCopy_example : Returns (IsCopy source 1 cells) (oblivious_memcpy cells source 1)
oblivious_memcpy-IsCopy_example = oblivious_memcpy-IsCopy source 1 cells (omega arith) (omega arith)
