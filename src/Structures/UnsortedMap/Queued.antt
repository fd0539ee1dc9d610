-- ===== src/Structures/UnsortedMap/Queued.antt =====
-- crates/datastructures/src/map.rs: the scan of the insertion queue, which covers as many slots as
-- there are elements.
use rostl.Base.{ℕ, ◌≡◌, Bool, true, false, Option, some, ◌>>=◌, ap, get_elem?}
use rostl.Primitives.{Cmov}
use rostl.Primitives.Usize.{checked_add}
use rostl.Oram.Linear.{Default}
use rostl.Structures.Queue
use rostl.Structures.Queue.{ShortQueue, ShortQueueElement, maybe_push, maybe_pop}
use rostl.Structures.UnsortedMap.{scan_queue, insertion_queue_max_size}
use rostl.Structures.UnsortedMap.Buckets.{OHash, InlineElement, inline_element_default}

module _ {K V : Type 0} ⦃h : OHash K⦄ ⦃dk : Default K⦄ ⦃dv : Default V⦄ ⦃mv : Cmov V⦄
    ⦃me : Cmov (InlineElement K V)⦄ where
  -- The insertion queue after two insertions and a pop.
  abbrev pub after_pop :
      InlineElement K V → InlineElement K V → Option (ShortQueue (InlineElement K V))
  after_pop first second = do
    one ← maybe_push (Queue.new insertion_queue_max_size) true first
    two ← maybe_push one true second
    (queue, out) ← maybe_pop two true inline_element_default.default
    some queue

  -- The queue's size, its second slot, and whether the scan of `get` finds the key.
  abbrev pub scan :
      K
      → V
      → ShortQueue (InlineElement K V)
      → Option (ℕ × Option (ShortQueueElement (InlineElement K V)) × Bool)
  scan key ret queue = do
    (ret', found) ← scan_queue key queue.size queue.elements ret false
    some (queue.size, get_elem? queue.elements 1, found)

  -- After two elements were pushed into a new insertion queue and one was popped, the queue has the
  -- second element in its second slot, but the scan of `get` does not find that element's key.
  pub scan_queue-missed :
      (first second : InlineElement K V) (ret : V)
      → (after_pop first second >>= scan second.key ret)
        ≡ some (1, some (record { timestamp = 2; value = second }), false)
  unfolding maybe_push maybe_pop checked_add scan_queue Queue.new
  scan_queue-missed first second ret =
      ap (λ e. some (1, some (record { timestamp = 2; value = e }), false))
        (me.cmov_lem (me.cmov inline_element_default.default first false) second true)
