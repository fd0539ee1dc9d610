-- ===== src/Tests/Queues.antt =====
-- Runs of crates/datastructures/src/queue.rs, and instances of its theorems.
use rostl.Base.{ℕ, ◌≡◌, refl, arith, true, [], ◌∷◌, some, Option, ◌>>=◌, Refines}
use rostl.Primitives.Usize.{usize_cmov, checked_add}
use rostl.Oram.Linear.{Default}
use rostl.Structures.Queue.{ShortQueue, new, maybe_push, maybe_pop}
use rostl.Structures.Queue.Filled.{none_left, first, here}
use rostl.Structures.Queue.Push.{IsQueue, push, maybe_push-Refines}
use rostl.Structures.Queue.Pop.{IsPop, pop, maybe_pop-Refines}

instance abbrev zero_default : Default ℕ
zero_default = record { default = 0 }

abbrev session : Option (ShortQueue ℕ × ℕ)
session = do
  q1 ← maybe_push (new 2) true 7
  q2 ← maybe_push q1 true 8
  r ← maybe_pop q2 true 0
  q3 ← maybe_push r.0 true 9
  maybe_pop q3 true 0

abbrev after_one : ShortQueue ℕ
after_one = record {
  highest_timestamp = 1;
  lowest_timestamp = 1;
  size = 1;
  elements = record { timestamp = 1; value = 7 } ∷ record { timestamp = 0; value = 0 } ∷ [];
}

after_one-IsQueue : IsQueue 2 after_one (7 ∷ [])
after_one-IsQueue = record {
  capacity = refl;
  holds = record {
    oldest = 1;
    positive = omega arith;
    highest = refl;
    lowest = λ p. refl;
    count = refl;
    slots = first none_left here;
  };
}

session_value : (session >>= λ r. some r.1) ≡ some 8
unfolding new maybe_push maybe_pop checked_add
session_value = refl

maybe_push-Refines_example :
    Refines (IsQueue 2) (maybe_push after_one true 8) (push 2 (7 ∷ []) true 8)
maybe_push-Refines_example =
    maybe_push-Refines 2 (7 ∷ []) 8 after_one after_one-IsQueue (omega arith) (omega arith) true

maybe_pop-Refines_example : Refines (IsPop 2) (maybe_pop after_one true 0) (pop (7 ∷ []) true 0)
maybe_pop-Refines_example =
    maybe_pop-Refines 2 after_one 0 (7 ∷ []) after_one-IsQueue (omega arith) true
