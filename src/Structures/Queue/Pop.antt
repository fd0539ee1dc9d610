-- ===== src/Structures/Queue/Pop.antt =====
-- crates/datastructures/src/queue.rs: `maybe_pop` takes the oldest value of the queue.
use rostl.Base.{
  ℕ, suc, ◌+◌, ◌^◌, ◌≤◌, ◌<◌, ◌≡◌, refl, sym, ◌∙◌, subst, arith, Bool, true, false, List, [], ◌∷◌,
  Option, some, none, length, Refines, both_panic, both_return, lt→ltb,
}
use rostl.Primitives.{Cmov}
use rostl.Structures.Queue.{ShortQueue, maybe_pop}
use rostl.Structures.Queue.Filled.{
  filled, Inserted, least, Numbered, first, none_left, Numbered-AllFrom, least_lem,
}
use rostl.Structures.Queue.Push.{IsQueue}
use rostl.Structures.Queue.PopSlots.{pop_slots_lem, pop_slots_idle}

first_out :
    {A : Type 0} {t : ℕ} {x : A} {xs : List A} {l' : List (ℕ × A)}
    → Numbered t (x ∷ xs) l'
    → (l : List (ℕ × A)) × Numbered (suc t) xs l × Inserted (t, x) l l'
first_out (first n i) = (_, n, i)

least_rest :
    {A : Type 0} {t a : ℕ} {xs : List A} {l : List (ℕ × A)}
    → Numbered t xs l
    → 0 < length xs
    → t + length xs ≤ suc a
    → least a l ≡ t
least_rest none_left p h = absurd (omega arith)
least_rest {a = a} (first n i) p h = least_lem a (first n i) (omega arith)

-- What `maybe_pop` promises: the rest of the queue, and the new `out`.
unfoldable pub pop : {A : Type 0} → List A → Bool → A → Option (List A × A)
pop xs false out = some (xs, out)
pop [] true out = none
pop (x ∷ xs) true out = some (xs, x)

-- The result of `maybe_pop` stands for that promise.
unfoldable pub IsPop : {A : Type 0} → ℕ → ShortQueue A × A → List A × A → Type 0
IsPop n r s = IsQueue n r.0 s.0 × (r.1 ≡ s.1)

module _ {A : Type 0} ⦃m : Cmov A⦄ (n : ℕ) (self : ShortQueue A) (out : A) where
  IsPop-real :
      (x : A) (xs : List A)
      → IsQueue n self (x ∷ xs)
      → length xs + 1 < 2 ^ 64
      → Refines (IsPop n) (maybe_pop self true out) (some (xs, x))
  unfolding maybe_pop IsPop
  IsPop-real x xs q h =
      let s = q.holds in
      let (l, rest, i) = first_out s.slots in
      let low : self.lowest_timestamp ≡ s.oldest = s.lowest (omega arith) in
      let p =
        pop_slots_lem s.oldest x l (filled self.elements) self.elements self.highest_timestamp out
          s.positive refl i (Numbered-AllFrom rest) in
      rw (low, lt→ltb 0 self.size (omega (arith, s.count)))
        (both_return (
          record {
            capacity = p.capacity ∙ q.capacity;
            holds = record {
              oldest = suc s.oldest;
              positive = omega arith;
              highest = omega (arith, s.highest);
              lowest =
                  λ some_left. p.least_one ∙ least_rest rest some_left (omega (arith, s.highest));
              count = omega (arith, s.count);
              slots = subst (Numbered (suc s.oldest) xs) (sym p.slots) rest;
            };
          },
          p.value,
        ))

  -- `maybe_pop` on any queue: a real pop gives the oldest value and panics on an empty queue, another
  -- pop changes neither what the queue holds nor `out`.
  pub maybe_pop-Refines :
      (xs : List A)
      → IsQueue n self xs
      → length xs < 2 ^ 64
      → (real : Bool) → Refines (IsPop n) (maybe_pop self real out) (pop xs real out)
  unfolding maybe_pop IsPop pop
  maybe_pop-Refines xs q h false =
      let (e, o) = pop_slots_idle self.lowest_timestamp self.elements self.highest_timestamp out in
      rw (e, o) (both_return (q, refl))
  maybe_pop-Refines [] q h true = rw (q.holds.count) both_panic
  maybe_pop-Refines (x ∷ xs) q h true = IsPop-real x xs q (omega arith)
