-- ===== src/Structures/Queue/Push.antt =====
-- crates/datastructures/src/queue.rs: `maybe_push` appends to the queue that the slots hold.
use rostl.Base.{
  ℕ, zero, suc, ◌+◌, ◌^◌, ◌<◌, ◌≡◌, refl, sym, ◌∙◌, ap, subst, arith, Bool, true, false, List, [],
  ◌∷◌, ◌++◌, Option, some, none, length, ltb, if◌then◌else◌, Bool-cases, ltb→lt, inl, inr, Refines,
  both_panic, both_return, length-append, replicate, length-replicate, lt→ltb, ne→==,
}
use rostl.Oram.Linear.{Default}
use rostl.Primitives.{Cmov}
use rostl.Primitives.Usize.{checked_add_lem}
use rostl.Structures.Queue.{new, ShortQueueElement, ShortQueue, is_empty, push_slots, maybe_push}
use rostl.Structures.Queue.Filled.{
  filled, Inserted, here, there, least, Numbered, none_left, first, Numbered-snoc, least_lem, Holds,
  length-Numbered,
}

module _ {A : Type 0} ⦃m : Cmov A⦄ (high : ℕ) (x : A) where
  -- Nothing is written once the element is in; the least timestamp is still found.
  push_slots_done :
      (slots : List (ShortQueueElement A)) (lowest : ℕ)
      → (filled (push_slots high x slots true lowest).elements ≡ filled slots)
        × (length (push_slots high x slots true lowest).elements ≡ length slots)
        × ((push_slots high x slots true lowest).inserted ≡ true)
        × ((push_slots high x slots true lowest).lowest_timestamp ≡ least lowest (filled slots))
  unfolding push_slots
  push_slots_done [] lowest = (refl, refl, refl, refl)
  push_slots_done (c ∷ slots) lowest = elim (Bool-cases (is_empty c)) [
    | inl e ↦ let (f, n, i, l) = push_slots_done slots lowest in rw e (f, ap suc n, i, l)
    | inr e ↦
        let (f, n, i, l) =
          push_slots_done slots (if ltb c.timestamp lowest then c.timestamp else lowest) in
        rw (e, m.cmov_lem c.value x false) (ap (◌∷◌ (c.timestamp, c.value)) f, ap suc n, i, l)
  ]

  -- The element enters the first free slot, if there is one.
  push_slots_lem :
      (slots : List (ShortQueueElement A)) (lowest : ℕ)
      → 0 < high
      → length (filled slots) < length slots
      → Inserted (high, x) (filled slots) (filled (push_slots high x slots false lowest).elements)
        × (length (push_slots high x slots false lowest).elements ≡ length slots)
        × ((push_slots high x slots false lowest).inserted ≡ true)
        × ((push_slots high x slots false lowest).lowest_timestamp ≡ least lowest (filled slots))
  unfolding push_slots
  push_slots_lem [] lowest p h = absurd (omega arith)
  push_slots_lem (c ∷ slots) lowest p h = elim (Bool-cases (is_empty c)) [
    | inl e ↦
        let (f, n, i, l) = push_slots_done slots lowest in
        rw e (rw (m.cmov_lem c.value x true, ne→== high 0 (omega arith), f) (here, ap suc n, i, l))
    | inr e ↦
        let (f, n, i, l) =
          push_slots_lem slots (if ltb c.timestamp lowest then c.timestamp else lowest) p
            (omega (arith, rw e at h)) in
        rw e (rw (e, m.cmov_lem c.value x false) (there f, ap suc n, i, l))
  ]

least_next :
    {A : Type 0} {t a : ℕ} {xs : List A} {l : List (ℕ × A)}
    → Numbered t xs l
    → a ≡ t + length xs
    → least a l ≡ t
least_next none_left e = omega arith
least_next {a = a} (first n i) e = least_lem a (first n i) (omega arith)

-- What `maybe_push` promises of a queue with `n` slots.
unfoldable pub push : {A : Type 0} → ℕ → List A → Bool → A → Option (List A)
push n xs real x =
    if real then (if ltb (length xs) n then some (xs ++ (x ∷ [])) else none) else some xs

-- The queue `self` has `n` slots and holds the values `xs`, the oldest first.
pub record IsQueue {A : Type 0} (n : ℕ) (self : ShortQueue A) (xs : List A) : Type 0 where
  pub capacity : length self.elements ≡ n
  pub holds : Holds xs self

module _ {A : Type 0} ⦃m : Cmov A⦄ (n : ℕ) (xs : List A) (x : A) (self : ShortQueue A) where
  push_real :
      IsQueue n self xs
      → self.highest_timestamp + 1 < 2 ^ 64
      → length xs + 1 < 2 ^ 64
      → length xs < n
      → Refines (IsQueue n) (maybe_push self true x) (some (xs ++ (x ∷ [])))
  unfolding maybe_push
  push_real q h h' room =
      let s = q.holds in
      let high = self.highest_timestamp + 1 in
      let fits : length (filled self.elements) < length self.elements =
        omega (arith, q.capacity, length-Numbered s.slots) in
      let (f, k, i, l) = push_slots_lem high x self.elements high (omega arith) fits in
      rw
        (
          lt→ltb self.size (length self.elements) (omega (arith, s.count, q.capacity)),
          checked_add_lem self.size 1 (omega (arith, s.count)),
          checked_add_lem self.highest_timestamp 1 h,
          i,
        )
        (both_return (record {
          capacity = k ∙ q.capacity;
          holds = record {
            oldest = s.oldest;
            positive = s.positive;
            highest = omega (arith, s.highest, length-append xs (x ∷ []));
            lowest = λ p. l ∙ least_next s.slots s.highest;
            count = omega (arith, s.count, length-append xs (x ∷ []));
            slots = Numbered-snoc s.slots (
                subst
                  (λ t.
                    Inserted {B = ℕ × A} (t, x) (filled self.elements)
                      (filled (push_slots high x self.elements false high).elements))
                  {x = high} s.highest f);
          };
        }))

  push_nothing :
      IsQueue n self xs
      → self.highest_timestamp + 1 < 2 ^ 64
      → length xs + 1 < 2 ^ 64
      → Refines (IsQueue n) (maybe_push self false x) (some xs)
  unfolding maybe_push
  push_nothing q h h' =
      let s = q.holds in
      let (f, k, i, l) =
        push_slots_done self.highest_timestamp x self.elements self.highest_timestamp in
      rw
        (
          checked_add_lem self.size 1 (omega (arith, s.count)),
          checked_add_lem self.highest_timestamp 1 h,
          i,
        )
        (both_return (record {
          capacity = k ∙ q.capacity;
          holds = record {
            oldest = s.oldest;
            positive = s.positive;
            highest = s.highest;
            lowest = s.lowest;
            count = s.count;
            slots = subst (Numbered s.oldest xs) (sym f) s.slots;
          };
        }))

  -- `maybe_push` on any queue whose next timestamp is a `usize`: a real push appends the element and
  -- panics when every slot is taken, another push changes nothing that the queue holds.
  pub maybe_push-Refines :
      IsQueue n self xs
      → self.highest_timestamp + 1 < 2 ^ 64
      → length xs + 1 < 2 ^ 64
      → (real : Bool) → Refines (IsQueue n) (maybe_push self real x) (push n xs real x)
  unfolding push maybe_push
  maybe_push-Refines q h h' false = push_nothing q h h'
  maybe_push-Refines q h h' true = elim (Bool-cases (ltb (length xs) n)) [
    | inl room ↦ rw room (push_real q h h' (ltb→lt (length xs) n room))
    | inr full ↦
        let same : ltb self.size (length self.elements) ≡ false =
          rw (q.holds.count, q.capacity) full in
        rw (same, full) both_panic
  ]

filled_new :
    {A : Type 0} (n : ℕ) (v : A) → filled (replicate n (record { timestamp = 0; value = v })) ≡ []
filled_new zero v = refl
filled_new (suc n) v = filled_new n v

-- A new queue has as many slots as it is asked to have, and holds nothing.
pub new-IsQueue : {A : Type 0} ⦃d : Default A⦄ (n : ℕ) → IsQueue {A = A} n (new n) []
unfolding new
new-IsQueue ⦃d⦄ n = record {
  capacity = length-replicate n _;
  holds = record {
    oldest = 1;
    positive = omega arith;
    highest = refl;
    lowest = λ p. absurd (omega arith);
    count = refl;
    slots = subst (Numbered 1 []) (sym (filled_new n d.default)) none_left;
  };
}
