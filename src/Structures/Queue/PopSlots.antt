-- ===== src/Structures/Queue/PopSlots.antt =====
-- crates/datastructures/src/queue.rs: what the loop of `maybe_pop` does to the slots.
use rostl.Base.{
  ℕ, suc, ◌<◌, ◌≡◌, refl, sym, ap, subst, arith, true, false, not, ◌&&◌, List, [], ◌∷◌, length, ltb,
  ◌==◌, if◌then◌else◌, Bool-cases, inl, inr, ne→==, eq→==,
}
use mathlib.Core.List.{head-eq_of_cons-eq, tail-eq_of_cons-eq}
use rostl.Primitives.{Cmov}
use rostl.Structures.Queue.{ShortQueueElement, is_empty, pop_slots, Popping}
use rostl.Structures.Queue.Filled.{filled, Inserted, here, there, least, AllFrom, length-Inserted}

-- What the loop leaves: the slots in use, the least of the other timestamps, and `out`.
pub record Popped {A : Type 0} (n : ℕ) (l : List (ℕ × A)) (second : ℕ) (x : A) (s : Popping A)
    : Type 0 where
  pub slots : filled s.elements ≡ l
  pub capacity : length s.elements ≡ n
  pub least_one : s.second_lowest_timestamp ≡ second
  pub value : s.out ≡ x

-- The loop's result for one slot more.
abbrev behind : {A : Type 0} → ShortQueueElement A → Popping A → Popping A
behind c s = record {
  elements = c ∷ s.elements;
  second_lowest_timestamp = s.second_lowest_timestamp;
  out = s.out;
}

module _ {A : Type 0} {n : ℕ} {l : List (ℕ × A)} {second : ℕ} {x : A} {s : Popping A} where
  behind_free :
      (c : ShortQueueElement A)
      → is_empty c ≡ true
      → Popped n l second x s
      → Popped (suc n) l second x (behind c s)
  behind_free c e p = record {
    slots = rw e p.slots;
    capacity = ap suc p.capacity;
    least_one = p.least_one;
    value = p.value;
  }

  behind_used :
      (c : ShortQueueElement A)
      → is_empty c ≡ false
      → Popped n l second x s
      → Popped (suc n) ((c.timestamp, c.value) ∷ l) second x (behind c s)
  behind_used c e p = record {
    slots = rw e (ap (◌∷◌ (c.timestamp, c.value)) p.slots);
    capacity = ap suc p.capacity;
    least_one = p.least_one;
    value = p.value;
  }

module _ {A : Type 0} ⦃m : Cmov A⦄ (low : ℕ) (c : ShortQueueElement A)
    (slots : List (ShortQueueElement A)) (second : ℕ) (out : A) where
  pass_free :
      is_empty c ≡ true
      → (c.timestamp == low) ≡ false
      → pop_slots true low (c ∷ slots) second out ≡ behind c (pop_slots true low slots second out)
  unfolding pop_slots
  pass_free e ne = rw (e, ne, m.cmov_lem out c.value false) refl

  pass_used :
      is_empty c ≡ false
      → (c.timestamp == low) ≡ false
      → pop_slots true low (c ∷ slots) second out
        ≡ behind c
            (pop_slots true low slots (if ltb c.timestamp second then c.timestamp else second) out)
  unfolding pop_slots
  pass_used e ne = rw (e, ne, m.cmov_lem out c.value false) refl

  take_one :
      is_empty c ≡ false
      → (c.timestamp == low) ≡ true
      → pop_slots true low (c ∷ slots) second out
        ≡ behind
            (record { timestamp = 0; value = c.value })
            (pop_slots true low slots second c.value)
  unfolding pop_slots
  take_one e eq = rw (e, eq, m.cmov_lem out c.value true) refl

-- A free slot has not the timestamp asked for.
free_is_other :
    {A : Type 0} (low : ℕ) (c : ShortQueueElement A)
    → 0 < low
    → is_empty c ≡ true
    → (c.timestamp == low) ≡ false
free_is_other low c p e = ground arith

module _ {A : Type 0} ⦃m : Cmov A⦄ where
  pop_slots_none :
      (low : ℕ) (second : ℕ) (out : A) → Popped 0 [] second out (pop_slots true low [] second out)
  unfolding pop_slots
  pop_slots_none low second out = record {
    slots = refl;
    capacity = refl;
    least_one = refl;
    value = refl;
  }

  -- No slot has the timestamp asked for.
  pop_slots_kept :
      (low : ℕ) (slots : List (ShortQueueElement A)) (second : ℕ) (out : A)
      → 0 < low
      → AllFrom (suc low) (filled slots)
      → Popped
          (length slots)
          (filled slots)
          (least second (filled slots))
          out
          (pop_slots true low slots second out)
  pop_slots_kept low [] second out p h = pop_slots_none low second out
  pop_slots_kept low (c ∷ slots) second out p h = elim (Bool-cases (is_empty c)) [
    | inl e ↦
        let k = pop_slots_kept low slots second out p (rw e at h) in
        rw (pass_free low c slots second out e (free_is_other low c p e), e) (behind_free c e k)
    | inr e ↦
        let (above, rest) = rw e at h in
        let least_one = if ltb c.timestamp second then c.timestamp else second in
        let k = pop_slots_kept low slots least_one out p rest in
        rw (pass_used low c slots second out e (ne→== c.timestamp low (omega arith)), e)
          (behind_used c e k)
  ]

  -- The slot with the timestamp asked for is freed, and its value read.
  pub pop_slots_lem :
      (low : ℕ) (x : A) (l l' : List (ℕ × A)) (slots : List (ShortQueueElement A)) (second : ℕ)
      (out : A)
      → 0 < low
      → filled slots ≡ l'
      → Inserted (low, x) l l'
      → AllFrom (suc low) l
      → Popped (length slots) l (least second l) x (pop_slots true low slots second out)
  pop_slots_lem low x l l' [] second out p e i h =
      absurd (omega (arith, length-Inserted i, ap length e))
  pop_slots_lem low x l l' (c ∷ slots) second out p e here h = elim (Bool-cases (is_empty c)) [
    | inl free ↦
        let k = pop_slots_lem low x l l' slots second out p (rw free at e) here h in
        rw (pass_free low c slots second out free (free_is_other low c p free))
          (behind_free c free k)
    | inr used ↦
        let e' = rw used at e in
        let same = head-eq_of_cons-eq e' in
        let rest = tail-eq_of_cons-eq e' in
        let k =
          pop_slots_kept low slots second c.value p (subst (AllFrom (suc low)) (sym rest) h) in
        rw
          (
            take_one low c slots second out used (eq→== c.timestamp low (ap (λ q. q.0) same)),
            ← rest,
            ← ap (λ q. q.1) same,
          )
          (behind_free (record { timestamp = 0; value = c.value }) refl k)
  ]
  pop_slots_lem low x l l' (c ∷ slots) second out p e (there {b = b} {l = m} {l' = m'} j) h =
      elim (Bool-cases (is_empty c)) [
        | inl free ↦
            let k = pop_slots_lem low x l l' slots second out p (rw free at e) (there j) h in
            rw (pass_free low c slots second out free (free_is_other low c p free))
              (behind_free c free k)
        | inr used ↦
            let e' = rw used at e in
            let same = head-eq_of_cons-eq e' in
            let rest = tail-eq_of_cons-eq e' in
            let least_one = if ltb c.timestamp second then c.timestamp else second in
            let k = pop_slots_lem low x m m' slots least_one out p rest j h.1 in
            let above : low < c.timestamp = omega (arith, ap (λ q. q.0) same, h.0) in
            rw (← same, pass_used low c slots second out used (ne→== c.timestamp low (omega arith)))
              (behind_used c used k)
      ]

  -- A pop that is not real leaves the slots and `out` alone.
  pub pop_slots_idle :
      (low : ℕ) (slots : List (ShortQueueElement A)) (second : ℕ) (out : A)
      → ((pop_slots false low slots second out).elements ≡ slots)
        × ((pop_slots false low slots second out).out ≡ out)
  unfolding pop_slots
  pop_slots_idle low [] second out = (refl, refl)
  pop_slots_idle low (c ∷ slots) second out =
      let second' =
        if not (is_empty c) && (not (c.timestamp == low) && ltb c.timestamp second)
        then c.timestamp
        else second in
      let (e, o) = pop_slots_idle low slots second' out in
      rw (m.cmov_lem out c.value false) (ap (◌∷◌ c) e, o)
