-- ===== src/Structures/Queue.antt =====
-- crates/datastructures/src/queue.rs: the bounded queue that marks its slots with timestamps. The
-- methods return what they write through `&mut`; `none` is a panic of a debug assertion or of an
-- overflowing sum. The array's fixed size is the length of `elements`.
pub mod Filled
pub mod Push
pub mod PopSlots
pub mod Pop
use rostl.Base.{
  ℕ, zero, suc, ◌-◌, Bool, true, false, not, ◌&&◌, ◌||◌, Option, none, some, List, [], ◌∷◌, ◌==◌,
  ltb, length, replicate, if◌then◌else◌, ◌>>=◌,
}
use rostl.Primitives.{Cmov}
use rostl.Primitives.Usize.{checked_add, wrapping_sub, cmov_base}
use rostl.Oram.Linear.{Default}

pub record ShortQueueElement (A : Type 0) : Type 0 where
  pub timestamp : ℕ
  pub value : A

abbrev pub is_empty : {A : Type 0} → ShortQueueElement A → Bool
is_empty self = self.timestamp == 0

pub record ShortQueue (A : Type 0) : Type 0 where
  pub highest_timestamp : ℕ
  pub lowest_timestamp : ℕ
  pub size : ℕ
  pub elements : List (ShortQueueElement A)

unfoldable pub new : {A : Type 0} ⦃d : Default A⦄ → ℕ → ShortQueue A
new ⦃d⦄ n = record {
  highest_timestamp = 0;
  lowest_timestamp = 1;
  size = 0;
  elements = replicate n (record { timestamp = 0; value = d.default });
}

-- The variables of the loop in `maybe_push`.
pub record Pushing (A : Type 0) : Type 0 where
  pub elements : List (ShortQueueElement A)
  pub inserted : Bool
  pub lowest_timestamp : ℕ

-- The variables of the loop in `maybe_pop`.
pub record Popping (A : Type 0) : Type 0 where
  pub elements : List (ShortQueueElement A)
  pub second_lowest_timestamp : ℕ
  pub out : A

module _ {A : Type 0} ⦃m : Cmov A⦄ where
  -- The loop of `maybe_push`, over the slots that are left.
  pub push_slots : ℕ → A → List (ShortQueueElement A) → Bool → ℕ → Pushing A
  push_slots highest element [] inserted lowest = record {
    elements = [];
    inserted = inserted;
    lowest_timestamp = lowest;
  }
  push_slots highest element (curr ∷ slots) inserted lowest =
      let should_insert = not inserted && is_empty curr in
      let is_lowest = not (is_empty curr) && ltb curr.timestamp lowest in
      let curr' : ShortQueueElement A = record {
        timestamp = cmov_base curr.timestamp highest should_insert;
        value = m.cmov curr.value element should_insert;
      } in
      let lowest' = cmov_base lowest curr'.timestamp is_lowest in
      let rest = push_slots highest element slots (inserted || should_insert) lowest' in
      record {
        elements = curr' ∷ rest.elements;
        inserted = rest.inserted;
        lowest_timestamp = rest.lowest_timestamp;
      }

  unfoldable pub maybe_push : ShortQueue A → Bool → A → Option (ShortQueue A)
  unfolding push_slots
  maybe_push self real element =
      let push : Option (ShortQueue A) = do
        size' ← checked_add self.size 1
        highest' ← checked_add self.highest_timestamp 1
        let highest = cmov_base self.highest_timestamp highest' real
        let s = push_slots highest element self.elements (not real) highest
        if s.inserted
            then some (record {
              highest_timestamp = highest;
              lowest_timestamp = cmov_base self.lowest_timestamp s.lowest_timestamp real;
              size = cmov_base self.size size' real;
              elements = s.elements;
            })
            else none
      in if not real || ltb self.size (length self.elements) then push else none

  -- The loop of `maybe_pop`, over the slots that are left.
  pub pop_slots : Bool → ℕ → List (ShortQueueElement A) → ℕ → A → Popping A
  pop_slots real lowest [] second out = record {
    elements = [];
    second_lowest_timestamp = second;
    out = out;
  }
  pop_slots real lowest (curr ∷ slots) second out =
      let is_lowest = curr.timestamp == lowest in
      let could_be_second = not (is_empty curr) && (not is_lowest && ltb curr.timestamp second) in
      let should_pop = real && is_lowest in
      let second' = cmov_base second curr.timestamp could_be_second in
      let out' = m.cmov out curr.value should_pop in
      let curr' : ShortQueueElement A = record {
        timestamp = cmov_base curr.timestamp 0 should_pop;
        value = curr.value;
      } in
      let rest = pop_slots real lowest slots second' out' in
      record {
        elements = curr' ∷ rest.elements;
        second_lowest_timestamp = rest.second_lowest_timestamp;
        out = rest.out;
      }

  -- The queue and the new `out`. The size does not wrap: `real` comes with a size above 0.
  unfoldable pub maybe_pop : ShortQueue A → Bool → A → Option (ShortQueue A × A)
  unfolding pop_slots
  maybe_pop self real out =
      let s = pop_slots real self.lowest_timestamp self.elements self.highest_timestamp out in
      let queue : ShortQueue A = record {
        highest_timestamp = self.highest_timestamp;
        lowest_timestamp = cmov_base self.lowest_timestamp s.second_lowest_timestamp real;
        size = cmov_base self.size (wrapping_sub self.size 1) real;
        elements = s.elements;
      } in
      if not real || ltb 0 self.size then some (queue, s.out) else none
