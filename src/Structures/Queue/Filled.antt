-- ===== src/Structures/Queue/Filled.antt =====
-- crates/datastructures/src/queue.rs: the slots in use, and in which order they hold a queue.
use rostl.Base.{
  ℕ, suc, ◌+◌, ◌≤◌, ◌<◌, ◌≡◌, refl, subst, arith, List, [], ◌∷◌, ◌++◌, length, ltb, if◌then◌else◌,
}
use rostl.Structures.Queue.{ShortQueue, ShortQueueElement, is_empty}

-- The timestamps and values of the slots in use.
abbrev pub filled : {A : Type 0} → List (ShortQueueElement A) → List (ℕ × A)
filled [] = []
filled (curr ∷ slots) =
    if is_empty curr then filled slots else (curr.timestamp, curr.value) ∷ filled slots

-- `l'` is `l` with `a` inserted somewhere.
pub data Inserted {B : Type 0} (a : B) : List B → List B → Type 0 where
  here : {l : List B} → Inserted a l (a ∷ l)
  there : {b : B} {l l' : List B} → Inserted a l l' → Inserted a (b ∷ l) (b ∷ l')

-- The entries are those of the queue `xs`, in any order, numbered from `t` on.
pub data Numbered {A : Type 0} : ℕ → List A → List (ℕ × A) → Type 0 where
  none_left : {t : ℕ} → Numbered t [] []
  first :
      {t : ℕ} {x : A} {xs : List A} {l l' : List (ℕ × A)}
      → Numbered (suc t) xs l
      → Inserted (t, x) l l'
      → Numbered t (x ∷ xs) l'

-- The least of `a` and the timestamps, computed as the loops do.
abbrev pub least : {A : Type 0} → ℕ → List (ℕ × A) → ℕ
least a [] = a
least a (e ∷ l) = least (if ltb e.0 a then e.0 else a) l

-- Every timestamp is at least `t`.
abbrev pub AllFrom : {A : Type 0} → ℕ → List (ℕ × A) → Type 0
AllFrom t [] = 0 ≤ 0
AllFrom t (e ∷ l) = (t ≤ e.0) × AllFrom t l

-- Two insertions commute.
pub Inserted-comm :
    {B : Type 0} {a b : B} {l l' l'' : List B}
    → Inserted a l l'
    → Inserted b l' l''
    → (m : List B) × Inserted b l m × Inserted a m l''
Inserted-comm here here = (_, here, there here)
Inserted-comm here (there j) = (_, j, here)
Inserted-comm (there i) here = (_, here, there (there i))
Inserted-comm (there i) (there j) = let (m, p, q) = Inserted-comm i j in (_, there p, there q)

pub length-Inserted :
    {B : Type 0} {a : B} {l l' : List B} → Inserted a l l' → length l' ≡ suc (length l)
length-Inserted here = refl
length-Inserted (there i) = omega (arith, length-Inserted i)

module _ {A : Type 0} where
  pub length-Numbered :
      {t : ℕ} {xs : List A} {l : List (ℕ × A)} → Numbered t xs l → length l ≡ length xs
  length-Numbered none_left = refl
  length-Numbered (first n i) = omega (arith, length-Inserted i, length-Numbered n)

  AllFrom-weaken : (t : ℕ) (l : List (ℕ × A)) → AllFrom (suc t) l → AllFrom t l
  AllFrom-weaken t [] h = h
  AllFrom-weaken t (e ∷ l) (h, hs) = (omega arith, AllFrom-weaken t l hs)

  AllFrom-Inserted :
      {t s : ℕ} {x : A} {l l' : List (ℕ × A)}
      → Inserted (s, x) l l'
      → t ≤ s
      → AllFrom t l
      → AllFrom t l'
  AllFrom-Inserted here p h = (p, h)
  AllFrom-Inserted (there i) p (h, hs) = (h, AllFrom-Inserted i p hs)

  pub Numbered-AllFrom : {t : ℕ} {xs : List A} {l : List (ℕ × A)} → Numbered t xs l → AllFrom t l
  Numbered-AllFrom none_left = omega arith
  Numbered-AllFrom (first {t = t} {l = l} n i) =
      AllFrom-Inserted i (omega arith) (AllFrom-weaken t l (Numbered-AllFrom n))

  -- An entry with the next number joins the queue at its end.
  pub Numbered-snoc :
      {t : ℕ} {x : A} {xs : List A} {l l' : List (ℕ × A)}
      → Numbered t xs l
      → Inserted (t + length xs, x) l l'
      → Numbered t (xs ++ (x ∷ [])) l'
  Numbered-snoc {x = x} {l' = l'} (none_left {t = t}) i =
      first none_left (subst (λ k. Inserted (k, x) [] l') {x = t + 0} {y = t} (omega arith) i)
  Numbered-snoc {x = x} {l' = l'} (first {t = t} {x = _} {xs = xs} {l' = l} n i) j =
      let j' =
        subst (λ k. Inserted (k, x) l l') {x = t + suc (length xs)} {y = suc t + length xs}
          (omega arith) j in
      let (m, p, q) = Inserted-comm i j' in first (Numbered-snoc n p) q

  least_le : (a : ℕ) (l : List (ℕ × A)) → least a l ≤ a
  least_le a [] = omega arith
  least_le a (e ∷ l) = ground (arith, least_le (if ltb e.0 a then e.0 else a) l)

  le_least : {t : ℕ} (a : ℕ) (l : List (ℕ × A)) → t ≤ a → AllFrom t l → t ≤ least a l
  le_least a [] p h = p
  le_least a (e ∷ l) p (h, hs) = le_least (if ltb e.0 a then e.0 else a) l (ground arith) hs

  least_le_Inserted :
      {t : ℕ} {x : A} {l l' : List (ℕ × A)} → Inserted (t, x) l l' → (a : ℕ) → least a l' ≤ t
  least_le_Inserted {t = t} (here {l = l}) a = ground (arith, least_le (if ltb t a then t else a) l)
  least_le_Inserted (there {b = b} i) a = least_le_Inserted i (if ltb b.0 a then b.0 else a)

  -- The least number of a queue that is not empty is its first.
  pub least_lem :
      {t : ℕ} (a : ℕ) {x : A} {xs : List A} {l : List (ℕ × A)}
      → Numbered t (x ∷ xs) l
      → t ≤ a
      → least a l ≡ t
  least_lem a (first {l' = l'} n i) p =
      let all = Numbered-AllFrom (first n i) in
      omega (arith, least_le_Inserted i a, le_least a l' p all)

-- The queue `self` holds the values `xs`, the oldest first.
pub record Holds {A : Type 0} (xs : List A) (self : ShortQueue A) : Type 0 where
  pub oldest : ℕ
  pub positive : 0 < oldest
  pub highest : self.highest_timestamp + 1 ≡ oldest + length xs
  pub lowest : 0 < length xs → self.lowest_timestamp ≡ oldest
  pub count : self.size ≡ length xs
  pub slots : Numbered oldest xs (filled self.elements)
