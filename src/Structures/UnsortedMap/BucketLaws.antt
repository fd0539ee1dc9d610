-- ===== src/Structures/UnsortedMap/BucketLaws.antt =====
-- crates/datastructures/src/map.rs: a bucket as a partial function.
use rostl.Base.{
  ◌≡◌, refl, ap, sym, subst, ◌∙◌, Bool, true, false, not, ◌&&◌, ◌||◌, List, [], ◌∷◌, Option, none,
  some, if◌then◌else◌, Bool-cases, inl, inr,
}
use rostl.Primitives.{Cmov}
use rostl.Structures.UnsortedMap.Buckets.{
  OHash, InlineElement, Bucket, update_slots, update_if_exists, read_slots, read_if_exists,
  insert_slots, insert_if_available,
}

-- The first option, or else the second.
abbrev pub or_value : {V : Type 0} → Option V → Option V → Option V
or_value none o = o
or_value (some x) o = some x

abbrev pub value_of : {V : Type 0} → V → Option V → V
value_of ret none = ret
value_of ret (some x) = x

abbrev pub is_some : {V : Type 0} → Option V → Bool
is_some none = false
is_some (some x) = true

module _ {K V : Type 0} ⦃h : OHash K⦄ where
  abbrev in_slot : K → Bool → InlineElement K V → Option V
  in_slot key v e = if v && h.eq e.key key then some e.value else none

  -- The value of a key in the valid slots: the last one, as the loops read it.
  abbrev pub lookup_slots : K → List Bool → List (InlineElement K V) → Option V
  lookup_slots key [] elements = none
  lookup_slots key (v ∷ valid) [] = none
  lookup_slots key (v ∷ valid) (e ∷ elements) =
      or_value (lookup_slots key valid elements) (in_slot key v e)

  abbrev pub lookup : K → Bucket K V → Option V
  lookup key self = lookup_slots key self.is_valid self.elements

  -- Whether a slot is free.
  abbrev pub free_slots : List Bool → List (InlineElement K V) → Bool
  free_slots [] elements = false
  free_slots (v ∷ valid) [] = false
  free_slots (v ∷ valid) (e ∷ elements) = not v || free_slots valid elements

  abbrev pub free : Bucket K V → Bool
  free self = free_slots self.is_valid self.elements

module _ {V : Type 0} where
  value_step :
      (o : Option V) (c : Bool) (x ret : V)
      → value_of (if c then x else ret) o ≡ value_of ret (or_value o (if c then some x else none))
  value_step none true x ret = refl
  value_step none false x ret = refl
  value_step (some y) c x ret = refl

  found_step :
      (o : Option V) (c : Bool) (x : V) (found : Bool)
      → ((found || c) || is_some o) ≡ (found || is_some (or_value o (if c then some x else none)))
  found_step o c x true = refl
  found_step none true x false = refl
  found_step none false x false = refl
  found_step (some y) true x false = refl
  found_step (some y) false x false = refl

  or_none : (o : Option V) → or_value o none ≡ o
  or_none none = refl
  or_none (some x) = refl

  or_none_first : (o p : Option V) → or_value o p ≡ none → (o ≡ none) × (p ≡ none)
  or_none_first none p e = (refl, e)
  or_none_first (some x) p e = absurd (cc)

or_false : (b : Bool) → (b || false) ≡ b
or_false true = refl
or_false false = refl

module _ {K V : Type 0} ⦃h : OHash K⦄ ⦃mv : Cmov V⦄ where
  read_slots_lem :
      (key : K) (valid : List Bool) (elements : List (InlineElement K V)) (ret : V) (found : Bool)
      → read_slots key valid elements ret found ≡ (
        value_of ret (lookup_slots key valid elements),
        found || is_some (lookup_slots key valid elements),
      )
  unfolding read_slots
  read_slots_lem key [] elements ret found = ap (λ b. (ret, b)) (sym (or_false found))
  read_slots_lem key (v ∷ valid) [] ret found = ap (λ b. (ret, b)) (sym (or_false found))
  read_slots_lem key (v ∷ valid) (e ∷ elements) ret found =
      let c = v && h.eq e.key key in
      let o = lookup_slots key valid elements in
      ap (λ r. read_slots key valid elements r (found || c)) (mv.cmov_lem ret e.value c)
      ∙ read_slots_lem key valid elements (if c then e.value else ret) (found || c)
      ∙ ap (λ r. (r, (found || c) || is_some o)) (value_step o c e.value ret)
      ∙ ap (λ r. (value_of ret (or_value o (if c then some e.value else none)), r))
          (found_step o c e.value found)

  -- read_if_exists gives the key's value and says that it is there, or keeps `ret`.
  pub read_if_exists-lookup :
      (self : Bucket K V) (key : K) (ret : V)
      → read_if_exists self key ret ≡ (value_of ret (lookup key self), is_some (lookup key self))
  unfolding read_if_exists
  read_if_exists-lookup self key ret = read_slots_lem key self.is_valid self.elements ret false

module _ {K V : Type 0} ⦃h : OHash K⦄ ⦃me : Cmov (InlineElement K V)⦄ where
  -- After the insertion, or when there is none to do, the loop changes nothing.
  insert_nothing :
      (element : InlineElement K V) (valid : List Bool) (elements : List (InlineElement K V))
      → insert_slots element valid elements true ≡ (valid, elements, true)
  unfolding insert_slots
  insert_nothing element [] elements = refl
  insert_nothing element (v ∷ valid) [] = refl
  insert_nothing element (v ∷ valid) (e ∷ elements) =
      rw (or_false v, me.cmov_lem e element false, insert_nothing element valid elements) refl

  insert_full :
      (element : InlineElement K V) (valid : List Bool) (elements : List (InlineElement K V))
      → free_slots valid elements ≡ false
      → insert_slots element valid elements false ≡ (valid, elements, false)
  unfolding insert_slots
  insert_full element [] elements e = refl
  insert_full element (v ∷ valid) [] e = refl
  insert_full element (true ∷ valid) (x ∷ elements) e =
      rw (me.cmov_lem x element false, insert_full element valid elements e) refl
  insert_full element (false ∷ valid) (x ∷ elements) e = absurd (cc)

  insert_free :
      (element : InlineElement K V) (valid : List Bool) (elements : List (InlineElement K V))
      → free_slots valid elements ≡ true
      → lookup_slots element.key valid elements ≡ none
      → ((insert_slots element valid elements false).2 ≡ true)
        × ((key : K)
            → lookup_slots key
                (insert_slots element valid elements false).0
                (insert_slots element valid elements false).1
              ≡ (if h.eq element.key key
                  then some element.value
                  else lookup_slots key valid elements))
  unfolding insert_slots
  insert_free element [] elements f e = absurd (cc)
  insert_free element (v ∷ valid) [] f e = absurd (cc)
  insert_free element (true ∷ valid) (x ∷ elements) f e =
      let (absent, here) = or_none_first (lookup_slots element.key valid elements) _ e in
      let (done, rest) = insert_free element valid elements f absent in
      (
        done,
        λ key.
            rw (me.cmov_lem x element false, rest key)
              (elim (Bool-cases (h.eq element.key key)) [ inr g ↦ rw g refl | inl g ↦ rw g refl ]),
      )
  insert_free element (false ∷ valid) (x ∷ elements) f e =
      let (absent, _) = or_none_first (lookup_slots element.key valid elements) _ e in
      let nothing = insert_nothing element valid elements in
      (
        ap (λ r. r.2) nothing,
        λ key.
            rw (nothing, me.cmov_lem x element true)
              (elim (Bool-cases (h.eq element.key key)) [
                | inr g ↦ rw g refl
                | inl g ↦
                    let absent' =
                      subst (λ k. lookup_slots k valid elements ≡ none)
                        ((h.eq_iff element.key key).0 g) absent in
                    rw (g, absent') refl
              ]),
      )

  -- insert_if_available of a real element whose key the bucket does not have, with a free slot,
  -- adds the element; without a free slot, or for an element that is not real, it changes nothing.
  -- It says whether the element is in, or was not to be.
  pub insert_if_available-lookup :
      (self : Bucket K V) (real : Bool) (element : InlineElement K V)
      → lookup element.key self ≡ none
      → ((insert_if_available self real element).1 ≡ not real || free self)
        × ((key : K)
            → lookup key (insert_if_available self real element).0 ≡ (
                if real && (free self && h.eq element.key key)
                then some element.value
                else lookup key self))
  unfolding insert_if_available
  insert_if_available-lookup self false element e =
      let nothing = insert_nothing element self.is_valid self.elements in
      (ap (λ r. r.2) nothing, λ key. ap (λ r. lookup_slots key r.0 r.1) nothing)
  insert_if_available-lookup self true element e = elim (Bool-cases (free self)) [
    | inl f ↦
        let (done, rest) = insert_free element self.is_valid self.elements f e in
        (done ∙ sym f, λ key. rw f (rest key))
    | inr f ↦
        let nothing = insert_full element self.is_valid self.elements f in
        (ap (λ r. r.2) nothing ∙ sym f, λ key. rw f (ap (λ r. lookup_slots key r.0 r.1) nothing))
  ]

module _ {V : Type 0} where
  absent_step : (c : Bool) (x : V) → none ≡ (if c && false then some x else none)
  absent_step true x = refl
  absent_step false x = refl

  -- A slot of the updated key.
  hit_step :
      (o : Option V) (c : Bool) (x y : V)
      → or_value (if is_some o then some x else o) (if c then some (if c then x else y) else none)
        ≡ (if is_some (or_value o (if c then some y else none))
            then some x
            else or_value o (if c then some y else none))
  hit_step none true x y = refl
  hit_step none false x y = refl
  hit_step (some z) c x y = refl

  -- A slot of another key.
  miss_step :
      (k c : Bool) (x y : V)
      → (k ≡ true → c ≡ false)
      → (if k then some (if c then x else y) else none) ≡ (if k then some y else none)
  miss_step true c x y other = rw (other refl) refl
  miss_step false c x y other = refl

and_right : (a b : Bool) → (a && b) ≡ true → b ≡ true
and_right true b e = e
and_right false b e = absurd (cc)

module _ {K : Type 0} ⦃h : OHash K⦄ where
  -- A slot of a key that is not the updated one.
  other_slot :
      (v : Bool) (a key b : K)
      → h.eq b key ≡ false
      → (v && h.eq a key) ≡ true
      → (v && h.eq a b) ≡ false
  other_slot v a key b ne e = elim (Bool-cases (v && h.eq a b)) [
    | inr f ↦ f
    | inl f ↦
        let to_key = (h.eq_iff a key).0 (and_right v (h.eq a key) e) in
        let to_b = (h.eq_iff a b).0 (and_right v (h.eq a b) f) in
        absurd (cc (ne, (h.eq_iff b key).1 (sym to_b ∙ to_key)))
  ]

module _ {K V : Type 0} ⦃h : OHash K⦄ ⦃mv : Cmov V⦄ where
  update_slots_lem :
      (element : InlineElement K V) (valid : List Bool) (elements : List (InlineElement K V))
      (updated : Bool)
      → ((update_slots true element valid elements updated).1
          ≡ updated || is_some (lookup_slots element.key valid elements))
        × ((key : K)
            → lookup_slots key valid (update_slots true element valid elements updated).0 ≡ (
                if h.eq element.key key && is_some (lookup_slots key valid elements)
                then some element.value
                else lookup_slots key valid elements))
  unfolding update_slots
  update_slots_lem element [] elements updated =
      (sym (or_false updated), λ key. absent_step (h.eq element.key key) element.value)
  update_slots_lem element (v ∷ valid) [] updated =
      (sym (or_false updated), λ key. absent_step (h.eq element.key key) element.value)
  update_slots_lem element (v ∷ valid) (e ∷ elements) updated =
      let c = v && h.eq e.key element.key in
      let (done, rest) = update_slots_lem element valid elements (updated || c) in
      (
        done ∙ found_step (lookup_slots element.key valid elements) c e.value updated,
        λ key.
            rw (mv.cmov_lem e.value element.value c, rest key)
              (elim (Bool-cases (h.eq element.key key)) [
                | inr g ↦ rw g (
                    ap (or_value (lookup_slots key valid elements)) (
                      miss_step (v && h.eq e.key key) c element.value e.value
                        (other_slot v e.key key element.key g)))
                | inl g ↦
                    let same = (h.eq_iff element.key key).0 g in
                    let c' : c ≡ (v && h.eq e.key key) = ap (λ k. v && h.eq e.key k) same in
                    rw (g, c')
                      (hit_step (lookup_slots key valid elements) (v && h.eq e.key key)
                        element.value e.value)
              ]),
      )

  -- update_if_exists of a real element replaces the value of its key, if the bucket has the key,
  -- which it says, and changes no other key's.
  pub update_if_exists-lookup :
      (self : Bucket K V) (element : InlineElement K V)
      → ((update_if_exists self true element).1 ≡ is_some (lookup element.key self))
        × ((key : K)
            → lookup key (update_if_exists self true element).0 ≡ (
                if h.eq element.key key && is_some (lookup key self)
                then some element.value
                else lookup key self))
  unfolding update_if_exists
  update_if_exists-lookup self element = update_slots_lem element self.is_valid self.elements false
