-- ===== src/Structures/UnsortedMap/Buckets.antt =====
-- crates/datastructures/src/map.rs: the buckets. What is written through `&mut` is returned. The
-- lengths of a bucket's arrays are fixed to `map_bucket_size`, so that the loops run over them.
use rostl.Base.{
  ℕ, zero, suc, ◌≡◌, ◌↔◌, Bool, true, false, not, ◌&&◌, ◌||◌, List, [], ◌∷◌, replicate,
}
use rostl.Primitives.{Cmov}
use rostl.Oram.Linear.{Default}
use rostl.Oram.Circuit.Blocks.{Zeroable}

-- The constant `BUCKET_SIZE`.
abbrev pub map_bucket_size : ℕ
map_bucket_size = 4

-- What the map asks of its keys: equality. The hash is an argument of the map.
pub record OHash (K : Type 0) : Type 0 where
  pub eq : K → K → Bool
  pub eq_iff : (a b : K) → (eq a b ≡ true) ↔ (a ≡ b)

pub record InlineElement (K V : Type 0) : Type 0 where
  pub key : K
  pub value : V

instance abbrev pub inline_element_default :
    {K V : Type 0} ⦃dk : Default K⦄ ⦃dv : Default V⦄ → Default (InlineElement K V)
inline_element_default ⦃dk⦄ ⦃dv⦄ = record {
  default = record { key = dk.default; value = dv.default };
}

pub record Bucket (K V : Type 0) : Type 0 where
  pub is_valid : List Bool
  pub elements : List (InlineElement K V)

instance abbrev pub bucket_default :
    {K V : Type 0} ⦃dk : Default K⦄ ⦃dv : Default V⦄ → Default (Bucket K V)
bucket_default ⦃dk⦄ ⦃dv⦄ = record {
  default = record {
    is_valid = replicate map_bucket_size false;
    elements = replicate map_bucket_size inline_element_default.default;
  };
}

-- A zeroed bucket, of zeroed elements without validity.
instance abbrev pub bucket_zeroable :
    {K V : Type 0} ⦃zk : Zeroable K⦄ ⦃zv : Zeroable V⦄ → Zeroable (Bucket K V)
bucket_zeroable ⦃zk⦄ ⦃zv⦄ = record {
  zeroed = record {
    is_valid = replicate map_bucket_size false;
    elements = replicate map_bucket_size (record { key = zk.zeroed; value = zv.zeroed });
  };
}

module _ {K V : Type 0} ⦃h : OHash K⦄ ⦃mv : Cmov V⦄ where
  -- The loop of `update_if_exists`.
  unfoldable pub update_slots :
      Bool
      → InlineElement K V
      → List Bool
      → List (InlineElement K V)
      → Bool
      → List (InlineElement K V) × Bool
  update_slots real element [] elements updated = (elements, updated)
  update_slots real element (v ∷ valid) [] updated = ([], updated)
  update_slots real element (v ∷ valid) (e ∷ elements) updated =
      let choice = real && (v && h.eq e.key element.key) in
      let e' : InlineElement K V = record {
        key = e.key;
        value = mv.cmov e.value element.value choice;
      } in
      let rest = update_slots real element valid elements (updated || choice) in
      (e' ∷ rest.0, rest.1)

  unfoldable pub update_if_exists : Bucket K V → Bool → InlineElement K V → Bucket K V × Bool
  unfolding update_slots
  update_if_exists self real element =
      let out = update_slots real element self.is_valid self.elements false in
      (record { is_valid = self.is_valid; elements = out.0 }, out.1)

  -- The loop of `read_if_exists`.
  unfoldable pub read_slots : K → List Bool → List (InlineElement K V) → V → Bool → V × Bool
  read_slots key [] elements ret found = (ret, found)
  read_slots key (v ∷ valid) [] ret found = (ret, found)
  read_slots key (v ∷ valid) (e ∷ elements) ret found =
      let choice = v && h.eq e.key key in
      read_slots key valid elements (mv.cmov ret e.value choice) (found || choice)

  unfoldable pub read_if_exists : Bucket K V → K → V → V × Bool
  unfolding read_slots
  read_if_exists self key ret = read_slots key self.is_valid self.elements ret false

module _ {K V : Type 0} ⦃me : Cmov (InlineElement K V)⦄ where
  -- The loop of `insert_if_available`.
  unfoldable pub insert_slots :
      InlineElement K V
      → List Bool
      → List (InlineElement K V)
      → Bool
      → List Bool × List (InlineElement K V) × Bool
  insert_slots element [] elements inserted = ([], elements, inserted)
  insert_slots element (v ∷ valid) [] inserted = (v ∷ valid, [], inserted)
  insert_slots element (v ∷ valid) (e ∷ elements) inserted =
      let choice = not inserted && not v in
      let rest = insert_slots element valid elements (inserted || choice) in
      ((v || choice) ∷ rest.0, me.cmov e element choice ∷ rest.1, rest.2)

  unfoldable pub insert_if_available : Bucket K V → Bool → InlineElement K V → Bucket K V × Bool
  unfolding insert_slots
  insert_if_available self real element =
      let out = insert_slots element self.is_valid self.elements (not real) in
      (record { is_valid = out.0; elements = out.1 }, out.2)

  -- `elements[index].cxchg(element, choice)`: the elements and the exchanged one.
  unfoldable pub exchange_at :
      ℕ
      → List (InlineElement K V)
      → InlineElement K V
      → Bool
      → List (InlineElement K V) × InlineElement K V
  exchange_at index [] element choice = ([], element)
  exchange_at zero (e ∷ elements) element choice =
      let out = me.cxchg e element choice in (out.0 ∷ elements, out.1)
  exchange_at (suc index) (e ∷ elements) element choice =
      let rest = exchange_at index elements element choice in (e ∷ rest.0, rest.1)
