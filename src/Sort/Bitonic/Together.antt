-- ===== src/Sort/Bitonic/Together.antt =====
-- crates/sort/src/bitonic.rs: the results are rearrangements, and the payload moves with its keys.
use mathlib.Core.List.Perm
use rostl.Base.{
  ℕ, ◌^◌, ◌<◌, ◌≡◌, refl, ◌∙◌, Bool, true, false, List, Perm, leb, length, get_elem?, arith,
  Returns, returns, Returns-bind, Returns-imp, eq→==, Bool-cases, inl, inr,
}
use rostl.Primitives.{Cmov}
use rostl.Primitives.CswapIndex.{cswap, swapped, cswap-Swapped}
use rostl.Sort.Bitonic.{Ord, bitonic_sort, swap_both, bitonic_payload_sort}
use rostl.Sort.Bitonic.Runs.{sort_inner-keeps}

leb→lt : (a b : ℕ) → leb a b ≡ false → b < a
leb→lt a b h = ground arith

-- A rearrangement.
pub record Rearranged {A : Type 0} (arr out : List A) : Type 0 where
  pub size : length out ≡ length arr
  pub perm : Perm out arr

-- Keys and payload are rearranged by the same map `from` of the places.
pub record Together {A P : Type 0} (keys : List A) (payload : List P) (r : List A × List P)
    : Type 0 where
  pub from : ℕ → ℕ
  pub key : (k : ℕ) → get_elem? r.0 k ≡ get_elem? keys (from k)
  pub value : (k : ℕ) → get_elem? r.1 k ≡ get_elem? payload (from k)
  pub key_perm : Perm r.0 keys
  pub value_perm : Perm r.1 payload
  pub key_size : length r.0 ≡ length keys
  pub value_size : length r.1 ≡ length payload

-- `bitonic_sort` returns on every slice shorter than 2^63, whatever the order of the entries is, and
-- the result is a rearrangement of the slice.
pub bitonic_sort-Rearranged :
    {A : Type 0} ⦃o : Ord A⦄ ⦃m : Cmov A⦄ (arr : List A)
    → length arr < 2 ^ 63
    → Returns (Rearranged arr) (bitonic_sort arr)
unfolding bitonic_sort
bitonic_sort-Rearranged arr small = elim (Bool-cases (leb (length arr) 1)) [
  | inl short ↦ rw short (returns (record { size = refl; perm = Perm.rfl }))
  | inr long ↦ rw long (
      sort_inner-keeps (λ a. a) cswap (length arr) (Rearranged arr) (λ a p. p.size)
        (λ a i j c p h b.
          Returns-imp (cswap-Swapped a i j c h (omega (arith, p.size)))
            λ out w. record { size = w.size ∙ p.size; perm = Perm.trans w.perm p.perm })
        (length arr) true 0 (length arr) arr (omega arith) (leb→lt (length arr) 1 long)
        (omega arith) small (record { size = refl; perm = Perm.rfl }))
]

module _ {A P : Type 0} ⦃o : Ord A⦄ ⦃m : Cmov A⦄ ⦃mp : Cmov P⦄ (keys : List A)
    (payload : List P) where
  swap_both-Together :
      (s : List A × List P) (i j : ℕ) (c : Bool)
      → length keys ≡ length payload
      → Together keys payload s
      → i < j
      → j < length keys
      → Returns (Together keys payload) (swap_both s i j c)
  unfolding swap_both
  swap_both-Together s i j c e t h b =
      rw (eq→== (length s.0) (length s.1) (omega (arith, t.key_size, t.value_size))) (
        Returns-bind (cswap-Swapped s.0 i j c h (omega (arith, t.key_size))) λ arr w.
          Returns-bind (cswap-Swapped s.1 i j c h (omega (arith, t.value_size))) λ values w'.
            returns (record {
              from = λ k. t.from (swapped i j c k);
              key = λ k. w.entry k ∙ t.key (swapped i j c k);
              value = λ k. w'.entry k ∙ t.value (swapped i j c k);
              key_perm = Perm.trans w.perm t.key_perm;
              value_perm = Perm.trans w'.perm t.value_perm;
              key_size = w.size ∙ t.key_size;
              value_size = w'.size ∙ t.value_size;
            }))

  start-Together : Together keys payload (keys, payload)
  start-Together = record {
    from = λ k. k;
    key = λ k. refl;
    value = λ k. refl;
    key_perm = Perm.rfl;
    value_perm = Perm.rfl;
    key_size = refl;
    value_size = refl;
  }

  -- `bitonic_payload_sort` on keys and a payload of the same length below 2^63 returns, and has
  -- rearranged both in the same way.
  pub bitonic_payload_sort-Together :
      length keys ≡ length payload
      → length keys < 2 ^ 63
      → Returns (Together keys payload) (bitonic_payload_sort keys payload)
  unfolding bitonic_payload_sort
  bitonic_payload_sort-Together e small = elim (Bool-cases (leb (length keys) 1)) [
    | inl short ↦ rw short (returns start-Together)
    | inr long ↦
        rw (long, eq→== (length keys) (length payload) e)
          (sort_inner-keeps (λ s. s.0) swap_both (length keys) (Together keys payload)
            (λ s t. t.key_size) (λ s i j c t h b. swap_both-Together s i j c e t h b) (length keys)
            true 0 (length keys) (keys, payload) (omega arith) (leb→lt (length keys) 1 long)
            (omega arith) small start-Together)
  ]
