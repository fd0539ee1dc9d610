-- ===== src/Storage/Pages.antt =====
-- crates/storage/src/memstore.rs: a page that is written is read back, and no other changes.
use native.Mathlib.Nat.{mul-le-mul_right, suc-mul}
use native.Mathlib.Decide.{dec_lt}
use rostl.Base.{
  ℕ, suc, ◌+◌, ◌-◌, ◌*◌, ◌≤◌, ◌<◌, ◌≡◌, refl, sym, ap, ◌∙◌, inl, inr, some, List, ◌++◌, ltb, ◌==◌,
  length, take, drop, if◌then◌else◌, ◌>>=◌, arith, get_elem?, get_elem?-append, get_elem?-take,
  get_elem?-drop, get_elem?-none, length-append, length-take, length-drop, list_ext, lt→ltb, le→ltb,
  le→leb, eq→==, ne→==, Bool-cases,
}
use rostl.Storage.{page_size, MemStore, read_page, write_page}

-- `bytes` with `buf` written from `a` on.
abbrev splice : ℕ → List ℕ → List ℕ → List ℕ
splice a buf bytes = take a bytes ++ (buf ++ drop (a + length buf) bytes)

length-splice :
    (a : ℕ) (buf bytes : List ℕ)
    → a + length buf ≤ length bytes
    → length (splice a buf bytes) ≡ length bytes
length-splice a buf bytes h =
    let rest = drop (a + length buf) bytes in
    omega (
      arith,
      length-append (take a bytes) (buf ++ rest),
      length-append buf rest,
      length-take a bytes (omega arith),
      length-drop (a + length buf) bytes,
    )

get_elem?-splice :
    (a : ℕ) (buf bytes : List ℕ) (k : ℕ)
    → a + length buf ≤ length bytes
    → get_elem? (splice a buf bytes) k ≡ (
        if ltb k a
        then get_elem? bytes k
        else if ltb k (a + length buf)
        then get_elem? buf (k - a)
        else get_elem? bytes k)
get_elem?-splice a buf bytes k h =
    let rest = drop (a + length buf) bytes in
    let len = length-take a bytes (omega arith) in
    let e1 = get_elem?-append (take a bytes) (buf ++ rest) k in
    let e2 = get_elem?-append buf rest (k - a) in
    let e3 = get_elem?-drop (a + length buf) bytes (k - a - length buf) in
    e1 ∙ elim (dec_lt k a) [
      | yes p ↦ rw (len, lt→ltb k a p) (get_elem?-take a bytes k p)
      | no q ↦
          rw (len, le→ltb k a (omega arith))
            (e2 ∙ elim (dec_lt (k - a) (length buf)) [
              | yes p ↦
                  rw (lt→ltb (k - a) (length buf) p, lt→ltb k (a + length buf) (omega arith)) refl
              | no q' ↦
                  rw
                    (
                      le→ltb (k - a) (length buf) (omega arith),
                      le→ltb k (a + length buf) (omega arith),
                    )
                    (e3 ∙ ap (get_elem? bytes) (omega arith))
            ])
    ]

-- The page `j`, byte by byte, after the page `i` is written; `p` is the size of a page.
page_byte :
    (p i j : ℕ) (buf bytes : List ℕ) (k : ℕ)
    → length buf ≡ p
    → i * p + p ≤ length bytes
    → k < p
    → get_elem? (splice (i * p) buf bytes) (j * p + k)
      ≡ (if i == j then get_elem? buf k else get_elem? bytes (j * p + k))
page_byte p i j buf bytes k e h hk =
    get_elem?-splice (i * p) buf bytes (j * p + k) (omega arith) ∙ elim (dec_lt i j) [
      | yes before ↦
          let apart : i * p + p ≤ j * p =
            omega (arith, mul-le-mul_right {m = suc i} {n = j} p (omega arith), suc-mul i p) in
          rw
            (
              le→ltb (j * p + k) (i * p) (omega arith),
              le→ltb (j * p + k) (i * p + length buf) (omega arith),
              ne→== i j (omega arith),
            )
            refl
      | no q ↦ elim (dec_lt j i) [
        | yes after ↦
            let apart : j * p + p ≤ i * p =
              omega (arith, mul-le-mul_right {m = suc j} {n = i} p (omega arith), suc-mul j p) in
            rw (lt→ltb (j * p + k) (i * p) (omega arith), ne→== i j (omega arith)) refl
        | no q' ↦
            let same : i ≡ j = omega arith in
            rw
              (
                same,
                le→ltb (j * p + k) (j * p) (omega arith),
                lt→ltb (j * p + k) (j * p + length buf) (omega arith),
                eq→== j j refl,
              )
              (ap (get_elem? buf) (omega arith))
      ]
    ]

page_lem :
    (p i j : ℕ) (buf bytes : List ℕ)
    → length buf ≡ p
    → i * p + p ≤ length bytes
    → j * p + p ≤ length bytes
    → take p (drop (j * p) (splice (i * p) buf bytes))
      ≡ (if i == j then buf else take p (drop (j * p) bytes))
page_lem p i j buf bytes e h h' =
    let new = splice (i * p) buf bytes in
    let long = length-splice (i * p) buf bytes (omega arith) in
    list_ext _ _ λ k. elim (dec_lt k p) [
      | yes hk ↦
          get_elem?-take p (drop (j * p) new) k hk
          ∙ get_elem?-drop (j * p) new k
          ∙ page_byte p i j buf bytes k e h hk
          ∙ elim (Bool-cases (i == j)) [
            | inl same ↦ rw same refl
            | inr other ↦
                rw other (
                  sym (get_elem?-take p (drop (j * p) bytes) k hk ∙ get_elem?-drop (j * p) bytes k))
          ]
      | no out ↦
          get_elem?-none (take p (drop (j * p) new)) k (
            omega
              (arith, length-take p (drop (j * p) new) (omega (arith, length-drop (j * p) new))))
          ∙ elim (Bool-cases (i == j)) [
            | inl same ↦ rw same (sym (get_elem?-none buf k (omega arith)))
            | inr other ↦ rw other (
                sym (
                  get_elem?-none (take p (drop (j * p) bytes)) k (
                    omega (
                      arith,
                      length-take p (drop (j * p) bytes) (omega (arith, length-drop (j * p) bytes)),
                    ))))
          ]
    ]

-- After a page is written within the store, from a buffer of the size of a page, a read within the
-- store gives the buffer for the same page and what was there before for another one.
pub read_page-write_page :
    (self : MemStore) (i j : ℕ) (buf old : List ℕ)
    → length buf ≡ page_size
    → length old ≡ page_size
    → i * page_size + page_size ≤ length self.bytes
    → j * page_size + page_size ≤ length self.bytes
    → (write_page self i buf >>= λ s. read_page s j old)
      ≡ (if i == j then some buf else read_page self j old)
unfolding read_page write_page
read_page-write_page self i j buf old e e' h h' =
    let new = splice (i * page_size) buf self.bytes in
    let long = length-splice (i * page_size) buf self.bytes (omega arith) in
    let cut : i * page_size + page_size ≡ i * page_size + length buf = omega arith in
    rw
      (
        le→leb (i * page_size + page_size) (length self.bytes) h,
        le→leb (j * page_size + page_size) (length self.bytes) h',
        eq→== (length buf) page_size e,
        eq→== (length old) page_size e',
        cut,
      )
      (rw
        (
          le→leb (j * page_size + page_size) (length new) (omega (arith, long)),
          page_lem page_size i j buf self.bytes e h h',
        )
        (elim (Bool-cases (i == j)) [ inl same ↦ rw same refl | inr other ↦ rw other refl ]))
