-- ===== src/Oram/Circuit/Relocate.antt =====
-- crates/oram/src/circuit_oram.rs: what is known of the keys after an operation.
use rostl.Base.{
  ℕ, ◌≤◌, ◌≡◌, refl, sym, ◌∙◌, arith, Bool, true, false, List, [], ◌∷◌, ◌⊎◌, inl, inr, Bool-cases,
  ◌==◌, ==_iff, eq→==, ne→==,
}
use rostl.Oram.Circuit.Blocks.{Block, matches, is_empty, dummy_pos}
use rostl.Oram.Circuit.{CircuitOram}
use rostl.Oram.Circuit.Filled.{one, All}
use rostl.Oram.Circuit.State.{content}
use rostl.Oram.Circuit.Tally.{tally, tally-perm, tally-append, misplaced}
use rostl.Oram.Circuit.Location.{Located}
use rostl.Oram.Circuit.Access.{Accessed}

module _ {V : Type 0} where
  -- What every block of a list lacks.
  pub tally_none :
      (f : Block V → Bool) (P : Block V → Type 0) (xs : List (Block V))
      → ((b : Block V) → P b → f b ≡ false)
      → All P xs
      → tally f xs ≡ 0
  tally_none f P [] none_of all = refl
  tally_none f P (x ∷ xs) none_of all = rw (none_of x all.0) (tally_none f P xs none_of all.1)

  pub tally-misplaced :
      (k pos : ℕ) (xs : List (Block V)) → tally (misplaced k pos) xs ≤ tally (matches k) xs
  tally-misplaced k pos [] = omega arith
  tally-misplaced k pos (x ∷ xs) = elim (Bool-cases (matches k x)) [
    | inr e ↦ rw e (tally-misplaced k pos xs)
    | inl e ↦ elim (Bool-cases (x.pos == pos)) [
      | inl g ↦ rw (e, g) (omega (arith, tally-misplaced k pos xs))
      | inr g ↦ rw (e, g) (omega (arith, tally-misplaced k pos xs))
    ]
  ]

  pub matches_other :
      (k key : ℕ) (b : Block V) → ¬ (k ≡ key) → matches key b ≡ true → matches k b ≡ false
  matches_other k key b ne e = elim (Bool-cases (is_empty b)) [
    | inl g ↦ rw g refl
    | inr g ↦ elim (Bool-cases (b.key == k)) [
      | inr h ↦ rw (g, h) refl
      | inl h ↦ absurd (ne (sym ((==_iff b.key k).0 h) ∙ (==_iff b.key key).0 (rw g at e)))
    ]
  ]

  pub tally-one : (f : Block V → Bool) (b : Block V) → tally f (one b) ≤ 1
  tally-one f b = elim (Bool-cases (is_empty b)) [
    | inl e ↦ rw e (omega arith)
    | inr e ↦ elim (Bool-cases (f b)) [
      | inl g ↦ rw (e, g) (omega arith)
      | inr g ↦ rw (e, g) (omega arith)
    ]
  ]

  pub one_none :
      (f : Block V → Bool) (b : Block V) → (is_empty b ≡ true) ⊎ (f b ≡ false) → tally f (one b) ≡ 0
  one_none f b (inl e) = rw e refl
  one_none f b (inr e) = elim (Bool-cases (is_empty b)) [
    | inl g ↦ rw g refl
    | inr g ↦ rw (g, e) refl
  ]

  pub at_home : (key pos : ℕ) (b : Block V) → b.pos ≡ pos → misplaced key pos b ≡ false
  at_home key pos b e = elim (Bool-cases (matches key b)) [
    | inl g ↦ rw (g, eq→== b.pos pos e) refl
    | inr g ↦ rw g refl
  ]

  misplaced_other : (k pos : ℕ) (b : Block V) → matches k b ≡ false → misplaced k pos b ≡ false
  misplaced_other k pos b e = rw e refl

  pub key_other : (k : ℕ) (b : Block V) → ¬ (k ≡ b.key) → matches k b ≡ false
  key_other k b ne = elim (Bool-cases (is_empty b)) [
    | inl g ↦ rw g refl
    | inr g ↦ rw (g, ne→== b.key k (λ e. ne (sym e))) refl
  ]

  -- The new block of the key is the only one, at its position.
  pub Accessed-Located :
      {self out : CircuitOram V} {key : ℕ} {block : Block V} {removed : List (Block V)} (pos : ℕ)
      → Accessed self key block removed out
      → (block.pos ≡ pos) ⊎ (block.pos ≡ dummy_pos)
      → Located out pos key
  Accessed-Located {self} {out} {key} {block} pos a placed =
      let none_here : tally (misplaced key pos) (one block) ≡ 0 =
        one_none (misplaced key pos) block (elim placed [
          | inr e ↦ inl (eq→== block.pos dummy_pos e)
          | inl e ↦ inr (at_home key pos block e)
        ]) in
      record {
        once = omega (
          arith,
          tally-perm (matches key) _ _ a.after,
          tally-append (matches key) (one block) a.rest,
          tally-one (matches key) block,
          a.no_other,
        );
        here = omega (
          arith,
          tally-perm (misplaced key pos) _ _ a.after,
          tally-append (misplaced key pos) (one block) a.rest,
          none_here,
          tally-misplaced key pos a.rest,
          a.no_other,
        );
      }

  -- Nothing changes for another key.
  same_tally :
      {self out : CircuitOram V} {key : ℕ} {block : Block V} {removed : List (Block V)}
      (f : Block V → Bool)
      → Accessed self key block removed out
      → ((b : Block V) → matches key b ≡ true → f b ≡ false)
      → (is_empty block ≡ true) ⊎ (f block ≡ false)
      → tally f (content out) ≡ tally f (content self)
  same_tally {key} {block} {removed} f a other new_other = omega (
    arith,
    tally-perm f _ _ a.after,
    tally-append f (one block) a.rest,
    one_none f block new_other,
    tally-perm f _ _ a.before,
    tally-append f removed a.rest,
    tally_none f (λ b. matches key b ≡ true) removed other a.of_key,
  )

  pub Accessed-other-Located :
      {self out : CircuitOram V} {key : ℕ} {block : Block V} {removed : List (Block V)} (k pos : ℕ)
      → Accessed self key block removed out
      → block.key ≡ key
      → ¬ (k ≡ key)
      → Located self pos k
      → Located out pos k
  Accessed-other-Located {key} {block} k pos a same ne known =
      let not_it = key_other k block (λ e. ne (e ∙ same)) in
      record {
        once = omega (
          arith,
          known.once,
          same_tally (matches k) a (λ b. matches_other k key b ne) (inr not_it),
        );
        here =
            same_tally (misplaced k pos) a
              (λ b e. misplaced_other k pos b (matches_other k key b ne e))
              (inr (misplaced_other k pos block not_it))
            ∙ known.here;
      }
