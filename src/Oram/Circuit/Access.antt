-- ===== src/Oram/Circuit/Access.antt =====
-- crates/oram/src/circuit_oram.rs: what the four operations share: the key's block leaves the
-- stash and the path, and another one is written.
use mathlib.Core.List
use mathlib.Core.List.{perm-append_left_iff}
use mathlib.Core.List.Perm
use rostl.Base.{
  ℕ, zero, suc, ◌≤◌, ◌<◌, ◌≡◌, refl, ap, sym, subst, ◌∙◌, true, List, [], ◌∷◌, ◌++◌, arith, length,
  Perm, take, length-take, take-append, Bool-cases, inl, inr, Returns-some, some,
}
use rostl.Primitives.{Cmov}
use rostl.Oram.Circuit.Blocks.{Zeroable, Block, matches, is_empty, stash_size}
use rostl.Oram.Circuit.{Bucket, CircuitOram, with_stash, concat, read_path_and_get_nodes}
use rostl.Oram.Circuit.Filled.{one, filled, filled-append, perm_past, All}
use rostl.Oram.Circuit.Passes.{any_empty}
use rostl.Oram.Circuit.Paths.{ReadPath}
use rostl.Oram.Circuit.Elements.{with_key, without_key, cleared, without_key-filled}
use rostl.Oram.Circuit.Stash.{without_key-OnStash}
use rostl.Oram.Circuit.State.{
  IsCircuitOram, content, read_path_and_get_nodes-ReadNodes, ReadPath-OnStash,
}
use rostl.Oram.Circuit.Evolve.{Evolved}
use rostl.Oram.Circuit.Operations.{if_room, write_and_evict-Evolved}
use rostl.Oram.Circuit.Tally.{tally, tally-perm, tally-append, length-with_key}
use rostl.Oram.Circuit.Location.{Located, path-Located, path_rest}
use rostl.Oram.Circuit.Ops.{write_and_evict}

-- The state after an operation on a key: `removed` were the key's blocks, and `block` has taken
-- their place; nothing else has changed.
pub record Accessed {V : Type 0} (self : CircuitOram V) (key : ℕ) (block : Block V)
    (removed : List (Block V)) (out : CircuitOram V) : Type 0 where
  pub state : IsCircuitOram out
  pub max_n : out.max_n ≡ self.max_n
  pub rest : List (Block V)
  pub before : Perm (content self) (removed ++ rest)
  pub after : Perm (content out) (one block ++ rest)
  pub of_key : All (λ b. matches key b ≡ true) removed
  pub no_other : tally (matches key) rest ≡ 0

module _ {V : Type 0} (key : ℕ) where
  take-without_key :
      (n : ℕ) (xs : List (Block V)) → take n (without_key key xs) ≡ without_key key (take n xs)
  take-without_key zero xs = refl
  take-without_key (suc n) [] = refl
  take-without_key (suc n) (x ∷ xs) = ap (◌∷◌ (cleared key x)) (take-without_key n xs)

  without_key_room :
      (xs : List (Block V)) → any_empty xs ≡ true → any_empty (without_key key xs) ≡ true
  unfolding any_empty
  without_key_room [] e = e
  without_key_room (x ∷ xs) e = elim (Bool-cases (matches key x)) [
    | inl g ↦ rw g refl
    | inr g ↦ elim (Bool-cases (is_empty x)) [
      | inl h ↦ rw (g, h) refl
      | inr h ↦ rw (g, h) (without_key_room xs (rw h at e))
    ]
  ]

  pub with_key-All : (xs : List (Block V)) → All (λ b. matches key b ≡ true) (with_key key xs)
  with_key-All [] = refl
  with_key-All (x ∷ xs) = elim (Bool-cases (matches key x)) [
    | inl e ↦ rw e (e, with_key-All xs)
    | inr e ↦ rw e (with_key-All xs)
  ]

  pub tally-with_key :
      (xs : List (Block V)) → tally (matches key) (with_key key xs) ≡ tally (matches key) xs
  tally-with_key [] = refl
  tally-with_key (x ∷ xs) = elim (Bool-cases (matches key x)) [
    | inl e ↦ rw (e, e) (ap suc (tally-with_key xs))
    | inr e ↦ rw e (tally-with_key xs)
  ]

-- The path of a position that is in the stash, and the operation's end.
pub record Access {V : Type 0} ⦃m : Cmov (Block V)⦄ ⦃z : Zeroable V⦄ (self : CircuitOram V)
    (pos key : ℕ) : Type 0 where
  pub stash : List (Block V)
  pub nodes : read_path_and_get_nodes self pos ≡ some (with_stash self stash)
  pub once : length (with_key key stash) ≤ 1
  pub finish :
      (block : Block V)
      → (out : CircuitOram V) × Accessed self key block (with_key key stash) out
        × (write_and_evict (with_stash self (without_key key stash)) pos block ≡ if_room out out)

module _ {V : Type 0} ⦃m : Cmov (Block V)⦄ ⦃z : Zeroable V⦄ (self : CircuitOram V)
    (pos key : ℕ) where
  -- The blocks before and after, of an operation that has evolved the state.
  Evolved-Accessed :
      (old : List (Bucket V)) (block : Block V) (out : CircuitOram V)
      → let stash = take stash_size self.stash ++ concat old in
        IsCircuitOram self
        → Located self pos key
        → ReadPath self.tree pos 0 self.tree.height old
        → Evolved self (with_key key stash) (one block) out
        → Accessed self key block (with_key key stash) out
  Evolved-Accessed old block out t known r e =
      let front = take stash_size self.stash in
      let stash = front ++ concat old in
      let removed = with_key key stash in
      let others = filled (without_key key stash) in
      let (off, p) = path_rest self pos old t r in
      let rest = others ++ off in
      let before : Perm (content self) (removed ++ rest) =
        Perm.trans (Perm.append_left (filled front) (Perm.symm p)) (
          rw
            (
              ← List.append_assoc (filled front) (filled (concat old)) off,
              ← filled-append front (concat old),
              ← List.append_assoc removed others off,
            )
            (Perm.append_right off (Perm.symm (without_key-filled key stash)))) in
      let after = (perm-append_left_iff removed).0 (
        Perm.trans e.blocks (
          Perm.trans (Perm.append_left (one block) before) (perm_past (one block) removed rest))) in
      record {
        state = e.state;
        max_n = e.max_n;
        rest = rest;
        before = before;
        after = after;
        of_key = with_key-All key stash;
        no_other = omega (
          arith,
          tally-perm (matches key) _ _ before,
          tally-append (matches key) removed rest,
          tally-with_key key stash,
          path-Located self pos key old t known r,
        );
      }

  pub access :
      IsCircuitOram self
      → pos < self.max_n
      → any_empty (take stash_size self.stash) ≡ true
      → Located self pos key
      → Access self pos key
  access t h room known =
      let (out, read, n) = Returns-some (read_path_and_get_nodes-ReadNodes self pos t h) in
      let front = take stash_size self.stash in
      let stash = front ++ concat n.old in
      let size = length-take stash_size self.stash (omega (arith, t.stash)) in
      let on = ReadPath-OnStash self pos t h n.old n.path in
      let still_room : any_empty (take stash_size (without_key key stash)) ≡ true =
        rw
          (
            take-without_key key stash_size stash,
            take-append front (concat n.old) stash_size (sym size),
          )
          (without_key_room key front room) in
      record {
        stash = stash;
        nodes = read ∙ ap some n.result;
        once = omega (
          arith,
          length-with_key key stash,
          path-Located self pos key n.old t known n.path,
          known.once,
        );
        finish = λ block.
            let (out', e, done) =
              write_and_evict-Evolved self pos n.old (without_key key stash) (with_key key stash)
                block t h n.path (without_key-OnStash key self.h pos stash on) still_room
                (subst (Perm (with_key key stash ++ filled (without_key key stash)))
                  (filled-append front (concat n.old)) (without_key-filled key stash)) in
            (out', Evolved-Accessed n.old block out' t known n.path e, done);
      }
