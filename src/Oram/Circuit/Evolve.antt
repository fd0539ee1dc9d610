-- ===== src/Oram/Circuit/Evolve.antt =====
-- crates/oram/src/circuit_oram.rs: an eviction between the read of a path and its write back, and
-- the deterministic evictions.
use mathlib.Core.List
use mathlib.Core.List.{perm-append_left_iff}
use mathlib.Core.List.Perm
use rostl.Base.{
  ℕ, ◌+◌, ◌-◌, ◌*◌, ◌^◌, ◌<◌, ◌≡◌, refl, ◌∙◌, List, [], ◌++◌, arith, length, Perm, take, drop,
  length-drop, lt→ltb, Returns, returns, Returns-bind, Returns-imp, ◌>>=◌, get_elem?,
}
use native.Mathlib.Nat.{mod-lt, mod-eq_of_lt, pow-le-pow_right}
use rostl.Primitives.{Cmov}
use rostl.Primitives.Usize.{checked_rem_lem}
use rostl.Oram.Circuit.Blocks.{Zeroable, Block, bucket_size, stash_size}
use rostl.Oram.HeapTree.Index.{place}
use rostl.Oram.Circuit.{
  Bucket, CircuitOram, with_stash, concat, chunks, read_path_and_get_nodes, write_back_path,
}
use rostl.Oram.Circuit.Filled.{filled, filled-append, perm_past}
use rostl.Oram.Circuit.Paths.{OnPath, ReadPath}
use rostl.Oram.Circuit.Stash.{OnStash, concat-chunks, front-filled}
use rostl.Oram.Circuit.EvictOnce.{evict_once_fast-EvictedOnce}
use rostl.Oram.Circuit.State.{
  IsCircuitOram, content, read_path_and_get_nodes-ReadNodes, ReadPath-OnStash,
  write_back_path-WritePath,
}
use rostl.Oram.Circuit.Ops.{evict_once_fast, perform_eviction, eviction_round}

-- The state after a change: the blocks without `removed` are the old ones with `added`.
pub record Evolved {V : Type 0} (self : CircuitOram V) (removed added : List (Block V))
    (out : CircuitOram V) : Type 0 where
  pub state : IsCircuitOram out
  pub max_n : out.max_n ≡ self.max_n
  pub h : out.h ≡ self.h
  pub blocks : Perm (removed ++ content out) (added ++ content self)

-- A path was written: its buckets are those behind the stash, and no bucket off the path changed.
pub record Rewritten {V : Type 0} (self : CircuitOram V) (pos : ℕ) (out : CircuitOram V)
    : Type 0 where
  pub on_path : OnPath out.tree pos 0 (chunks out.h (drop stash_size out.stash))
  pub frame :
      (d p : ℕ)
      → ((k : ℕ) → ¬ (place k pos ≡ place d p))
      → get_elem? out.tree.tree (place d p) ≡ get_elem? self.tree.tree (place d p)

module _ {A : Type 0} where
  -- A path's blocks `p` leave the tree's and come back changed.
  settle :
      (r a p s st front path t t' : List A)
      → Perm (r ++ st) (a ++ (s ++ p))
      → Perm (front ++ path) st
      → Perm (p ++ t') (path ++ t)
      → Perm (r ++ (front ++ t')) (a ++ (s ++ t))
  settle r a p s st front path t t' changed split written =
      let out =
        Perm.trans (perm_past p r (front ++ t')) (
          Perm.append_left r
            (Perm.trans (perm_past p front t') (Perm.append_left front written))) in
      let middle : Perm (r ++ (front ++ (path ++ t))) ((a ++ (s ++ p)) ++ t) =
        rw (← List.append_assoc front path t) (
          Perm.trans (Perm.append_left r (Perm.append_right t split))
            (rw (← List.append_assoc r st t) (Perm.append_right t changed))) in
      let back : Perm ((a ++ (s ++ p)) ++ t) (p ++ (a ++ (s ++ t))) =
        rw (List.append_assoc a (s ++ p) t, List.append_assoc s p t)
          (Perm.trans (Perm.append_left a (perm_past s p t)) (perm_past a p (s ++ t))) in
      (perm-append_left_iff p).0 (Perm.trans out (Perm.trans middle back))

module _ {V : Type 0} ⦃m : Cmov (Block V)⦄ ⦃z : Zeroable V⦄ where
  -- An eviction and a write back, when the stash holds the blocks of the memory's own stash and
  -- of the path up to a change.
  pub evict_and_write_back-Rewritten :
      (self : CircuitOram V) (pos : ℕ) (old : List (Bucket V))
      (stash removed added : List (Block V))
      → IsCircuitOram self
      → pos < self.max_n
      → ReadPath self.tree pos 0 self.tree.height old
      → OnStash self.h pos stash
      → Perm
          (removed ++ filled stash)
          (added ++ (filled (take stash_size self.stash) ++ filled (concat old)))
      → Returns
          (λ out. Evolved self removed added out × Rewritten self pos out)
          (evict_once_fast (with_stash self stash) pos >>= λ s. write_back_path s pos)
  evict_and_write_back-Rewritten self pos old stash removed added t h r on p =
      Returns-bind
        (evict_once_fast-EvictedOnce (with_stash self stash) pos t.low (omega (arith, t.high)) on)
        λ out e. rw e.result (
          Returns-imp (write_back_path-WritePath self pos t h old e.stash r e.on_stash)
            λ out' (tree, w, same). rw same (
              (
                record {
                  state = record {
                    tree = w.tree;
                    height = w.height ∙ t.height;
                    low = t.low;
                    high = t.high;
                    leaves = t.leaves;
                    stash = e.on_stash.size;
                    counter = t.counter;
                  };
                  max_n = refl;
                  h = refl;
                  blocks =
                      let path = drop stash_size e.stash in
                      let size : length path ≡ self.h * bucket_size =
                        length-drop stash_size e.stash ∙ omega (arith, e.on_stash.size) in
                      let written = rw (concat-chunks self.h path size) at w.blocks in
                      settle removed added (filled (concat old))
                        (filled (take stash_size self.stash)) (filled stash)
                        (filled (take stash_size e.stash)) (filled path)
                        (filled (concat self.tree.tree)) (filled (concat tree.tree)) p
                        (rw (← front-filled e.stash stash_size) e.blocks) written;
                },
                record { on_path = w.on_path; frame = λ d p other. w.frame d p (λ k le. other k) },
              )))

  pub evict_and_write_back-Evolved :
      (self : CircuitOram V) (pos : ℕ) (old : List (Bucket V))
      (stash removed added : List (Block V))
      → IsCircuitOram self
      → pos < self.max_n
      → ReadPath self.tree pos 0 self.tree.height old
      → OnStash self.h pos stash
      → Perm
          (removed ++ filled stash)
          (added ++ (filled (take stash_size self.stash) ++ filled (concat old)))
      → Returns
          (Evolved self removed added)
          (evict_once_fast (with_stash self stash) pos >>= λ s. write_back_path s pos)
  evict_and_write_back-Evolved self pos old stash removed added t h r on p =
      Returns-imp (evict_and_write_back-Rewritten self pos old stash removed added t h r on p)
        (λ out e. e.0)

  -- A path is read, evicted and written back.
  pub evict_path-Rewritten :
      (self : CircuitOram V) (pos : ℕ)
      → IsCircuitOram self
      → pos < self.max_n
      → Returns
          (λ out. Evolved self [] [] out × Rewritten self pos out)
          (read_path_and_get_nodes self pos >>= λ s.
            evict_once_fast s pos >>= λ s. write_back_path s pos)
  evict_path-Rewritten self pos t h =
      Returns-bind (read_path_and_get_nodes-ReadNodes self pos t h) λ out n. rw n.result (
        evict_and_write_back-Rewritten self pos n.old (take stash_size self.stash ++ concat n.old)
          [] [] t h n.path (ReadPath-OnStash self pos t h n.old n.path)
          (rw (filled-append (take stash_size self.stash) (concat n.old)) Perm.rfl))

  -- An eviction keeps the blocks of the memory.
  pub perform_eviction-Evolved :
      (self : CircuitOram V) (pos : ℕ)
      → IsCircuitOram self
      → pos < self.max_n
      → Returns (Evolved self [] []) (perform_eviction self pos)
  unfolding perform_eviction
  perform_eviction-Evolved self pos t h =
      rw (lt→ltb pos self.max_n h) (Returns-imp (evict_path-Rewritten self pos t h) (λ out e. e.0))

  pub eviction_round-Evolved :
      (self : CircuitOram V)
      → IsCircuitOram self
      → Returns (Evolved self [] []) (eviction_round self)
  unfolding eviction_round
  eviction_round-Evolved self t =
      Returns-bind (perform_eviction-Evolved self self.evict_counter t t.counter) λ out e.
        let small : out.max_n < 2 ^ 32 = omega (
          arith,
          e.state.leaves,
          pow-le-pow_right {n = 2} (omega arith) {i = out.h - 1} {j = 31}
              (omega (arith, e.state.high)),
        ) in
        let positive : 0 < out.max_n = omega (arith, e.state.counter) in
        let bits = mod-eq_of_lt small in
        rw
          (
            lt→ltb (out.evict_counter + 1) (2 ^ 32) (omega (arith, small, e.state.counter)),
            bits,
            checked_rem_lem (out.evict_counter + 1) out.max_n positive,
          )
          (returns (record {
            state = record {
              tree = e.state.tree;
              height = e.state.height;
              low = e.state.low;
              high = e.state.high;
              leaves = e.state.leaves;
              stash = e.state.stash;
              counter = mod-lt (out.evict_counter + 1) positive;
            };
            max_n = e.max_n;
            h = e.h;
            blocks = e.blocks;
          }))
