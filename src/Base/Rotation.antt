-- ===== src/Base/Rotation.antt =====
-- A list rotated left: its tail, then its head.
use native.Mathlib.Decide.{dec_lt}
use rostl.Base.{
  ℕ, ◌+◌, ◌-◌, ◌≤◌, ◌<◌, ◌≡◌, ap, ◌∙◌, List, [], ◌∷◌, zero, suc, refl, ◌++◌, arith, if◌then◌else◌,
  ltb, length, get_elem?, take, drop, length-append, length-take, length-drop, get_elem?-append,
  get_elem?-take, get_elem?-drop, lt→ltb, le→ltb,
}

pub length-rotation :
    {A : Type 0} (arr : List A) (r : ℕ)
    → r ≤ length arr
    → length (drop r arr ++ take r arr) ≡ length arr
length-rotation arr r h =
    omega (arith, length-append (drop r arr) (take r arr), length-drop r arr, length-take r arr h)

pub get_elem?-rotation :
    {A : Type 0} (arr : List A) (r i : ℕ)
    → r ≤ length arr
    → i < length arr
    → get_elem? (drop r arr ++ take r arr) i
      ≡ get_elem? arr (if ltb (i + r) (length arr) then i + r else i + r - length arr)
get_elem?-rotation arr r i b hi =
    let front = length-drop r arr in
    get_elem?-append (drop r arr) (take r arr) i ∙ elim (dec_lt i (length arr - r)) [
      | yes h ↦
          rw (front, lt→ltb i (length arr - r) h)
            (get_elem?-drop r arr i ∙ ap (get_elem? arr) (ground arith))
      | no h ↦
          rw (front, le→ltb i (length arr - r) (omega arith))
            (get_elem?-take r arr (i - (length arr - r)) (omega arith)
              ∙ ap (get_elem? arr) (ground arith))
    ]

-- A list of at most one entry is its own rotation.
pub short_rotation :
    {A : Type 0} (arr : List A) (r : ℕ)
    → length arr ≤ 1
    → r ≤ length arr
    → arr ≡ drop r arr ++ take r arr
short_rotation [] zero h b = refl
short_rotation [] (suc r) h b = absurd (omega arith)
short_rotation (x ∷ []) zero h b = refl
short_rotation (x ∷ []) (suc zero) h b = refl
short_rotation (x ∷ []) (suc (suc r)) h b = absurd (omega arith)
short_rotation (x ∷ y ∷ arr) r h b = absurd (omega arith)
