-- ===== src/Text/Trim.antt =====
-- Laws of trimming: the result of a trim is a fixed point of it.
use knode.Prelude.{ℕ, ◌≡◌, refl, ap, ◌∙◌, inl, inr, Bool, false, [], ◌∷◌, arith, Bool-cases}
use knode.Text.{Str, is_space, trim_left, trim_right, trim_space}

module _ (p : ℕ → Bool) where
  pub trim_right_idem : (s : Str) → trim_right p (trim_right p s) ≡ trim_right p s
  unfolding trim_right
  trim_right_idem [] = refl
  trim_right_idem (c ∷ s) = ground (arith, trim_right_idem s)

  pub trim_left_idem : (s : Str) → trim_left p (trim_left p s) ≡ trim_left p s
  unfolding trim_left
  trim_left_idem [] = refl
  trim_left_idem (c ∷ s) = ground (arith, trim_left_idem s)

  -- A string that starts with a character outside the set, or is empty.
  abbrev pub StartsOutside : Str → Type 0
  StartsOutside [] = Unit
  StartsOutside (c ∷ s) = p c ≡ false

  trim_left-StartsOutside : (s : Str) → StartsOutside (trim_left p s)
  unfolding trim_left
  trim_left-StartsOutside [] = tt
  trim_left-StartsOutside (c ∷ s) = elim (Bool-cases (p c)) [
    | inl e ↦ rw e (trim_left-StartsOutside s)
    | inr e ↦ rw e e
  ]

  pub trim_right-StartsOutside : (s : Str) → StartsOutside s → StartsOutside (trim_right p s)
  unfolding trim_right
  trim_right-StartsOutside [] h = tt
  trim_right-StartsOutside (c ∷ s) h = rw h h

  pub trim_left_of_StartsOutside : (s : Str) → StartsOutside s → trim_left p s ≡ s
  unfolding trim_left
  trim_left_of_StartsOutside [] h = refl
  trim_left_of_StartsOutside (c ∷ s) h = rw h

-- `strings.TrimSpace` is idempotent.
pub trim_space_idem : (s : Str) → trim_space (trim_space s) ≡ trim_space s
unfolding trim_space
trim_space_idem s =
    let t = trim_left is_space s in
    let starts = trim_right-StartsOutside is_space t (trim_left-StartsOutside is_space s) in
    ap (trim_right is_space) (trim_left_of_StartsOutside is_space (trim_right is_space t) starts)
    ∙ trim_right_idem is_space t
