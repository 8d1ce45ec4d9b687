-- ===== src/Text/Lower.antt =====
-- Laws of lowering, from two properties of the Unicode table.
use knode.Prelude.{ℕ, ◌≡◌, ◌≤◌, refl, [], ◌∷◌, arith}
use knode.Text.{Str, Unicode, is_space, trim_left, trim_right, trim_space, lower_rune, to_lower}

-- A lower case character is its own lower case, and no letter becomes a space.
pub record UnicodeLaws (u : Unicode) : Type 0 where
  pub lower_idem : (c : ℕ) → 128 ≤ c → lower_rune u (u.to_lower c) ≡ u.to_lower c
  pub lower_space : (c : ℕ) → 128 ≤ c → is_space (u.to_lower c) ≡ is_space c

module _ {u : Unicode} (laws : UnicodeLaws u) where
  lower_rune_idem : (c : ℕ) → lower_rune u (lower_rune u c) ≡ lower_rune u c
  unfolding lower_rune
  lower_rune_idem c = ground (arith, laws.lower_idem c)

  is_space-lower_rune : (c : ℕ) → is_space (lower_rune u c) ≡ is_space c
  unfolding lower_rune is_space
  is_space-lower_rune c = ground (arith, laws.lower_space c)

  pub to_lower_idem : (s : Str) → to_lower u (to_lower u s) ≡ to_lower u s
  unfolding to_lower
  to_lower_idem [] = refl
  to_lower_idem (c ∷ s) = ground (arith, to_lower_idem s, lower_rune_idem c)

  trim_left-to_lower :
      (s : Str) → trim_left is_space (to_lower u s) ≡ to_lower u (trim_left is_space s)
  unfolding to_lower trim_left
  trim_left-to_lower [] = refl
  trim_left-to_lower (c ∷ s) = ground (arith, trim_left-to_lower s, is_space-lower_rune c)

  trim_right-to_lower :
      (s : Str) → trim_right is_space (to_lower u s) ≡ to_lower u (trim_right is_space s)
  unfolding to_lower trim_right
  trim_right-to_lower [] = refl
  trim_right-to_lower (c ∷ s) = ground (arith, trim_right-to_lower s, is_space-lower_rune c)

  pub trim_space-to_lower : (s : Str) → trim_space (to_lower u s) ≡ to_lower u (trim_space s)
  unfolding trim_space
  trim_space-to_lower s = rw (trim_left-to_lower s) (trim_right-to_lower (trim_left is_space s))
