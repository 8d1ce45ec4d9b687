-- ===== src/Dict.antt =====
-- Go's `map[string]V` as an association list in which no key stands twice.
pub mod Lookup
pub mod Distinct
use knode.Prelude.{ℕ, Option, none, some, List, [], ◌∷◌, length, if◌then◌else◌}
use knode.Text.{Str, str_eq}

abbrev pub Dict {ℓ} : Type ℓ → Type ℓ
Dict V = List (Str × V)

module _ {ℓ} {V : Type ℓ} where
  -- `v, ok := m[k]`.
  unfoldable pub lookup : Str → Dict V → Option V
  lookup k [] = none
  lookup k ((j, v) ∷ m) = if str_eq j k then some v else lookup k m

  -- `m[k] = v`.
  unfoldable pub insert : Str → V → Dict V → Dict V
  insert k v [] = (k, v) ∷ []
  insert k v ((j, w) ∷ m) = if str_eq j k then (k, v) ∷ m else (j, w) ∷ insert k v m

  -- `for k, v := range from { into[k] = v }`, in one of the orders that Go may choose.
  unfoldable pub merge : Dict V → Dict V → Dict V
  merge [] into = into
  merge ((k, v) ∷ from) into = merge from (insert k v into)

  -- `len(m)`.
  abbrev pub size : Dict V → ℕ
  size = length
