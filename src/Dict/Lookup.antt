-- ===== src/Dict/Lookup.antt =====
-- What can be read from a map after a write, and after a merge.
use knode.Prelude.{◌≡◌, refl, ◌≢◌, Option, none, some, [], ◌∷◌, arith, if◌then◌else◌}
use knode.Text.{Str, str_eq}
use knode.Text.Equality.{str_eq_iff}
use knode.Dict.{Dict, lookup, insert, merge}

-- `a` if there is one, else `b`.
abbrev pub or_else {ℓ} : {V : Type ℓ} → Option V → Option V → Option V
or_else (some v) b = some v
or_else none b = b

module _ {ℓ} {V : Type ℓ} where
  pub lookup-insert :
      (k j : Str) (v : V) (m : Dict V)
      → lookup j (insert k v m) ≡ (if str_eq k j then some v else lookup j m)
  unfolding lookup insert
  lookup-insert k j v [] = refl
  lookup-insert k j v ((i, w) ∷ m) =
      ground (arith, str_eq_iff k j, str_eq_iff i k, str_eq_iff i j, lookup-insert k j v m)

  -- The key is in no entry.
  abbrev pub Absent : Str → Dict V → Type 0
  Absent k [] = Unit
  Absent k ((j, v) ∷ m) = (j ≢ k) × Absent k m

  abbrev pub Distinct : Dict V → Type 0
  Distinct [] = Unit
  Distinct ((k, v) ∷ m) = Absent k m × Distinct m

  pub lookup_of_Absent : (k : Str) (m : Dict V) → Absent k m → lookup k m ≡ none
  unfolding lookup
  lookup_of_Absent k [] h = refl
  lookup_of_Absent k ((j, v) ∷ m) h = ground (arith, str_eq_iff j k, lookup_of_Absent k m)

  -- A merge gives precedence to the entries that are merged in, and their order is irrelevant.
  pub lookup-merge :
      (j : Str) (from into : Dict V)
      → Distinct from
      → lookup j (merge from into) ≡ or_else (lookup j from) (lookup j into)
  unfolding merge lookup
  lookup-merge j [] into d = refl
  lookup-merge j ((k, v) ∷ from) into d = ground (
    arith,
    lookup-merge j from (insert k v into),
    lookup-insert k j v into,
    lookup_of_Absent k from,
    str_eq_iff k j,
  )
