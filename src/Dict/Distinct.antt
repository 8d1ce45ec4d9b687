-- ===== src/Dict/Distinct.antt =====
-- Writes keep the keys distinct; a property of the entries is kept by writes that have it.
use knode.Prelude.{◌≡◌, ◌≢◌, some, [], ◌∷◌, inl, inr, All}
use mathlib.Core.Option.{some-injective}
use mathlib.Core.Path.{subst₂}
use knode.Text.{Str}
use knode.Text.Equality.{str_eq_cases}
use knode.Dict.{Dict, lookup, insert, merge}
use knode.Dict.Lookup.{Absent, Distinct}

module _ {ℓ} {V : Type ℓ} where
  insert-Absent : (j k : Str) (v : V) (m : Dict V) → k ≢ j → Absent j m → Absent j (insert k v m)
  unfolding insert
  insert-Absent j k v [] n h = (n, tt)
  insert-Absent j k v ((i, w) ∷ m) n (p, h) = elim (str_eq_cases i k) [
    | inl (e, _) ↦ rw e (n, h)
    | inr (e, _) ↦ rw e (p, insert-Absent j k v m n h)
  ]

  pub insert-Distinct : (k : Str) (v : V) (m : Dict V) → Distinct m → Distinct (insert k v m)
  unfolding insert
  insert-Distinct k v [] d = (tt, tt)
  insert-Distinct k v ((i, w) ∷ m) (a, d) = elim (str_eq_cases i k) [
    | inl (e, p) ↦ rw e (rw p at a, d)
    | inr (e, p) ↦ rw e (insert-Absent i k v m (λ q. p (rw q)) a, insert-Distinct k v m d)
  ]

  pub merge-Distinct : (from into : Dict V) → Distinct into → Distinct (merge from into)
  unfolding merge
  merge-Distinct [] into d = d
  merge-Distinct ((k, v) ∷ from) into d =
      merge-Distinct from (insert k v into) (insert-Distinct k v into d)

  module _ {κ} (P : Str → V → Type κ) where
    abbrev pub Entries : Dict V → Type κ
    Entries = All (λ e. P e.0 e.1)

    pub insert-Entries : (k : Str) (v : V) (m : Dict V) → P k v → Entries m → Entries (insert k v m)
    unfolding insert
    insert-Entries k v [] p h = (p, tt)
    insert-Entries k v ((i, w) ∷ m) p (q, h) = elim (str_eq_cases i k) [
      | inl (e, _) ↦ rw e (p, h)
      | inr (e, _) ↦ rw e (q, insert-Entries k v m p h)
    ]

    pub merge-Entries :
        (from into : Dict V) → Entries from → Entries into → Entries (merge from into)
    unfolding merge
    merge-Entries [] into h k = k
    merge-Entries ((i, v) ∷ from) into (p, h) k =
        merge-Entries from (insert i v into) h (insert-Entries i v into p k)

    pub lookup-Entries : (k : Str) (m : Dict V) {v : V} → Entries m → lookup k m ≡ some v → P k v
    unfolding lookup
    lookup-Entries k [] h e = cc
    lookup-Entries k ((i, w) ∷ m) {v} (p, h) e = elim (str_eq_cases i k) [
      | inl (t, q) ↦ subst₂ P q (some-injective w v (rw t at e)) p
      | inr (t, q) ↦ lookup-Entries k m h (rw t at e)
    ]
