-- ===== src/ClientStore/Maps.antt =====
-- internal/node/client_store.go: what the maps built by `credentialMaps` hold. The specification is
-- the list of entries itself, read from its end.
use knode.Prelude.{
  ◌≡◌, refl, ◌≢◌, Bool, false, Option, none, some, All, List, [], ◌∷◌, arith, if◌then◌else◌, inl,
  inr, Bool-cases, ◌&&◌, not, ℤ,
}
use knode.Text.{Str, str_eq, trim_space}
use knode.Text.Equality.{str_eq_iff}
use knode.Dict.{Dict, lookup, insert}
use knode.Dict.Lookup.{lookup-insert, or_else, Distinct}
use knode.Dict.Distinct.{insert-Distinct, Entries, insert-Entries}
use knode.ClientStore.{Bytes, ClientCredential, is_skipped, credential_maps_from, credential_maps}

-- The entry is usable and belongs to the client.
unfoldable pub names_client : Str → ClientCredential → Bool
names_client k entry = not (is_skipped entry) && str_eq (trim_space entry.client_id) k

-- The last entry of the list that is usable and belongs to the client.
unfoldable pub last_entry : Str → List ClientCredential → Option ClientCredential
last_entry k [] = none
last_entry k (entry ∷ entries) =
    or_else (last_entry k entries) (if names_client k entry then some entry else none)

abbrev pub secret_of : Option ClientCredential → Option Bytes
secret_of none = none
secret_of (some e) = some e.secret

abbrev pub user_of : Option ClientCredential → Option ℤ
user_of none = none
user_of (some e) = some e.user_id

credential_maps_from-lookup :
    (k : Str) (secrets : Dict Bytes) (users : Dict ℤ) (entries : List ClientCredential)
    → (lookup k (credential_maps_from secrets users entries).0
        ≡ or_else (secret_of (last_entry k entries)) (lookup k secrets))
      × (lookup k (credential_maps_from secrets users entries).1
          ≡ or_else (user_of (last_entry k entries)) (lookup k users))
unfolding credential_maps_from last_entry names_client
credential_maps_from-lookup k secrets users [] = (refl, refl)
credential_maps_from-lookup k secrets users (e ∷ es) =
    let id = trim_space e.client_id in
    ground (
      arith,
      credential_maps_from-lookup k secrets users es,
      credential_maps_from-lookup k (insert id e.secret secrets) (insert id e.user_id users) es,
      lookup-insert id k e.secret secrets,
      lookup-insert id k e.user_id users,
    )

-- Of several usable entries for a client the last one counts, in both maps alike.
pub lookup-credential_maps :
    (k : Str) (entries : List ClientCredential)
    → (lookup k (credential_maps entries).0 ≡ secret_of (last_entry k entries))
      × (lookup k (credential_maps entries).1 ≡ user_of (last_entry k entries))
unfolding credential_maps lookup
lookup-credential_maps k entries = ground (arith, credential_maps_from-lookup k [] [] entries)

credential_maps_from-Distinct :
    (secrets : Dict Bytes) (users : Dict ℤ) (entries : List ClientCredential)
    → Distinct secrets
    → Distinct users
    → Distinct (credential_maps_from secrets users entries).0
      × Distinct (credential_maps_from secrets users entries).1
unfolding credential_maps_from
credential_maps_from-Distinct secrets users [] d e = (d, e)
credential_maps_from-Distinct secrets users (c ∷ cs) d e = elim (Bool-cases (is_skipped c)) [
  | inl skip ↦ rw skip (credential_maps_from-Distinct secrets users cs d e)
  | inr keep ↦
      let id = trim_space c.client_id in
      rw keep (
        credential_maps_from-Distinct (insert id c.secret secrets) (insert id c.user_id users) cs
          (insert-Distinct id c.secret secrets d) (insert-Distinct id c.user_id users e))
]

pub credential_maps-Distinct :
    (entries : List ClientCredential)
    → Distinct (credential_maps entries).0 × Distinct (credential_maps entries).1
unfolding credential_maps
credential_maps-Distinct entries = credential_maps_from-Distinct [] [] entries tt tt

-- A client that can be looked up: its id is trimmed and not empty, and neither is its secret.
abbrev pub IsUsable : Str → Bytes → Type 0
IsUsable k secret = (k ≢ []) × (secret ≢ [])

is_skipped-IsUsable :
    (c : ClientCredential) → is_skipped c ≡ false → IsUsable (trim_space c.client_id) c.secret
unfolding is_skipped
is_skipped-IsUsable c keep = ground (arith, str_eq_iff (trim_space c.client_id) [])

credential_maps_from-Entries :
    (secrets : Dict Bytes) (users : Dict ℤ) (entries : List ClientCredential)
    → Entries IsUsable secrets
    → Entries IsUsable (credential_maps_from secrets users entries).0
unfolding credential_maps_from
credential_maps_from-Entries secrets users [] h = h
credential_maps_from-Entries secrets users (c ∷ cs) h = elim (Bool-cases (is_skipped c)) [
  | inl skip ↦ rw skip (credential_maps_from-Entries secrets users cs h)
  | inr keep ↦
      let id = trim_space c.client_id in
      rw keep (
        credential_maps_from-Entries (insert id c.secret secrets) (insert id c.user_id users) cs
          (insert-Entries IsUsable id c.secret secrets (is_skipped-IsUsable c keep) h))
]

pub credential_maps-Entries :
    (entries : List ClientCredential) → Entries IsUsable (credential_maps entries).0
unfolding credential_maps
credential_maps-Entries entries = credential_maps_from-Entries [] [] entries tt

credential_maps_from-secrets :
    (P : Bytes → Type 0) (secrets : Dict Bytes) (users : Dict ℤ) (entries : List ClientCredential)
    → All (λ c. P c.secret) entries
    → Entries (λ k secret. P secret) secrets
    → Entries (λ k secret. P secret) (credential_maps_from secrets users entries).0
unfolding credential_maps_from
credential_maps_from-secrets P secrets users [] all h = h
credential_maps_from-secrets P secrets users (c ∷ cs) (p, all) h =
    elim (Bool-cases (is_skipped c)) [
      | inl skip ↦ rw skip (credential_maps_from-secrets P secrets users cs all h)
      | inr keep ↦
          let id = trim_space c.client_id in
          rw keep (
            credential_maps_from-secrets P (insert id c.secret secrets) (insert id c.user_id users)
              cs all (insert-Entries (λ k secret. P secret) id c.secret secrets p h))
    ]

-- What holds of the secrets of a list holds of those in the map made of it.
pub credential_maps-secrets :
    (P : Bytes → Type 0) (entries : List ClientCredential)
    → All (λ c. P c.secret) entries
    → Entries (λ k secret. P secret) (credential_maps entries).0
unfolding credential_maps
credential_maps-secrets P entries all = credential_maps_from-secrets P [] [] entries all tt
