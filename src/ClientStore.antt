-- ===== src/ClientStore.antt =====
-- internal/node/client_store.go: the client secrets and user ids of a node, static ones from the
-- configuration and dynamic ones from Kboard. The lock makes every method one step; the copies of
-- byte slices keep callers from sharing them, and are values here.
pub mod Maps
pub mod Calls
pub mod Contract
pub mod Refinement
pub mod Invariant
pub mod Order
pub mod Derive
use mathlib.Core.Option
use knode.Prelude.{
  ℕ, ◌+◌, Bool, ◌||◌, Option, none, some, List, [], ◌∷◌, if◌then◌else◌, ℤ, pos, is_positive,
  is_empty,
}
use knode.Text.{Str, str_eq, trim_space}
use knode.Dict.{Dict, lookup, insert, merge, size}

abbrev pub Bytes : Type 0
Bytes = List ℕ

pub record ClientCredential : Type 0 where
  pub client_id : Str
  pub secret : Bytes
  pub user_id : ℤ

pub record DynamicClientStore : Type 0 where
  pub static_secrets : Dict Bytes
  pub static_users : Dict ℤ
  pub dynamic_secrets : Dict Bytes
  pub dynamic_users : Dict ℤ

abbrev pub new_store : DynamicClientStore
new_store = record {
  static_secrets = [];
  static_users = [];
  dynamic_secrets = [];
  dynamic_users = [];
}

-- `LookupClientSecret`.
unfoldable pub lookup_client_secret : DynamicClientStore → Str → Option Bytes
lookup_client_secret s client_id = elim (lookup client_id s.dynamic_secrets) [
  | none ↦ lookup client_id s.static_secrets
  | some secret ↦ some secret
]

-- `UserID`: a missing key reads as 0.
unfoldable pub user_id : DynamicClientStore → Str → ℤ
user_id s client_id =
    let dynamic = Option.get_or (lookup client_id s.dynamic_users) (pos 0) in
    if is_positive dynamic then dynamic else Option.get_or (lookup client_id s.static_users) (pos 0)

unfoldable pub snapshot_size : DynamicClientStore → ℕ
snapshot_size s = size s.static_secrets + size s.dynamic_secrets

-- An entry that `credentialMaps` skips.
unfoldable pub is_skipped : ClientCredential → Bool
is_skipped entry = str_eq (trim_space entry.client_id) [] || is_empty entry.secret

-- The loop of `credentialMaps`.
unfoldable pub credential_maps_from :
    Dict Bytes → Dict ℤ → List ClientCredential → Dict Bytes × Dict ℤ
credential_maps_from secrets users [] = (secrets, users)
credential_maps_from secrets users (entry ∷ entries) =
    let client_id = trim_space entry.client_id in
    let next =
      credential_maps_from (insert client_id entry.secret secrets)
        (insert client_id entry.user_id users) entries in
    let skip = credential_maps_from secrets users entries in if is_skipped entry then skip else next

unfoldable pub credential_maps : List ClientCredential → Dict Bytes × Dict ℤ
credential_maps entries = credential_maps_from [] [] entries

unfoldable pub set_static : DynamicClientStore → List ClientCredential → DynamicClientStore
set_static s entries = record s {
  static_secrets = (credential_maps entries).0;
  static_users = (credential_maps entries).1;
}

unfoldable pub add_static : DynamicClientStore → List ClientCredential → DynamicClientStore
add_static s entries = record s {
  static_secrets = merge (credential_maps entries).0 s.static_secrets;
  static_users = merge (credential_maps entries).1 s.static_users;
}

unfoldable pub replace_dynamic : DynamicClientStore → List ClientCredential → DynamicClientStore
replace_dynamic s entries = record s {
  dynamic_secrets = (credential_maps entries).0;
  dynamic_users = (credential_maps entries).1;
}
