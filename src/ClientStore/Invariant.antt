-- ===== src/ClientStore/Invariant.antt =====
-- internal/node/client_store.go: the invariant of the store's maps.
use knode.Prelude.{Option-cases, inl, inr, ◌∙◌, ◌≡◌, some, List, [], ◌∷◌}
use knode.Text.{Str}
use knode.Dict.{lookup}
use knode.Dict.Lookup.{Distinct}
use knode.Dict.Distinct.{merge-Distinct, Entries, merge-Entries, lookup-Entries}
use knode.ClientStore.{
  Bytes, DynamicClientStore, new_store, lookup_client_secret, set_static, add_static,
  replace_dynamic, credential_maps,
}
use knode.ClientStore.Maps.{credential_maps-Distinct, credential_maps-Entries, IsUsable}
use knode.ClientStore.Calls.{Call, sets, adds, replaces, step, run}

-- No key stands twice in a map, and no client has an empty id or an empty secret.
pub record IsValid (s : DynamicClientStore) : Type 0 where
  pub static_distinct : Distinct s.static_secrets
  pub static_users_distinct : Distinct s.static_users
  pub dynamic_distinct : Distinct s.dynamic_secrets
  pub dynamic_users_distinct : Distinct s.dynamic_users
  pub static_usable : Entries IsUsable s.static_secrets
  pub dynamic_usable : Entries IsUsable s.dynamic_secrets

step-IsValid : {s : DynamicClientStore} (c : Call) → IsValid s → IsValid (step s c)
unfolding step set_static add_static replace_dynamic
step-IsValid (sets es) v = record {
  static_distinct = (credential_maps-Distinct es).0;
  static_users_distinct = (credential_maps-Distinct es).1;
  dynamic_distinct = v.dynamic_distinct;
  dynamic_users_distinct = v.dynamic_users_distinct;
  static_usable = credential_maps-Entries es;
  dynamic_usable = v.dynamic_usable;
}
step-IsValid {s} (adds es) v = record {
  static_distinct = merge-Distinct (credential_maps es).0 s.static_secrets v.static_distinct;
  static_users_distinct =
      merge-Distinct (credential_maps es).1 s.static_users v.static_users_distinct;
  dynamic_distinct = v.dynamic_distinct;
  dynamic_users_distinct = v.dynamic_users_distinct;
  static_usable =
      merge-Entries IsUsable (credential_maps es).0 s.static_secrets (credential_maps-Entries es)
        v.static_usable;
  dynamic_usable = v.dynamic_usable;
}
step-IsValid (replaces es) v = record {
  static_distinct = v.static_distinct;
  static_users_distinct = v.static_users_distinct;
  dynamic_distinct = (credential_maps-Distinct es).0;
  dynamic_users_distinct = (credential_maps-Distinct es).1;
  static_usable = v.static_usable;
  dynamic_usable = credential_maps-Entries es;
}

-- SetStatic, AddStatic and ReplaceDynamic keep a store valid, in any sequence: no client stands
-- twice in one of its maps, no secret is empty and no client id is empty.
pub run-IsValid : (s : DynamicClientStore) (cs : List Call) → IsValid s → IsValid (run s cs)
unfolding run
run-IsValid s [] v = v
run-IsValid s (c ∷ cs) v = run-IsValid (step s c) cs (step-IsValid c v)

-- A lookup in a valid store never yields an empty secret, and never one for the empty client id.
lookup_client_secret-IsUsable :
    (s : DynamicClientStore) (k : Str) {secret : Bytes}
    → IsValid s
    → lookup_client_secret s k ≡ some secret
    → IsUsable k secret
unfolding lookup_client_secret
lookup_client_secret-IsUsable s k {secret} v e = elim (Option-cases (lookup k s.dynamic_secrets)) [
  | inl missing ↦
      lookup-Entries IsUsable k s.static_secrets v.static_usable
        (rw (missing, lookup_client_secret) at e)
  | inr (found, hit) ↦
      lookup-Entries IsUsable k s.dynamic_secrets v.dynamic_usable
        (hit ∙ (rw (hit, lookup_client_secret) at e))
]

pub new_store-IsValid : IsValid new_store
new_store-IsValid = record {
  static_distinct = tt;
  static_users_distinct = tt;
  dynamic_distinct = tt;
  dynamic_users_distinct = tt;
  static_usable = tt;
  dynamic_usable = tt;
}

-- After any sequence of SetStatic, AddStatic and ReplaceDynamic calls on a new store, with any
-- credentials, a lookup that finds a secret was for a client id that is not empty, and the secret is
-- not empty.
pub lookup_client_secret-run-IsUsable :
    (cs : List Call) (k : Str) {secret : Bytes}
    → lookup_client_secret (run new_store cs) k ≡ some secret
    → IsUsable k secret
lookup_client_secret-run-IsUsable cs k {secret} e =
    lookup_client_secret-IsUsable (run new_store cs) k {secret = secret}
      (run-IsValid new_store cs new_store-IsValid) e
