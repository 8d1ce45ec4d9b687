-- ===== src/ClientStore/Refinement.antt =====
-- internal/node/client_store.go: the store against its abstract view, which keeps the entries that
-- were handed to it and reads them from the end.
use mathlib.Core.Path.{subst}
use knode.Prelude.{◌≡◌, refl, List, [], ◌∷◌, ◌++◌, arith}
use knode.Text.{Str}
use knode.Dict.{lookup}
use knode.Dict.Lookup.{lookup-merge, or_else}
use knode.ClientStore.{
  ClientCredential, DynamicClientStore, new_store, lookup_client_secret, user_id, set_static,
  add_static, replace_dynamic, credential_maps,
}
use knode.ClientStore.Maps.{
  last_entry, secret_of, user_of, lookup-credential_maps, credential_maps-Distinct,
}
use knode.ClientStore.Contract.{
  Entered, enter, enter_all, no_entries, entered_secret, entered_user_id, StoreContract, write_all,
  write_all-answers,
}
use knode.ClientStore.Calls.{Call, sets, adds, replaces, step, run}

-- The maps answer as the lists do.
pub record Represents (s : DynamicClientStore) (e : Entered) : Type 0 where
  pub static_secrets : (k : Str) → lookup k s.static_secrets ≡ secret_of (last_entry k e.static)
  pub static_users : (k : Str) → lookup k s.static_users ≡ user_of (last_entry k e.static)
  pub dynamic_secrets : (k : Str) → lookup k s.dynamic_secrets ≡ secret_of (last_entry k e.dynamic)
  pub dynamic_users : (k : Str) → lookup k s.dynamic_users ≡ user_of (last_entry k e.dynamic)

last_entry-append :
    (k : Str) (es fs : List ClientCredential)
    → last_entry k (es ++ fs) ≡ or_else (last_entry k fs) (last_entry k es)
unfolding last_entry
last_entry-append k [] fs = ground arith
last_entry-append k (e ∷ es) fs = ground (arith, last_entry-append k es fs)

pub step-Represents :
    {s : DynamicClientStore} {e : Entered} (c : Call)
    → Represents s e
    → Represents (step s c) (enter e c)
unfolding step enter set_static add_static replace_dynamic
step-Represents (sets es) r = record {
  static_secrets = λ k. (lookup-credential_maps k es).0;
  static_users = λ k. (lookup-credential_maps k es).1;
  dynamic_secrets = r.dynamic_secrets;
  dynamic_users = r.dynamic_users;
}
step-Represents {s} {e} (adds es) r = record {
  static_secrets = λ k. ground (
    arith,
    lookup-merge k (credential_maps es).0 s.static_secrets,
    credential_maps-Distinct es,
    lookup-credential_maps k es,
    last_entry-append k e.static es,
    r.static_secrets k,
  );
  static_users = λ k. ground (
    arith,
    lookup-merge k (credential_maps es).1 s.static_users,
    credential_maps-Distinct es,
    lookup-credential_maps k es,
    last_entry-append k e.static es,
    r.static_users k,
  );
  dynamic_secrets = r.dynamic_secrets;
  dynamic_users = r.dynamic_users;
}
step-Represents (replaces es) r = record {
  static_secrets = r.static_secrets;
  static_users = r.static_users;
  dynamic_secrets = λ k. (lookup-credential_maps k es).0;
  dynamic_users = λ k. (lookup-credential_maps k es).1;
}

pub new_store-Represents : Represents new_store no_entries
unfolding lookup last_entry
new_store-Represents = record {
  static_secrets = λ k. refl;
  static_users = λ k. refl;
  dynamic_secrets = λ k. refl;
  dynamic_users = λ k. refl;
}

pub Represents-lookup :
    {s : DynamicClientStore} {e : Entered} (k : Str)
    → Represents s e
    → lookup_client_secret s k ≡ entered_secret e k
unfolding lookup_client_secret
Represents-lookup k r = ground (arith, r.static_secrets k, r.dynamic_secrets k)

pub Represents-user_id :
    {s : DynamicClientStore} {e : Entered} (k : Str)
    → Represents s e
    → user_id s k ≡ entered_user_id e k
unfolding user_id entered_user_id
Represents-user_id k r = ground (arith, r.static_users k, r.dynamic_users k)

-- The store of the program keeps the contract.
abbrev pub dynamic_client_store : StoreContract
dynamic_client_store = record {
  Store = DynamicClientStore;
  empty = new_store;
  write = step;
  find_secret = lookup_client_secret;
  find_user = user_id;
  Shows = Represents;
  empty_shows = new_store-Represents;
  write_shows = step-Represents;
  secret_shown = Represents-lookup;
  user_shown = Represents-user_id;
}

write_all-run :
    (s : DynamicClientStore) (cs : List Call) → write_all dynamic_client_store s cs ≡ run s cs
unfolding write_all run
write_all-run s [] = refl
write_all-run s (c ∷ cs) = write_all-run (step s c) cs

-- After any sequence of SetStatic, AddStatic and ReplaceDynamic calls on a new store, the secret of
-- a client is that of its last usable entry in the latest dynamic list, and only where that list
-- has none that of its last usable static entry; with neither the client is unknown. Its user id is
-- the positive one of that dynamic entry, else that of the static entry, else 0.
pub run-refines :
    (cs : List Call) (k : Str)
    → (lookup_client_secret (run new_store cs) k
        ≡ or_else
            (secret_of (last_entry k (enter_all no_entries cs).dynamic))
            (secret_of (last_entry k (enter_all no_entries cs).static)))
      × (user_id (run new_store cs) k ≡ entered_user_id (enter_all no_entries cs) k)
run-refines cs k =
    subst
      (λ s.
        (lookup_client_secret s k ≡ entered_secret (enter_all no_entries cs) k)
        × (user_id s k ≡ entered_user_id (enter_all no_entries cs) k))
      (write_all-run new_store cs) (write_all-answers dynamic_client_store cs k)
