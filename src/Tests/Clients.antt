-- ===== src/Tests/Clients.antt =====
-- The client store, the keys and the synchronisation of users at small inputs.
use mathlib.Core.Option
use knode.Prelude.{false, ◌≡◌, refl, none, some, List, [], ◌∷◌, pos, Result, ok, All, arith}
use knode.Text.{is_space, trim_left, trim_right, trim_space, Str, lit, str_eq, has_prefix}
use knode.Base64.{Bytes, encode_to_string, decode_string, raw_url_encoding}
use knode.Base64.RoundTrip.{IsBytes, decode_string-encode}
use knode.Keys.{decode_key}
use knode.Keys.RoundTrip.{decode_key-encode, strip_blanks-encode}
use knode.Dict.{insert, lookup}
use knode.Dict.Lookup.{or_else}
use knode.ClientStore.{
  is_skipped, credential_maps_from, replace_dynamic, ClientCredential, DynamicClientStore,
  new_store, lookup_client_secret, user_id, credential_maps,
}
use knode.ClientStore.Maps.{last_entry, secret_of, user_of, lookup-credential_maps, IsUsable}
use knode.ClientStore.Calls.{Call, step, run}
use knode.ClientStore.Contract.{enter_all, no_entries, entered_user_id}
use knode.ClientStore.Refinement.{run-refines}
use knode.ClientStore.Invariant.{
  IsValid, run-IsValid, new_store-IsValid, lookup_client_secret-run-IsUsable,
}
use knode.ClientStore.Derive.{KboardUser}
use knode.Kboard.{
  SignedRequest, HttpAnswer, UsersResponse, get_json, sign, endpoint_url, check_status, unmarshal,
  is_filled,
}
use knode.Kboard.Reporter.{Reporter, user_credentials, sync_users}
use knode.Kboard.Users.{IsStrong, sync_users-lookup}
use knode.Tests.Fixtures.{system, kboard}

abbrev entry : Str → Bytes → ClientCredential
entry id secret = record { client_id = id; secret = secret; user_id = pos 5 }

abbrev entries : List ClientCredential
entries = entry (lit "alice") (1 ∷ []) ∷ (entry (lit " alice ") (2 ∷ []) ∷ [])

abbrev calls : List Call
calls = Call.adds entries ∷ (Call.replaces (entry (lit "alice") (3 ∷ []) ∷ []) ∷ [])

lookup-credential_maps_test :
    (lookup (lit "alice") (credential_maps entries).0
      ≡ secret_of (last_entry (lit "alice") entries))
    × (lookup (lit "alice") (credential_maps entries).1
        ≡ user_of (last_entry (lit "alice") entries))
lookup-credential_maps_test = lookup-credential_maps (lit "alice") entries

run-refines_example :
    (lookup_client_secret (run new_store calls) (lit "alice")
      ≡ or_else
          (secret_of (last_entry (lit "alice") (enter_all no_entries calls).dynamic))
          (secret_of (last_entry (lit "alice") (enter_all no_entries calls).static)))
    × (user_id (run new_store calls) (lit "alice")
        ≡ entered_user_id (enter_all no_entries calls) (lit "alice"))
run-refines_example = run-refines calls (lit "alice")

run-IsValid_test : IsValid (run new_store calls)
run-IsValid_test = run-IsValid new_store calls new_store-IsValid

abbrev pub small_store : DynamicClientStore
small_store = record new_store { static_secrets = (lit "alice", 1 ∷ []) ∷ [] }

calls_find_alice : lookup_client_secret (run new_store calls) (lit "alice") ≡ some (3 ∷ [])
unfolding lookup_client_secret run step replace_dynamic lookup insert credential_maps
    credential_maps_from is_skipped str_eq trim_space trim_right trim_left is_space
calls_find_alice = refl

lookup_client_secret-run-IsUsable_example : IsUsable (lit "alice") (3 ∷ [])
lookup_client_secret-run-IsUsable_example =
    lookup_client_secret-run-IsUsable calls (lit "alice") {secret = 3 ∷ []} calls_find_alice

abbrev bytes : Bytes
bytes = 255 ∷ (0 ∷ (17 ∷ (200 ∷ [])))

bytes-IsBytes : IsBytes bytes
bytes-IsBytes = (omega arith, (omega arith, (omega arith, (omega arith, tt))))

decode_string-encode_test : decode_string raw_url_encoding (encode_to_string bytes) ≡ some bytes
decode_string-encode_test = decode_string-encode bytes bytes-IsBytes

decode_key-encode_example : decode_key (encode_to_string bytes) ≡ ok bytes
decode_key-encode_example =
    decode_key-encode (encode_to_string bytes) bytes bytes-IsBytes
      (strip_blanks-encode bytes bytes-IsBytes)

abbrev pub hmac : Bytes → Bytes → Str
hmac key message = message

-- A sum of 32 bytes.
abbrev pub sum : Bytes → Bytes
sum message =
    1 ∷ 2 ∷ 3 ∷ 4 ∷ 5 ∷ 6 ∷ 7 ∷ 8 ∷ 9 ∷ 10 ∷ 11 ∷ 12 ∷ 13 ∷ 14 ∷ 15 ∷ 16 ∷ 17 ∷ 18 ∷ 19 ∷ 20 ∷ 21
    ∷ 22 ∷ 23 ∷ 24 ∷ 25 ∷ 26 ∷ 27 ∷ 28 ∷ 29 ∷ 30 ∷ 31 ∷ 32 ∷ []

abbrev pub reporter : Reporter
reporter = record {
  cfg = kboard;
  node_id = lit "n1";
  store_at = some 0;
  store = some small_store;
  users_etag = lit "v1";
  access_at = none;
  access = none;
  hostname = lit "host";
  runtime_info = lit "go1.22/linux-amd64";
}

abbrev bob : KboardUser
bob = record {
  id = pos 9;
  uuid = lit "bob";
  token = lit "t";
  client_id = [];
  kless_client_id = [];
  client_secret = [];
  kless_secret = [];
}

abbrev users : UsersResponse
users = record {
  protocol_version = lit "1";
  node_id = pos 7;
  users = some (bob ∷ []);
  count = pos 1;
  pulled_at = pos 1;
}

abbrev pub available : SignedRequest → Result HttpAnswer
available request =
    ok (record { status = 200; etag = lit "v2"; plain = ok users; wrapped = ok users })

users_arrive :
    get_json system hmac kboard kboard.users_endpoint (lit "v1") (lit "1700000000") available
    ≡ ok (lit "v2", some users)
unfolding get_json sign endpoint_url check_status unmarshal is_filled str_eq has_prefix
users_arrive = refl

users_endpoint_is_set : str_eq kboard.users_endpoint [] ≡ false
unfolding str_eq
users_endpoint_is_set = refl

sync_users-lookup_example :
    let made = user_credentials sum kboard (Option.get_or users.users []) in
    (new : DynamicClientStore) × ((sync_users system hmac sum reporter
        (lit "1700000000")
        available).store
      ≡ some new)
    × (lookup_client_secret new (lit "bob")
        ≡ or_else
            (secret_of (last_entry (lit "bob") made))
            (lookup (lit "bob") small_store.static_secrets))
    × All (IsStrong) made
sync_users-lookup_example =
    sync_users-lookup system hmac sum reporter small_store (lit "1700000000") (lit "v2") (lit "bob")
      available users (λ m. refl) users_endpoint_is_set refl users_arrive
