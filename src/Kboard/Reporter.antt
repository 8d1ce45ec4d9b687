-- ===== src/Kboard/Reporter.antt =====
-- internal/node/kboard.go: `syncUsers` and `reportAccessLogs`.
use mathlib.Core.Option
use knode.Prelude.{
  ℕ, not, Option, none, some, List, [], ◌∷◌, length, ltb, if◌then◌else◌, is_empty, pos, Result, ok,
  err,
}
use knode.Shared.{Shared, pointer_to, content_of}
use knode.Text.{Str, str_eq, trim_space}
use knode.Base64.{Bytes}
use knode.AccessLog.{AccessLogBuffer, drain, restore, max_batch_size}
use knode.AccessLog.Fifo.{record_all}
use knode.AccessLog.Item.{AccessLogItem}
use knode.ClientStore.{ClientCredential, DynamicClientStore, replace_dynamic}
use knode.ClientStore.Derive.{KboardUser, client_id_for_user, derive_user_client_secret}
use knode.Config.{KboardConfig}
use knode.Config.System.{System}
use knode.Kboard.{UsersResponse, decode_kless_key, SignedRequest, HttpAnswer, post_json, get_json}

-- `kboardReporter`, as far as it changes or is read.
pub record Reporter : Type 0 where
  pub cfg : KboardConfig
  pub node_id : Str
  -- The client store and the queue, with the pointers to them, which may be nil.
  pub store_at : Option ℕ
  pub store : Option DynamicClientStore
  pub users_etag : Str
  pub access_at : Option ℕ
  pub access : Option AccessLogBuffer
  pub hostname : Str
  pub runtime_info : Str

-- `newKboardReporter`; the name of the host and the text of the runtime are given.
unfoldable pub new_reporter :
    KboardConfig
    → Str
    → Str
    → Str
    → Option (Shared DynamicClientStore)
    → Option (Shared AccessLogBuffer)
    → Reporter
new_reporter cfg node_id hostname runtime_info store access = record {
  cfg = cfg;
  node_id = node_id;
  store_at = pointer_to store;
  store = content_of store;
  users_etag = [];
  access_at = pointer_to access;
  access = content_of access;
  hostname = hostname;
  runtime_info = runtime_info;
}

-- The secret of a user with a text for it.
unfoldable pub decoded_secret : Str → Option Bytes
decoded_secret text = elim (decode_kless_key text) [
  | err e ↦ none
  | ok decoded ↦ if ltb (length decoded) 32 then none else some decoded
]

unfoldable pub configured_text : KboardUser → Str
configured_text user =
    let first = trim_space user.kless_secret in
    if str_eq first [] then trim_space user.client_secret else first

module _ (sha256 : Bytes → Bytes) where
  unfoldable pub user_secret : KboardConfig → KboardUser → Option Bytes
  user_secret cfg user =
      let text = configured_text user in
      if not (str_eq text [])
      then decoded_secret text
      else some (derive_user_client_secret sha256 cfg.node_shared_secret user.uuid user.token)

  unfoldable pub user_credential : KboardConfig → KboardUser → Option ClientCredential
  user_credential cfg user =
      let client_id = client_id_for_user user in
      if str_eq client_id []
      then none
      else Option.map
          (λ (secret : Bytes). record { client_id = client_id; secret = secret; user_id = user.id })
          (user_secret cfg user)

  -- The loop of `syncUsers`.
  unfoldable pub user_credentials : KboardConfig → List KboardUser → List ClientCredential
  user_credentials cfg [] = []
  user_credentials cfg (user ∷ users) =
      let more = user_credentials cfg users in
      elim (user_credential cfg user) [ none ↦ more | some credential ↦ credential ∷ more ]

module _ (sys : System) (hmac : Bytes → Bytes → Str) (sha256 : Bytes → Bytes) where
  -- `syncUsers` after its guard, and after its request.
  unfoldable pub take_users : Reporter → DynamicClientStore → Str × Option UsersResponse → Reporter
  take_users r store (etag, out) =
      let r' = record r { users_etag = if not (str_eq etag []) then etag else r.users_etag } in
      elim out [
        | none ↦ r'
        | some response ↦ record r' {
          store = some (
              replace_dynamic store
                (user_credentials sha256 r.cfg (Option.get_or response.users [])));
        }
      ]

  unfoldable pub sync_users : Reporter → Str → (SignedRequest → Result HttpAnswer) → Reporter
  sync_users r now send = if str_eq r.cfg.users_endpoint [] then r else elim r.store [
    | none ↦ r
    | some store ↦ elim (get_json sys hmac r.cfg r.cfg.users_endpoint r.users_etag now send) [
      | err e ↦ r
      | ok answer ↦ take_users r store answer
    ]
  ]

module _ (sys : System) (hmac : Bytes → Bytes → Str) where
  -- `reportAccessLogs`: the reporter and the items that Kboard accepted. `between` is what others record
  -- while the request is under way.
  unfoldable pub report_access_logs :
      Reporter
      → Str
      → List AccessLogItem
      → (SignedRequest → Result HttpAnswer)
      → Reporter × List AccessLogItem
  report_access_logs r now between send =
      let (drained, items) = drain r.access (pos max_batch_size) in
      let recorded = record_all drained between in
      if str_eq r.cfg.access_logs_endpoint []
      then (record r { access = record_all r.access between }, [])
      else if is_empty items
      then (record r { access = recorded }, [])
      else elim (post_json sys hmac r.cfg r.cfg.access_logs_endpoint now send) [
        | err e ↦ (record r { access = restore recorded items }, [])
        | ok done ↦ (record r { access = recorded }, items)
      ]
