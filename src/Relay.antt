-- ===== src/Relay.antt =====
-- internal/node/server_relay.go: how a relay of an inbound is set up. A relay has pointers to its
-- client store and its access log queue; the store itself is passed along.
pub mod Effects
pub mod Handle
pub mod Udp
pub mod Accounting
pub mod Setup
pub mod ServerConfig
use knode.Prelude.{
  ℕ, not, ◌&&◌, Option, none, some, List, [], ◌∷◌, ◌++◌, if◌then◌else◌, pos, Error, Result, ok,
  ◌>>=◌, ◌>>◌, refuse_if,
}
use knode.Shared.{Shared}
use knode.Text.{Str, lit, str_eq}
use knode.Base64.{Bytes}
use knode.Keys.{decode_key}
use knode.ClientStore.{ClientCredential, DynamicClientStore, new_store, add_static}
use knode.Config.{ServerKlessConfig, ServerKlessClientConfig, InboundConfig}
use knode.Config.Validate.Kless.{signing_private_bytes}

pub record ServerRelay : Type 0 where
  pub cfg : ServerKlessConfig
  pub signing : Bytes
  pub listen_id : Str
  -- The pointers to the client store and to the queue, which may be nil.
  pub store : ℕ
  pub access : Option ℕ

-- `if cfg.ClientID != "" && cfg.ClientSecret != "" { … }`.
unfoldable pub own_credential : ServerKlessConfig → Result (List ClientCredential)
own_credential cfg =
    if not (str_eq cfg.client_id []) && not (str_eq cfg.client_secret [])
    then (do
      secret ← decode_key cfg.client_secret
      ok (record { client_id = cfg.client_id; secret = secret; user_id = pos 0 } ∷ []))
    else ok []

-- The loop over the clients.
unfoldable pub client_credentials : List ServerKlessClientConfig → Result (List ClientCredential)
client_credentials [] = ok []
client_credentials (client ∷ clients) = do
  secret ← decode_key client.client_secret
  more ← client_credentials clients
  ok (record { client_id = client.client_id; secret = secret; user_id = pos 0 } ∷ more)

unfoldable pub static_client_credentials : ServerKlessConfig → Result (List ClientCredential)
static_client_credentials cfg = do
  own ← own_credential cfg
  clients ← client_credentials cfg.clients
  ok (own ++ clients)

-- `if store == nil { store = newDynamicClientStore() }`, which would be at the free address.
abbrev store_or_new : ℕ → Option (Shared DynamicClientStore) → Shared DynamicClientStore
store_or_new free none = record { address = free; content = new_store }
store_or_new free (some store) = store

-- `newServerRelay`: the relay, and the store with the static clients added. `free` is an address without
-- a store.
unfoldable pub new_server_relay :
    ℕ
    → Str
    → ServerKlessConfig
    → Option (Shared DynamicClientStore)
    → Option ℕ
    → Result (ServerRelay × Shared DynamicClientStore)
new_server_relay free listen_id cfg store access = do
  private ← signing_private_bytes cfg.server_signing_private
  credentials ← static_client_credentials cfg
  ok (
    record {
      cfg = cfg;
      signing = private;
      listen_id = listen_id;
      store = (store_or_new free store).address;
      access = access;
    },
    record {
      address = (store_or_new free store).address;
      content = add_static (store_or_new free store).content credentials;
    },
  )

unfoldable pub require_kless_server_relay : InboundConfig → Result (Unit {0})
require_kless_server_relay inbound = do
  refuse_if (not (str_eq inbound.mode (lit "kless-server")))
      (Error.about "inbound is not kless-server" inbound.name)
  refuse_if (str_eq inbound.kless.server_signing_private [])
      (Error.text "server_signing_private is required")
