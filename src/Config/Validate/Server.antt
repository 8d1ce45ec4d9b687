-- ===== src/Config/Validate/Server.antt =====
-- internal/config/config.go: `ServerKLESSConfig.Validate` and that of its clients.
use knode.Prelude.{
  ℕ, suc, Bool, not, ◌&&◌, List, [], ◌∷◌, if◌then◌else◌, length, is_empty, ltb, is_negative, ◌==◌,
  Error, Result, ok, ◌>>=◌, ◌>>◌, refuse_if, map_err, drop_value,
}
use knode.Text.{Str, str_eq, trim_space}
use knode.Base64.{Bytes}
use knode.Keys.{decode_key, bytes_equal, public_key_size, public_matches_private}
use knode.Config.{ServerKlessConfig, ServerKlessClientConfig}
use knode.Config.System.{System}
use knode.Config.Duration.{parse_duration, default_handshake_timeout, default_users_refresh}
use knode.Config.Capability.{capability_mask_for_names}
use knode.Config.Defaults.{server_kless_defaults}
use knode.Config.Validate.Kless.{
  same_non_empty_secret, signing_private_bytes, padding_is_bad, padding_error,
}

-- `ServerKLESSConfig.ServerSigningKeyBytes`.
unfoldable pub server_signing_key_bytes : Str → Result Bytes
server_signing_key_bytes text = do
  key ← decode_key text
  refuse_if (not (length key == public_key_size)) (Error.text "must decode to 32 bytes")
  ok key

-- `ServerKLESSClientConfig.Validate`.
unfoldable pub validate_client : ServerKlessClientConfig → Result ServerKlessClientConfig
validate_client raw = do
  let c : ServerKlessClientConfig = record {
    client_id = trim_space raw.client_id;
    client_secret = trim_space raw.client_secret;
  }
  refuse_if (str_eq c.client_id []) (Error.text "client_id is required")
  secret ← map_err (Error.wrap "client_secret") (decode_key c.client_secret)
  refuse_if (ltb (length secret) 32) (Error.text "client_secret must decode to at least 32 bytes")
  ok c

-- The loop over the clients.
unfoldable pub validate_clients :
    ℕ → List ServerKlessClientConfig → Result (List ServerKlessClientConfig)
validate_clients i [] = ok []
validate_clients i (raw ∷ rest) = do
  c ← map_err (Error.wrap_at "clients" i) (validate_client raw)
  cs ← validate_clients (suc i) rest
  ok (c ∷ cs)

-- `if k.ServerSigningKey != "" { … }`: the public key belongs to the private one.
unfoldable pub check_signing_key : Str → Bytes → Result (Unit {0})
check_signing_key text private =
    if str_eq text []
    then ok tt
    else map_err (Error.wrap "server_signing_key") (server_signing_key_bytes text) >>= λ public.
        refuse_if (not (public_matches_private public private))
          (Error.text "server_signing_private does not match server_signing_key")

-- `if k.ServerSigningKey != "" { … }`: the client secret is not the public key.
unfoldable pub check_secret_differs : Str → Bytes → Result (Unit {0})
check_secret_differs text secret =
    if str_eq text []
    then ok tt
    else map_err (Error.wrap "server_signing_key") (server_signing_key_bytes text)
      >>= λ signing_key.
          refuse_if (bytes_equal secret signing_key)
            (Error.text "client_secret must not decode to server_signing_key")

unfoldable pub has_client_secret : ServerKlessConfig → Bool
has_client_secret k = not (str_eq (trim_space k.client_secret) [])

unfoldable pub has_static_client : ServerKlessConfig → Bool
has_static_client k = not (str_eq (trim_space k.client_id) []) && has_client_secret k

-- `if hasClientSecret { … }`.
unfoldable pub check_client_secret : ServerKlessConfig → Bool → Result (Unit {0})
check_client_secret k dynamic = if not (has_client_secret k) then ok tt else do
  refuse_if (same_non_empty_secret k.client_secret k.server_signing_key)
      (Error.text "client_secret must not equal server_signing_key")
  secret ← map_err (Error.wrap "client_secret") (decode_key k.client_secret)
  refuse_if (ltb (length secret) 32) (Error.text "client_secret must decode to at least 32 bytes")
  check_secret_differs k.server_signing_key secret
  refuse_if (str_eq (trim_space k.client_id) [] && not dynamic)
      (Error.text "client_id is required when client_secret is used without kboard users_endpoint")

module _ (sys : System) where
  -- The last checks of `ServerKLESSConfig.Validate`.
  unfoldable pub check_limits : ServerKlessConfig → Result (Unit {0})
  check_limits k = do
    refuse_if (is_negative k.max_frame_payload) (Error.text "max_frame_payload cannot be negative")
    refuse_if (padding_is_bad sys k.padding_min k.padding_max) (padding_error sys)
    map_err (Error.wrap "handshake_timeout")
        (drop_value (parse_duration sys k.handshake_timeout default_handshake_timeout))
    map_err (Error.wrap "max_handshake_skew")
        (drop_value (parse_duration sys k.max_handshake_skew sys.kless.default_handshake_skew))
    map_err (Error.wrap "users_refresh_interval")
        (drop_value (parse_duration sys k.users_refresh_interval default_users_refresh))
    drop_value (capability_mask_for_names sys k.capabilities)

  -- `ServerKLESSConfig.Validate` after its call of `applyDefaults`.
  unfoldable pub check_server_kless : ServerKlessConfig → Bool → Result ServerKlessConfig
  check_server_kless k dynamic = do
    private ←
        map_err (Error.wrap "server_signing_private")
          (signing_private_bytes k.server_signing_private)
    check_signing_key k.server_signing_key private
    check_client_secret k dynamic
    clients ← validate_clients 0 k.clients
    refuse_if (not (has_static_client k) && is_empty clients && not dynamic)
        (Error.text "client_id/client_secret, clients, or kboard users_endpoint is required")
    check_limits k
    ok (record k { clients = clients })

  unfoldable pub validate_server_kless : ServerKlessConfig → Bool → Result ServerKlessConfig
  validate_server_kless raw dynamic = check_server_kless (server_kless_defaults sys raw) dynamic
