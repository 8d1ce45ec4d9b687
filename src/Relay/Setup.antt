-- ===== src/Relay/Setup.antt =====
-- internal/node/server_relay.go: a server configuration that passed validation gives a relay.
use knode.Prelude.{
  ℕ, suc, ◌≡◌, refl, ap, ◌∙◌, sym, Bool, true, false, Option, some, List, [], ◌∷◌, ◌++◌, arith, ok,
  err, ok_or, Error,
}
use knode.Shared.{Shared}
use knode.Text.{Str, lit, str_eq, trim_space, trim_left, trim_right}
use knode.Base64.{Bytes, decode_string}
use knode.Keys.{decode_key}
use knode.ClientStore.{ClientCredential, DynamicClientStore, add_static}
use knode.Config.{InboundConfig, ServerKlessConfig, ServerKlessClientConfig}
use knode.Config.System.{System}
use knode.Config.Defaults.{server_kless_defaults}
use knode.Config.Validate.Kless.{signing_private_bytes}
use knode.Config.Validate.Server.{
  check_client_secret, has_client_secret, validate_client, validate_clients, check_server_kless,
  validate_server_kless,
}
use knode.Relay.{
  own_credential, client_credentials, static_client_credentials, new_server_relay,
  require_kless_server_relay,
}

own_credential-ok :
    (k : ServerKlessConfig) (dynamic : Bool)
    → trim_space k.client_secret ≡ k.client_secret
    → check_client_secret k dynamic ≡ ok tt
    → own_credential k ≡ ok (ok_or (own_credential k) [])
unfolding own_credential check_client_secret has_client_secret
own_credential-ok k dynamic t h = ground arith

validate_client-decodes :
    (c : ServerKlessClientConfig)
    → validate_client c ≡ ok c
    → decode_key c.client_secret ≡ ok (ok_or (decode_key c.client_secret) [])
unfolding validate_client
validate_client-decodes c h = ground arith

validate_clients-cons :
    (i : ℕ) (c : ServerKlessClientConfig) (cs : List ServerKlessClientConfig)
    → validate_clients i (c ∷ cs) ≡ ok (c ∷ cs)
    → (validate_client c ≡ ok c) × (validate_clients (suc i) cs ≡ ok cs)
unfolding validate_clients
validate_clients-cons i c cs h = ground arith

client_credentials-ok :
    (i : ℕ) (cs : List ServerKlessClientConfig)
    → validate_clients i cs ≡ ok cs
    → client_credentials cs ≡ ok (ok_or (client_credentials cs) [])
unfolding client_credentials
client_credentials-ok i [] h = refl
client_credentials-ok i (c ∷ cs) h =
    let (one, more) = validate_clients-cons i c cs h in
    ground (arith, validate_client-decodes c one, client_credentials-ok (suc i) cs more)

-- The empty text is a key of no bytes.
signing_private_bytes-nil : signing_private_bytes [] ≡ err (Error.text "must decode to 64 bytes")
unfolding signing_private_bytes decode_key decode_string trim_space trim_left trim_right
signing_private_bytes-nil = refl

signing-named : (t : Str) {p : Bytes} → signing_private_bytes t ≡ ok p → str_eq t [] ≡ false
unfolding str_eq
signing-named [] h = cc (h, signing_private_bytes-nil)
signing-named (c ∷ t) h = refl

trimmed_secret :
    (sys : System) (k : ServerKlessConfig)
    → server_kless_defaults sys k ≡ k
    → trim_space k.client_secret ≡ k.client_secret
unfolding server_kless_defaults
trimmed_secret sys k fixed = ap (λ (x : ServerKlessConfig). x.client_secret) fixed

-- What `New` needs of a server part.
pub record IsServable (k : ServerKlessConfig) : Type 0 where
  pub private : Bytes
  pub credentials : List ClientCredential
  pub signing : signing_private_bytes k.server_signing_private ≡ ok private
  pub static : static_client_credentials k ≡ ok credentials
  pub named : str_eq k.server_signing_private [] ≡ false

check_server_kless-parts :
    (sys : System) (k : ServerKlessConfig) (dynamic : Bool)
    → check_server_kless sys k dynamic ≡ ok k
    → (signing_private_bytes k.server_signing_private
        ≡ ok (ok_or (signing_private_bytes k.server_signing_private) []))
      × (check_client_secret k dynamic ≡ ok tt)
      × (validate_clients 0 k.clients ≡ ok k.clients)
unfolding check_server_kless
check_server_kless-parts sys k dynamic h = ground arith

pub validate_server_kless-IsServable :
    (sys : System) (k : ServerKlessConfig) (dynamic : Bool)
    → server_kless_defaults sys k ≡ k
    → validate_server_kless sys k dynamic ≡ ok k
    → IsServable k
unfolding validate_server_kless static_client_credentials
validate_server_kless-IsServable sys k dynamic fixed h =
    let (signing, secret, clients) =
      check_server_kless-parts sys k dynamic
        (ap (λ x. check_server_kless sys x dynamic) (sym fixed) ∙ h) in
    let trimmed : trim_space k.client_secret ≡ k.client_secret = trimmed_secret sys k fixed in
    record {
      private = ok_or (signing_private_bytes k.server_signing_private) [];
      credentials = ok_or (own_credential k) [] ++ ok_or (client_credentials k.clients) [];
      signing = signing;
      static = ground (
        arith,
        own_credential-ok k dynamic trimmed secret,
        client_credentials-ok 0 k.clients clients,
      );
      named = signing-named k.server_signing_private signing;
    }

-- A relay is made, and the store gets the static clients of the configuration.
pub new_server_relay-ok :
    (free : ℕ) (id : Str) (k : ServerKlessConfig) (store : Shared DynamicClientStore)
    (access : Option ℕ) (s : IsServable k)
    → new_server_relay free id k (some store) access
      ≡ ok (
        record {
          cfg = k;
          signing = s.private;
          listen_id = id;
          store = store.address;
          access = access;
        },
        record { address = store.address; content = add_static store.content s.credentials },
      )
unfolding new_server_relay
new_server_relay-ok free id k store access s = ground (arith, s.signing, s.static)

pub require_kless_server_relay-ok :
    (i : InboundConfig)
    → str_eq i.mode (lit "kless-server") ≡ true
    → IsServable i.kless
    → require_kless_server_relay i ≡ ok tt
unfolding require_kless_server_relay
require_kless_server_relay-ok i mode s = ground (arith, s.named)
