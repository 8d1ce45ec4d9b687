-- ===== src/ClientStore/Derive.antt =====
-- internal/node/client_store.go: `clientIDForUser`, `deriveUserClientSecret` and the text that it
-- hashes.
use knode.Prelude.{[], ◌∷◌, if◌then◌else◌, ℤ, is_positive, not}
use knode.Text.{Str, lit, str_eq, trim_space, join}
use knode.Utf8.{utf8}
use knode.Decimal.{decimal_ℤ}
use knode.ClientStore.{Bytes}

-- internal/node/kboard.go, `KboardUser`.
pub record KboardUser : Type 0 where
  pub id : ℤ
  pub uuid : Str
  pub token : Str
  pub client_id : Str
  pub kless_client_id : Str
  pub client_secret : Str
  pub kless_secret : Str

unfoldable pub client_id_for_user : KboardUser → Str
client_id_for_user user =
    if not (str_eq user.kless_client_id [])
    then user.kless_client_id
    else if not (str_eq user.client_id [])
    then user.client_id
    else if not (str_eq user.uuid [])
    then user.uuid
    else if is_positive user.id
    then decimal_ℤ user.id
    else []

-- The text whose SHA-256 sum is the secret.
unfoldable pub secret_text : Str → Str → Str → Str
secret_text node_secret user_uuid token =
    join
      (lit "Knode KLESS user secret v1"
        ∷ trim_space node_secret
        ∷ trim_space user_uuid
        ∷ trim_space token
        ∷ [])
      (lit "\n")

-- `sha256.Sum256` is a parameter.
unfoldable pub derive_user_client_secret : (Bytes → Bytes) → Str → Str → Str → Bytes
derive_user_client_secret sha256 node_secret user_uuid token =
    sha256 (utf8 (secret_text node_secret user_uuid token))
