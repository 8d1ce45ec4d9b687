-- ===== src/Kboard.antt =====
-- internal/node/kboard.go: the requests to Kboard and its answers. What the HTTP
-- client, the JSON decoder and the hashes answer is an argument.
pub mod Signature
pub mod Reports
pub mod Reporter
pub mod Users
pub mod Batches
pub mod Loop
pub mod Start
use mathlib.Core.Option
use knode.Prelude.{
  ℕ, Bool, true, false, not, ◌||◌, ◌&&◌, Option, none, some, List, [], ◌∷◌, ◌++◌, ltb, leb, ◌==◌,
  if◌then◌else◌, is_empty, ℤ, pos, negsuc, is_zero, Error, Result, ok, ◌>>=◌, ◌>>◌, refuse_if,
}
use knode.Text.{Str, lit, str_eq, trim_space, has_prefix, join}
use knode.Utf8.{utf8}
use knode.Base64.{Bytes}
use knode.Keys.{strip_blanks, encodings, try_encodings}
use knode.ClientStore.Derive.{KboardUser}
use knode.Config.{KboardConfig}
use knode.Config.Defaults.{trim_slashes}
use knode.Config.System.{System}

-- A slice that may be nil: `none` is nil.
pub record UsersResponse : Type 0 where
  pub protocol_version : Str
  pub node_id : ℤ
  pub users : Option (List KboardUser)
  pub count : ℤ
  pub pulled_at : ℤ

abbrev is_some : Option (List KboardUser) → Bool
is_some none = false
is_some (some users) = true

-- The test of `UnmarshalJSON` for a response that is not wrapped.
unfoldable pub is_filled : UsersResponse → Bool
is_filled top =
    not (str_eq top.protocol_version [])
    || not (is_zero top.node_id)
    || is_some top.users
    || not (is_zero top.count)
    || not (is_zero top.pulled_at)

-- `UnmarshalJSON`, by what the decoder makes of the text and of the text as `{"data": …}`.
unfoldable pub unmarshal : Result UsersResponse → Result UsersResponse → Result UsersResponse
unmarshal plain wrapped = do top ← plain; if is_filled top then ok top else wrapped

-- `decodeKLESSKey`.
unfoldable pub decode_kless_key : Str → Result Bytes
decode_kless_key text = try_encodings encodings (strip_blanks (trim_space text)) none

unfoldable pub endpoint_url : KboardConfig → Str → Str
endpoint_url cfg endpoint =
    if has_prefix endpoint (lit "http://") || has_prefix endpoint (lit "https://")
    then endpoint
    else trim_slashes cfg.public_url ++ endpoint

-- The text that a signature covers.
unfoldable pub signature_base : Str → Str → Str → Str → Str → Str
signature_base method path raw_query node_id timestamp =
    join (method ∷ (path ∷ (raw_query ∷ (node_id ∷ (timestamp ∷ []))))) (lit "\n")

-- `onlineCount`, where an int has 64 bits.
unfoldable pub online_count : ℤ → ℕ
online_count (pos n) = if ltb 9223372036854775807 n then 9223372036854775807 else n
online_count (negsuc n) = 0

unfoldable pub is_safe : ℕ → Bool
is_safe r =
    (leb b'a' r && leb r b'z')
    || (leb b'A' r && leb r b'Z')
    || (leb b'0' r && leb r b'9')
    || (r == b'-')
    || (r == b'_')

-- The loop of `safeBatchNodeID`.
unfoldable pub safe_part : Str → Str
safe_part [] = []
safe_part (r ∷ s) = if is_safe r then r ∷ safe_part s else safe_part s

unfoldable pub safe_batch_node_id : Str → Str
safe_batch_node_id node_id =
    let safe = safe_part (trim_space node_id) in
    if str_eq (trim_space node_id) []
    then lit "node"
    else if is_empty safe
    then lit "node"
    else safe

pub record SignedRequest : Type 0 where
  pub method : Str
  pub url : Str
  pub if_none_match : Str
  pub node_id : Str
  pub timestamp : Str
  pub signature : Str

-- An answer, with what the decoder makes of its body as it is and as a wrapped one.
pub record HttpAnswer : Type 0 where
  pub status : ℕ
  pub etag : Str
  pub plain : Result UsersResponse
  pub wrapped : Result UsersResponse

unfoldable pub check_status : ℕ → Result (Unit {0})
check_status status = refuse_if (ltb status 200 || leb 300 status) (Error.text "unexpected status")

-- `hmac` is the text of the HMAC-SHA-256 sum of a message under a key; the URL parser is asked once,
-- as it gives the same answer to `http.NewRequestWithContext`.
module _ (sys : System) (hmac : Bytes → Bytes → Str) where
  unfoldable pub hmac_signature : Str → Str → Str → Str → Str → Str → Str
  unfolding signature_base
  hmac_signature secret method path raw_query node_id timestamp =
      hmac (utf8 secret) (utf8 (signature_base method path raw_query node_id timestamp))

  -- `sign`.
  unfoldable pub sign : KboardConfig → Str → Str → Str → Str → Result SignedRequest
  sign cfg url method etag now = do
    parsed ← sys.parse_url url
    let path = if str_eq parsed.escaped_path [] then lit "/" else parsed.escaped_path
    ok (record {
      method = method;
      url = url;
      if_none_match = etag;
      node_id = cfg.node_id;
      timestamp = now;
      signature =
          hmac_signature cfg.node_shared_secret method path parsed.raw_query cfg.node_id now;
    })

  unfoldable pub post_json :
      KboardConfig → Str → Str → (SignedRequest → Result HttpAnswer) → Result (Unit {0})
  post_json cfg endpoint now send = do
    request ← sign cfg (endpoint_url cfg endpoint) (lit "POST") [] now
    answer ← send request
    check_status answer.status

  -- The ETag, and the response unless it is the one that the ETag of the request names.
  unfoldable pub get_json :
      KboardConfig
      → Str
      → Str
      → Str
      → (SignedRequest → Result HttpAnswer)
      → Result (Str × Option UsersResponse)
  get_json cfg endpoint etag now send = do
    request ← sign cfg (endpoint_url cfg endpoint) (lit "GET") etag now
    answer ← send request
    if answer.status == 304 then ok (answer.etag, none) else (do
      check_status answer.status
      out ← unmarshal answer.plain answer.wrapped
      ok (answer.etag, some out))
