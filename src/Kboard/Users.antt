-- ===== src/Kboard/Users.antt =====
-- internal/node/kboard.go: what a synchronisation of the users changes.
use mathlib.Core.Option
use mathlib.Core.Path.{subst}
use knode.Utf8.{utf8}
use knode.Prelude.{
  ◌≤◌, ◌≡◌, sym, false, Option-cases, inl, inr, some, List, [], ◌∷◌, length, Result, ok, arith, All,
}
use knode.Text.{Str, str_eq}
use knode.Base64.{Bytes}
use knode.Dict.{lookup}
use knode.Dict.Lookup.{or_else}
use knode.ClientStore.{ClientCredential, DynamicClientStore, lookup_client_secret, replace_dynamic}
use knode.ClientStore.Maps.{last_entry, secret_of, lookup-credential_maps}
use knode.ClientStore.Derive.{KboardUser, secret_text, derive_user_client_secret}
use knode.Config.{KboardConfig}
use knode.Config.System.{System}
use knode.Kboard.{UsersResponse, SignedRequest, HttpAnswer, get_json}
use knode.Kboard.Reporter.{
  Reporter, decoded_secret, user_secret, user_credential, user_credentials, take_users, sync_users,
}

-- The credential of a user has a name, and a secret of at least 32 bytes.
abbrev pub IsStrong : ClientCredential → Type 0
IsStrong c = (str_eq c.client_id [] ≡ false) × (32 ≤ length c.secret)

module _ (sha256 : Bytes → Bytes) where
  user_secret-size :
      (cfg : KboardConfig) (user : KboardUser) {secret : Bytes}
      → ((m : Bytes) → length (sha256 m) ≡ 32)
      → user_secret sha256 cfg user ≡ some secret
      → 32 ≤ length secret
  unfolding user_secret decoded_secret derive_user_client_secret
  user_secret-size cfg user sum h =
      let text = utf8 (secret_text cfg.node_shared_secret user.uuid user.token) in
      ground (arith, sum text)

  user_credential-IsStrong :
      (cfg : KboardConfig) (user : KboardUser) {c : ClientCredential}
      → ((m : Bytes) → length (sha256 m) ≡ 32)
      → user_credential sha256 cfg user ≡ some c
      → IsStrong c
  unfolding user_credential
  user_credential-IsStrong cfg user sum h =
      let secret = Option.get_or (user_secret sha256 cfg user) [] in
      ground (arith, user_secret-size cfg user {secret = secret} sum)

  pub user_credentials-IsStrong :
      (cfg : KboardConfig) (users : List KboardUser)
      → ((m : Bytes) → length (sha256 m) ≡ 32)
      → All IsStrong (user_credentials sha256 cfg users)
  unfolding user_credentials
  user_credentials-IsStrong cfg [] sum = tt
  user_credentials-IsStrong cfg (user ∷ users) sum =
      elim (Option-cases (user_credential sha256 cfg user)) [
        | inl skipped ↦
            let e : user_credentials sha256 cfg (user ∷ users) ≡ user_credentials sha256 cfg users =
              ground arith in
            subst (All IsStrong) (sym e) (user_credentials-IsStrong cfg users sum)
        | inr (c, made) ↦
            let e : user_credentials sha256 cfg (user ∷ users)
                ≡ c ∷ user_credentials sha256 cfg users =
              ground arith in
            subst (All IsStrong) (sym e) (
              user_credential-IsStrong cfg user {c = c} sum made,
              user_credentials-IsStrong cfg users sum,
            )
      ]

module _ (sys : System) (hmac : Bytes → Bytes → Str) (sha256 : Bytes → Bytes) where
  -- After a synchronisation that loaded a list of users, where a SHA-256 sum has 32 bytes: a
  -- lookup finds the secret of the last of the credentials made of them that names the client, or
  -- else the static one; and every one of those credentials has a name and a secret of at least 32
  -- bytes.
  pub sync_users-lookup :
      (r : Reporter) (store : DynamicClientStore) (now etag k : Str)
      (send : SignedRequest → Result HttpAnswer) (response : UsersResponse)
      → ((m : Bytes) → length (sha256 m) ≡ 32)
      → str_eq r.cfg.users_endpoint [] ≡ false
      → r.store ≡ some store
      → get_json sys hmac r.cfg r.cfg.users_endpoint r.users_etag now send
        ≡ ok (etag, some response)
      → let users = user_credentials sha256 r.cfg (Option.get_or response.users []) in
        (new : DynamicClientStore) × ((sync_users sys hmac sha256 r now send).store ≡ some new)
        × (lookup_client_secret new k
            ≡ or_else (secret_of (last_entry k users)) (lookup k store.static_secrets))
        × All IsStrong users
  unfolding sync_users take_users lookup_client_secret replace_dynamic
  sync_users-lookup r store now etag k send response sum on has answer =
      let users = user_credentials sha256 r.cfg (Option.get_or response.users []) in
      (
        replace_dynamic store users,
        ground arith,
        ground (arith, lookup-credential_maps k users),
        user_credentials-IsStrong sha256 r.cfg (Option.get_or response.users []) sum,
      )
