-- ===== src/Config/Stable/Parts.antt =====
-- internal/config/config.go: a part that passed its `Validate` passes it again, unchanged.
use knode.Prelude.{
  Error, ℕ, suc, ◌≡◌, refl, ap, ◌∙◌, Bool, List, [], ◌∷◌, arith, is_empty, ok, map_err, >>=-eq-ok,
}
use knode.Text.Trim.{trim_space_idem}
use knode.Text.Lower.{UnicodeLaws}
use knode.Config.{KboardConfig, UpstreamConfig, ServerKlessConfig, ServerKlessClientConfig}
use knode.Config.System.{System}
use knode.Config.Defaults.{kboard_defaults, upstream_defaults}
use knode.Config.Fixed.{IsSettled, kboard_defaults_idem, upstream_defaults_idem}
use knode.Config.Validate.Server.{
  validate_client, validate_clients, check_client_secret, check_limits, check_server_kless,
  has_static_client, has_client_secret,
}
use knode.Config.Validate.Parts.{check_kboard, validate_kboard, check_upstream, validate_upstream}

module _ (sys : System) where
  pub check_kboard-same :
      (k : KboardConfig) {k' : KboardConfig} → check_kboard sys k ≡ ok k' → k' ≡ k
  unfolding check_kboard
  check_kboard-same k h = ground arith

  pub check_upstream-same :
      (u : UpstreamConfig) {u' : UpstreamConfig} → check_upstream sys u ≡ ok u' → u' ≡ u
  unfolding check_upstream
  check_upstream-same u h = ground arith

  pub validate_kboard-again :
      (raw : KboardConfig) {k : KboardConfig}
      → IsSettled raw
      → validate_kboard sys raw ≡ ok k
      → (k ≡ kboard_defaults raw) × (validate_kboard sys k ≡ ok k)
  unfolding validate_kboard
  validate_kboard-again raw {k} settled h =
      let same : k ≡ kboard_defaults raw = check_kboard-same (kboard_defaults raw) h in
      (
        same,
        ap (λ x. check_kboard sys (kboard_defaults x)) same
            ∙ (ap (check_kboard sys) (kboard_defaults_idem raw settled) ∙ h),
      )

  module _ (laws : UnicodeLaws sys.unicode) where
    pub validate_upstream-again :
        (raw : UpstreamConfig) {u : UpstreamConfig}
        → validate_upstream sys raw ≡ ok u
        → (u ≡ upstream_defaults sys raw) × (validate_upstream sys u ≡ ok u)
    unfolding validate_upstream
    validate_upstream-again raw {u} h =
        let same : u ≡ upstream_defaults sys raw =
          check_upstream-same (upstream_defaults sys raw) h in
        (
          same,
          ap (λ x. check_upstream sys (upstream_defaults sys x)) same
              ∙ (ap (check_upstream sys) (upstream_defaults_idem sys laws raw) ∙ h),
        )

-- The clients are trimmed, and no client is added or dropped.
pub validate_client-again :
    (raw : ServerKlessClientConfig) {c : ServerKlessClientConfig}
    → validate_client raw ≡ ok c
    → validate_client c ≡ ok c
unfolding validate_client
validate_client-again raw {c} h =
    ground (arith, trim_space_idem raw.client_id, trim_space_idem raw.client_secret)

pub validate_clients-again :
    (i : ℕ) (raws : List ServerKlessClientConfig) {cs : List ServerKlessClientConfig}
    → validate_clients i raws ≡ ok cs
    → (validate_clients i cs ≡ ok cs) × (is_empty cs ≡ is_empty raws)
unfolding validate_clients
validate_clients-again i [] {cs} h = ground arith
validate_clients-again i (raw ∷ rest) {cs} h =
    let (c, first, h') =
      >>=-eq-ok (map_err (Error.wrap_at "clients" i) (validate_client raw)) _ h in
    let (more, others, e) = >>=-eq-ok (validate_clients (suc i) rest) _ h' in
    ground
      (arith, validate_client-again raw {c = c}, validate_clients-again (suc i) rest {cs = more})

module _ (sys : System) where
  -- What the checks read of a server configuration besides its clients.
  with_clients :
      (k : ServerKlessConfig) (cs : List ServerKlessClientConfig) (dynamic : Bool)
      → (check_client_secret (record k { clients = cs }) dynamic ≡ check_client_secret k dynamic)
        × (has_static_client (record k { clients = cs }) ≡ has_static_client k)
        × (check_limits sys (record k { clients = cs }) ≡ check_limits sys k)
  unfolding check_client_secret has_static_client has_client_secret check_limits
  with_clients k cs dynamic = (refl, refl, refl)

  pub check_server_kless-clients :
      (k : ServerKlessConfig) (dynamic : Bool) {k' : ServerKlessConfig}
      → check_server_kless sys k dynamic ≡ ok k'
      → (cs : List ServerKlessClientConfig) × (validate_clients 0 k.clients ≡ ok cs)
        × (k' ≡ record k { clients = cs })
  unfolding check_server_kless
  check_server_kless-clients k dynamic h = ground arith

  pub check_server_kless-again :
      (k : ServerKlessConfig) (cs : List ServerKlessClientConfig) (dynamic : Bool)
      → validate_clients 0 k.clients ≡ ok cs
      → check_server_kless sys k dynamic ≡ ok (record k { clients = cs })
      → check_server_kless sys (record k { clients = cs }) dynamic ≡ ok (record k { clients = cs })
  unfolding check_server_kless
  check_server_kless-again k cs dynamic e h =
      ground (arith, with_clients k cs dynamic, validate_clients-again 0 k.clients {cs = cs} e)
