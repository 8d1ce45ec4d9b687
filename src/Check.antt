-- ===== src/Check.antt =====
-- internal/node/check.go: `CheckUpstreams`.
pub mod Outcome
use knode.Prelude.{List, [], ◌∷◌, Error, Result, ok, err, ◌>>=◌, ◌>>◌, map_err}
use knode.Config.{UpstreamConfig, Config}
use knode.Config.System.{System}
use knode.Config.Validate.{validate}
use knode.Dialer.{dial_error, UpstreamDialer, Network, Dialed, dial, new_upstream_dialer}

module _ (sys : System) (net : Network) where
  -- `dialer.Dial`, and the close of the connection that it gave.
  unfoldable pub try_dial : UpstreamDialer → Result (Unit {0})
  try_dial d = elim (dial sys net d) [
    | Dialed.failed e raws ↦ err (dial_error e)
    | Dialed.connected secure ↦ ok tt
  ]

  unfoldable pub check_upstream_dials : List UpstreamConfig → Result (Unit {0})
  check_upstream_dials [] = ok tt
  check_upstream_dials (u ∷ us) = do
    d ← map_err (Error.wrap_name "upstream" u.name) (new_upstream_dialer sys u)
    map_err (Error.wrap_name "upstream" u.name) (try_dial d)
    check_upstream_dials us

  -- `CheckUpstreams`.
  unfoldable pub check_upstreams : Config → Result (Unit {0})
  check_upstreams raw = do cfg ← validate sys raw; check_upstream_dials cfg.upstreams
