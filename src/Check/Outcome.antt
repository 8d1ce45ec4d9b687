-- ===== src/Check/Outcome.antt =====
-- internal/node/check.go: the check succeeds exactly when every upstream can be dialled.
use knode.Prelude.{◌≡◌, refl, Bool, true, false, List, [], ◌∷◌, ok, All, arith, ◌↔◌}
use knode.Text.Lower.{UnicodeLaws}
use knode.Config.{UpstreamConfig, Config}
use knode.Config.System.{System}
use knode.Config.Validate.{validate}
use knode.Config.Stable.{KboardIsSettled}
use knode.Dialer.{Network, Dialed, dial, new_upstream_dialer}
use knode.Service.New.{IsValidUpstream, validate-IsChecked}
use knode.Check.{try_dial, check_upstream_dials, check_upstreams}

module _ (sys : System) (net : Network) where
  abbrev is_connected : Dialed sys net → Bool
  is_connected (Dialed.failed e raws) = false
  is_connected (Dialed.connected secure) = true

  -- A dial of the upstream gives a connection.
  abbrev pub IsReachable : UpstreamConfig → Type 0
  IsReachable u =
      (secure : net.Conn) × (dial sys net (record { cfg = u }) ≡ Dialed.connected secure)

  connected-of :
      (o : Dialed sys net)
      → is_connected o ≡ true
      → (secure : net.Conn) × (o ≡ Dialed.connected secure)
  connected-of (Dialed.failed e raws) h = cc
  connected-of (Dialed.connected secure) h = (secure, refl)

  try_dial-connected :
      (u : UpstreamConfig) → try_dial sys net (record { cfg = u }) ≡ ok tt → IsReachable u
  unfolding try_dial
  try_dial-connected u h = connected-of (dial sys net (record { cfg = u })) (ground arith)

  -- A round of the loop for an upstream that passes its second validation.
  check_upstream_dials-cons :
      (u : UpstreamConfig) (us : List UpstreamConfig)
      → IsValidUpstream sys u
      → (check_upstream_dials sys net (u ∷ us) ≡ ok tt) ↔ (
          (try_dial sys net (record { cfg = u }) ≡ ok tt)
          × (check_upstream_dials sys net us ≡ ok tt))
  unfolding check_upstream_dials new_upstream_dialer
  check_upstream_dials-cons u us v = (λ h. (ground arith, ground arith), λ h. ground arith)

  check_upstream_dials_iff :
      (us : List UpstreamConfig)
      → All (IsValidUpstream sys) us
      → (check_upstream_dials sys net us ≡ ok tt) ↔ All IsReachable us
  unfolding check_upstream_dials try_dial
  check_upstream_dials_iff [] valid = ((λ h. tt), λ h. refl)
  check_upstream_dials_iff (u ∷ us) (v, valid) =
      let (there, back) = check_upstream_dials_iff us valid in
      let (split, join) = check_upstream_dials-cons u us v in
      (
        λ h. (try_dial-connected u (split h).0, there (split h).1),
        λ h. join (ground (arith, h.0.1), back h.1),
      )

  -- For a configuration that validates, the check succeeds exactly when a dial of each upstream of the
  -- validated configuration gives a connection, where the lower case table of Unicode has its two
  -- properties and the Kboard URL has no white space in front of the slashes that end it.
  pub check_upstreams-ok_iff :
      (laws : UnicodeLaws sys.unicode) (raw : Config) {c : Config}
      → KboardIsSettled sys laws raw.kboard
      → validate sys raw ≡ ok c
      → (check_upstreams sys net raw ≡ ok tt) ↔ All IsReachable c.upstreams
  unfolding check_upstreams
  check_upstreams-ok_iff laws raw {c} settled h =
      let (there, back) =
        check_upstream_dials_iff c.upstreams
          (validate-IsChecked sys laws raw settled h).upstreams_valid in
      (λ e. there (ground arith), λ all. ground (arith, back all))
