-- ===== src/Dialer/Stages.antt =====
-- internal/node/dialer.go: the stages of `Dial` for a validated upstream.
use mathlib.Core.Path.{subst}
use knode.Prelude.{Result-cases, ◌≡◌, sym, [], ◌∷◌, inl, inr, arith, Error, ok, err}
use knode.Config.{UpstreamConfig}
use knode.Config.System.{System}
use knode.Config.Validate.Parts.{validate_upstream, check_upstream}
use knode.Config.Validate.Kless.{ClientConfig, client_config, validate_kless}
use knode.Config.Handshake.{IsHandshakeConfig, validate_kless-IsHandshakeConfig}
use knode.Dialer.{Stage, UpstreamDialer, Network, Dialed, dial_raw, dial, new_upstream_dialer}

module _ (sys : System) (net : Network) where
  -- The three ways in which a dial with a client configuration ends: no raw connection; a raw
  -- connection whose handshake fails and which is closed; a connection.
  pub data IsDial (d : UpstreamDialer) (cfg : ClientConfig) : Dialed sys net → Type 0 where
    no_transport :
        (e : Error)
        → dial_raw sys net d ≡ err e
        → IsDial d cfg (Dialed.failed (record { stage = Stage.transport; error = e }) [])
    no_handshake :
        (raw : net.Conn) (e : Error)
        → dial_raw sys net d ≡ ok raw
        → net.client_handshake raw cfg ≡ err e
        → IsDial d cfg (Dialed.failed (record { stage = Stage.handshake; error = e }) (raw ∷ []))
    connected :
        (raw secure : net.Conn)
        → dial_raw sys net d ≡ ok raw
        → net.client_handshake raw cfg ≡ ok secure
        → IsDial d cfg (Dialed.connected secure)

  new_upstream_dialer-kless :
      (u : UpstreamConfig) {d : UpstreamDialer}
      → new_upstream_dialer sys u ≡ ok d
      → validate_kless sys d.cfg.kless d.cfg.transport ≡ ok tt
  unfolding new_upstream_dialer validate_upstream check_upstream
  new_upstream_dialer-kless u h = ground arith

  dial-of_config :
      (d : UpstreamDialer) (cfg : ClientConfig)
      → client_config sys d.cfg.kless d.cfg.transport ≡ ok cfg
      → IsDial d cfg (dial sys net d)
  unfolding dial
  dial-of_config d cfg h = elim (Result-cases (dial_raw sys net d)) [
    | inl (e, failed) ↦
        let same : dial sys net d
            ≡ Dialed.failed (record { stage = Stage.transport; error = e }) [] =
          ground arith in
        subst (IsDial d cfg) (sym same) (IsDial.no_transport e failed)
    | inr (raw, made) ↦ elim (Result-cases (net.client_handshake raw cfg)) [
      | inl (e, failed) ↦
          let same : dial sys net d
              ≡ Dialed.failed (record { stage = Stage.handshake; error = e }) (raw ∷ []) =
            ground arith in
          subst (IsDial d cfg) (sym same) (IsDial.no_handshake raw e made failed)
      | inr (secure, done) ↦
          let same : dial sys net d ≡ Dialed.connected secure = ground arith in
          subst (IsDial d cfg) (sym same) (IsDial.connected raw secure made done)
    ]
  ]

  -- A dialer of an upstream has a client configuration that keeps the bounds of the handshake. Its
  -- dial fails in the stage of the transport only without a raw connection, and in the stage of the
  -- handshake only when the handshake of a raw connection fails, which it then closes.
  pub dial-IsDial :
      (u : UpstreamConfig) {d : UpstreamDialer}
      → new_upstream_dialer sys u ≡ ok d
      → (cfg : ClientConfig) × IsHandshakeConfig sys cfg × IsDial d cfg (dial sys net d)
  dial-IsDial u {d} h =
      let (cfg, e, bounds) =
        validate_kless-IsHandshakeConfig sys d.cfg.kless d.cfg.transport
          (new_upstream_dialer-kless u h) in
      (cfg, bounds, dial-of_config d cfg e)
