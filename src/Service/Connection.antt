-- ===== src/Service/Connection.antt =====
-- internal/node/service.go: `handleConnection`, between its `beginConnection` and `endConnection`.
use knode.Prelude.{
  ℕ, ◌≤◌, ◌≡◌, ap, ok, true, false, Option, none, some, List, [], ◌∷◌, ◌++◌, if◌then◌else◌, ◌⊎◌,
  inl, inr, All, arith,
}
use mathlib.Core.Option
use knode.Text.{Str, lit, str_eq}
use knode.Text.Equality.{str_eq_iff}
use knode.Text.Lower.{UnicodeLaws}
use knode.Dict.{lookup}
use knode.Metrics.Counters.{Counter}
use knode.AccessLog.Item.{RelayTarget}
use knode.Config.{InboundConfig, Config}
use knode.Config.System.{System}
use knode.Config.Stable.{KboardIsSettled}
use knode.Dialer.{Stage, UpstreamDialer, Network, Dialed, dial}
use knode.Relay.{ServerRelay}
use knode.Relay.Effects.{Endpoint, Effect, CopyError, proxy_error_of, Piped, pipe}
use knode.Relay.Udp.{Client}
use knode.Relay.Handle.{Peer, handle}
use knode.Relay.Handle.Reports.{
  failures, handle-failures, failures-append, failures-pipe, failures-proxy_error_of,
}
use knode.Service.{Service, new_service}
use knode.Service.New.{is_server}
use knode.Service.Backends.{IsServed, new_service-IsServed}

-- The counter of a failed dial.
unfoldable pub dial_counter : Stage → Counter
dial_counter Stage.handshake = Counter.handshake_error
dial_counter Stage.transport = Counter.transport_error

-- What follows a successful dial: the pipe, and the deferred close of the upstream.
unfoldable pub serve_upstream : Piped → List Effect
serve_upstream piped =
    let (effects, error) = pipe piped Endpoint.local in
    effects ++ (proxy_error_of error ++ (Effect.closed Endpoint.upstream ∷ []))

failures-serve_upstream : (piped : Piped) → failures (serve_upstream piped) ≤ 1
unfolding serve_upstream
failures-serve_upstream piped =
    let (effects, error) = pipe piped Endpoint.local in
    let close = Effect.closed Endpoint.upstream ∷ [] in
    ground (
      arith,
      failures-append effects (proxy_error_of error ++ close),
      failures-append (proxy_error_of error) close,
      failures-pipe piped Endpoint.local,
      failures-proxy_error_of error,
    )

pub tcp-ne-server : (m : Str) → str_eq m (lit "tcp") ≡ true → str_eq m (lit "kless-server") ≡ false
unfolding str_eq
tcp-ne-server m h = ap (λ x. str_eq x (lit "kless-server")) ((str_eq_iff m (lit "tcp")).0 h)

module _ (sys : System) (net : Network) {Addr : Type 0} (address_text : RelayTarget → Str)
    (resolve : Str → CopyError ⊎ Addr) (invalid_address : CopyError) where
  unfoldable pub serve_dialed : Dialed sys net → Piped → List Effect
  serve_dialed (Dialed.failed e raws) piped = Effect.counted (dial_counter e.stage) ∷ []
  serve_dialed (Dialed.connected secure) piped = serve_upstream piped

  -- The branch of a `kless-server` inbound.
  unfoldable pub serve_relay : Option ServerRelay → Client → Peer → List Effect
  serve_relay none c peer = Effect.counted Counter.proxy_error ∷ []
  serve_relay (some r) c peer = handle address_text resolve invalid_address c peer

  -- The branch of an upstream; `Dial` of a missing dialer, a nil pointer, panics: `none`.
  unfoldable pub serve_dialer : Option UpstreamDialer → Peer → Option (List Effect)
  serve_dialer none peer = none
  serve_dialer (some d) peer = some (serve_dialed (dial sys net d) peer.piped)

  -- `handleConnection` with its deferred close of the local connection.
  unfoldable pub handle_connection : Service → InboundConfig → Client → Peer → Option (List Effect)
  handle_connection s inbound c peer =
      let served =
        if is_server inbound
        then some (serve_relay (lookup inbound.name s.relays) c peer)
        else serve_dialer (lookup inbound.upstream s.dialers) peer in
      Option.map (λ (es : List Effect). es ++ (Effect.closed Endpoint.local ∷ [])) served

  failures-dialed : (d : Dialed sys net) (piped : Piped) → failures (serve_dialed d piped) ≤ 1
  unfolding serve_dialed dial_counter
  failures-dialed (Dialed.failed e raws) piped = ground arith
  failures-dialed (Dialed.connected secure) piped = failures-serve_upstream piped

  -- The connection is handled without a panic, and counts one failure at most.
  unfoldable pub IsHandled : Service → InboundConfig → Type 0
  IsHandled s b =
      (c : Client) (peer : Peer)
      → (es : List Effect) × (handle_connection s b c peer ≡ some es) × (failures es ≤ 1)

  IsServed-IsHandled :
      (s : Service) (b : InboundConfig) → IsServed s.dialers s.relays b → IsHandled s b
  unfolding IsHandled handle_connection serve_relay serve_dialer
  IsServed-IsHandled s b (inl (tcp, (d, found))) c peer =
      let es = serve_dialed (dial sys net d) peer.piped in
      (
        es ++ (Effect.closed Endpoint.local ∷ []),
        ground (arith, tcp-ne-server b.mode tcp, found),
        ground (
          arith,
          failures-dialed (dial sys net d) peer.piped,
          failures-append es (Effect.closed Endpoint.local ∷ []),
        ),
      )
  IsServed-IsHandled s b (inr (server, (r, found, same, id))) c peer =
      let es = handle address_text resolve invalid_address c peer in
      (
        es ++ (Effect.closed Endpoint.local ∷ []),
        ground (arith, server, found),
        ground (
          arith,
          handle-failures address_text resolve invalid_address c peer,
          failures-append es (Effect.closed Endpoint.local ∷ []),
        ),
      )

  All-IsHandled :
      (s : Service) (bs : List InboundConfig)
      → All (IsServed s.dialers s.relays) bs
      → All (IsHandled s) bs
  All-IsHandled s [] h = tt
  All-IsHandled s (b ∷ bs) (p, h) = (IsServed-IsHandled s b p, All-IsHandled s bs h)

  -- A connection to any inbound of a service that `New` made from a configuration is handled
  -- without a panic and counts at most one failure, whatever the clients, the upstreams and the
  -- targets do, where the lower case table of Unicode has its two properties and the Kboard URL
  -- has no white space in front of the slashes that end it.
  pub handle_connection-total :
      (laws : UnicodeLaws sys.unicode) (now : ℕ) (raw : Config) {s : Service}
      → KboardIsSettled sys laws raw.kboard
      → new_service sys now raw ≡ ok s
      → All (IsHandled s) s.cfg.inbounds
  handle_connection-total laws now raw {s} settled h =
      All-IsHandled s s.cfg.inbounds (new_service-IsServed sys laws now raw settled h)
