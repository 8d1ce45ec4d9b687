-- ===== src/Relay/Handle.antt =====
-- internal/node/server_relay.go: `Handle` and its two commands. What the calls to the outside answered
-- is an argument; the effects come in the order of the code, deferred closes last.
pub mod Reports
use knode.Prelude.{Bool, Option, none, some, List, [], ◌∷◌, ◌++◌, if◌then◌else◌, ◌⊎◌}
use knode.Text.{Str, lit}
use knode.Metrics.Counters.{Counter}
use knode.AccessLog.Item.{RelayTarget}
use knode.Relay.Effects.{
  Command, Request, ResponseStatus, Endpoint, Effect, CopyError, connect_response, first_error,
  proxy_error_of, Piped, pipe,
}
use knode.Relay.Udp.{Moment, Client, client_item, Incoming, Packet, Ended, up_loop, down_loop}

-- What ends a UDP association: its context, or one of its loops.
pub data UdpEnd : Type 0 where
  cancelled up_ended down_ended : UdpEnd

-- What the outside answers during one connection, from its start to its end.
pub record Peer : Type 0 where
  -- The client ID of a successful handshake, and the request, if they came.
  pub handshake : Option Str
  pub request : Option Request
  -- The moment at which `handleTCPConnect` makes its item.
  pub moment : Moment
  -- The text of the error of the dial, and of `net.ListenPacket`.
  pub dial_error : Option Str
  pub listen_error : Option Str
  pub response_fails : Bool
  pub piped : Piped
  -- The traffic of a UDP association, and what ended it.
  pub incoming : List Incoming
  pub packets : List Packet
  pub udp_end : UdpEnd

-- The error of a loop. One that was running when the connections were closed ends with
-- `net.ErrClosed`, which is no error.
unfoldable pub ended_error : Ended → Option CopyError
ended_error Ended.running = none
ended_error (Ended.ended e) = e

-- The return value of `pipeUDPAssociate`.
unfoldable pub udp_result : UdpEnd → Ended → Ended → Option CopyError
unfolding ended_error
udp_result UdpEnd.cancelled up down = none
udp_result UdpEnd.up_ended up down = first_error (ended_error up) (ended_error down)
udp_result UdpEnd.down_ended up down = first_error (ended_error down) (ended_error up)

-- `handleTCPConnect` after the dial: the response, the pipe and the deferred close.
unfoldable pub serve_tcp : Peer → List Effect
serve_tcp peer =
    if peer.response_fails
    then Effect.counted Counter.proxy_error ∷ []
    else (let (effects, error) = pipe peer.piped Endpoint.secure in effects ++ proxy_error_of error)

-- `handleTCPConnect`: the item for the access log, which comes before the dial, and the rest.
unfoldable pub tcp_access : Client → Peer → RelayTarget → List Effect
tcp_access c peer target =
    if c.has_access then Effect.recorded (client_item c peer.moment target (lit "tcp")) ∷ [] else []

unfoldable pub dial_target : Peer → List Effect
dial_target peer = elim peer.dial_error [
  | some text ↦
      Effect.counted Counter.transport_error ∷ (Effect.responded (connect_response text) ∷ [])
  | none ↦
      Effect.responded (connect_response [])
      ∷ (serve_tcp peer ++ (Effect.closed Endpoint.upstream ∷ []))
]

unfoldable pub handle_tcp_connect : Client → Peer → RelayTarget → List Effect
handle_tcp_connect c peer target = tcp_access c peer target ++ dial_target peer

module _ {Addr : Type 0} (address_text : RelayTarget → Str) (resolve : Str → CopyError ⊎ Addr)
    (invalid_address : CopyError) where
  -- `pipeUDPAssociate`: the effects of its loops, whose order among each other is open, the closes,
  -- and what it returns.
  unfoldable pub pipe_udp_associate : Client → Peer → List Effect × Option CopyError
  pipe_udp_associate c peer =
      let up = up_loop address_text resolve invalid_address c [] peer.incoming in
      let down = down_loop peer.packets in
      (
        up.0 ++ (down.0 ++ (Effect.closed Endpoint.udp ∷ (Effect.closed Endpoint.secure ∷ []))),
        udp_result peer.udp_end up.1 down.1,
      )

  -- `handleUDPAssociate` after its listen.
  unfoldable pub serve_udp : Client → Peer → List Effect
  serve_udp c peer =
      if peer.response_fails
      then Effect.counted Counter.proxy_error ∷ []
      else (let (effects, error) = pipe_udp_associate c peer in effects ++ proxy_error_of error)

  unfoldable pub handle_udp_associate : Client → Peer → List Effect
  handle_udp_associate c peer = elim peer.listen_error [
    | some text ↦
        Effect.counted Counter.transport_error
        ∷ (Effect.responded (record { status = ResponseStatus.dial_failed; message = text }) ∷ [])
    | none ↦
        Effect.responded (record { status = ResponseStatus.status_ok; message = [] })
        ∷ (serve_udp c peer ++ (Effect.closed Endpoint.udp ∷ []))
  ]

  unfoldable pub handle_command : Client → Peer → Request → List Effect
  handle_command c peer request = elim request.command [
    | Command.tcp_connect ↦ handle_tcp_connect c peer request.address
    | Command.udp_associate ↦ handle_udp_associate c peer
    | Command.other n ↦
        Effect.counted Counter.proxy_error
        ∷ (Effect.responded (record {
          status = ResponseStatus.unsupported_command;
          message = lit "unsupported relay command";
        })
            ∷ [])
  ]

  -- `Handle` after the handshake, which named the client.
  unfoldable pub serve : Client → Peer → List Effect
  serve c peer = elim peer.request [
    | none ↦ Effect.counted Counter.proxy_error ∷ []
    | some request ↦ handle_command c peer request
  ]

  unfoldable pub handle : Client → Peer → List Effect
  handle c peer = elim peer.handshake [
    | none ↦ Effect.counted Counter.handshake_error ∷ []
    | some id ↦ serve (record c { client_id = id }) peer ++ (Effect.closed Endpoint.secure ∷ [])
  ]
