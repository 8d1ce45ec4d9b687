-- ===== src/RelayProtocol.antt =====
-- internal/node/relay_protocol.go: the messages at the start of a relayed connection, over kray's
-- codec.
use knode.Prelude.{ℕ, ◌≡◌, [], ◌∷◌, Error, Result, ok, err, ◌>>=◌, if◌then◌else◌, arith}
use knode.Text.{Str, str_eq}
use knode.AccessLog.Item.{RelayTarget}
use knode.Relay.Effects.{Command, Request, ResponseStatus, Response, connect_response}

-- kray's `relay` package: what it writes is read back from a stream of messages.
pub record Codec : Type 1 where
  pub Wire : Type 0
  pub tcp_connect : Str → ℕ → Request
  pub write_request : Request → Wire
  pub read_request : Wire → Result Request
  pub write_response : Response → Wire
  pub read_response : Wire → Result Response

-- The reader of kray undoes its writer, and `TCPConnect` makes a request of that command.
pub record CodecLaws (codec : Codec) : Type 0 where
  pub request : (r : Request) → codec.read_request (codec.write_request r) ≡ ok r
  pub response : (r : Response) → codec.read_response (codec.write_response r) ≡ ok r
  pub command :
      (host : Str) (port : ℕ) → (codec.tcp_connect host port).command ≡ Command.tcp_connect
  pub address :
      (host : Str) (port : ℕ)
      → (codec.tcp_connect host port).address ≡ record { host = host; port = port }

module _ (codec : Codec) where
  open codec use {Wire}

  unfoldable pub write_connect_request : RelayTarget → Wire
  write_connect_request target = codec.write_request (codec.tcp_connect target.host target.port)

  unfoldable pub read_relay_request : Wire → Result Request
  read_relay_request w = codec.read_request w

  -- The address of a request for a TCP connection.
  unfoldable pub tcp_address : Request → Result RelayTarget
  tcp_address request = elim request.command [
    | Command.tcp_connect ↦ ok request.address
    | Command.udp_associate ↦ err (Error.text "unsupported relay command")
    | Command.other n ↦ err (Error.text "unsupported relay command")
  ]

  unfoldable pub read_connect_request : Wire → Result RelayTarget
  unfolding tcp_address
  read_connect_request w = do request ← codec.read_request w; tcp_address request

  unfoldable pub write_connect_response : Str → Wire
  write_connect_response text = codec.write_response (connect_response text)

  -- The outcome that a response stands for.
  unfoldable pub response_outcome : Response → Result (Unit {0})
  response_outcome r =
      let rejected : Result (Unit {0}) =
        if str_eq r.message []
        then err (Error.text "relay connection rejected")
        else err (Error.about "" r.message) in
      elim r.status [
        | ResponseStatus.status_ok ↦ ok tt
        | ResponseStatus.dial_failed ↦ rejected
        | ResponseStatus.unsupported_command ↦ rejected
        | ResponseStatus.other n ↦ rejected
      ]

  unfoldable pub read_connect_response : Wire → Result (Unit {0})
  unfolding response_outcome
  read_connect_response w = do response ← codec.read_response w; response_outcome response

  -- The target of a request is read back from it, where kray reads back what it writes.
  pub read_connect_request-write :
      (target : RelayTarget)
      → CodecLaws codec
      → read_connect_request (write_connect_request target) ≡ ok target
  unfolding read_connect_request write_connect_request tcp_address
  read_connect_request-write target laws =
      let r = codec.tcp_connect target.host target.port in
      ground (
        arith,
        laws.request r,
        laws.command target.host target.port,
        laws.address target.host target.port,
      )

  -- A response without an error text is read as a success, and one with a text as an error of this
  -- text, where kray reads back what it writes.
  pub read_connect_response-write :
      (text : Str)
      → CodecLaws codec
      → read_connect_response (write_connect_response text)
        ≡ (if str_eq text [] then ok tt else err (Error.about "" text))
  unfolding read_connect_response write_connect_response response_outcome connect_response str_eq
  read_connect_response-write [] laws = ground (arith, laws.response (connect_response []))
  read_connect_response-write (c ∷ text) laws =
      ground (arith, laws.response (connect_response (c ∷ text)))
