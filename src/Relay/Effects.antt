-- ===== src/Relay/Effects.antt =====
-- What the handlers of connections do to the rest of the node and to their peers, in the order in
-- which they do it. The calls of sockets and of kray answer from outside and are values here.
use knode.Prelude.{ℕ, Bool, if◌then◌else◌, Option, none, some, List, [], ◌∷◌}
use knode.Text.{Str}
use knode.Metrics.Counters.{Counter}
use knode.AccessLog.Item.{RelayTarget, AccessLogItem}

-- The commands that `Handle` tells apart.
pub data Command : Type 0 where
  tcp_connect udp_associate : Command
  other : ℕ → Command

pub record Request : Type 0 where
  pub command : Command
  pub address : RelayTarget

pub data ResponseStatus : Type 0 where
  status_ok dial_failed unsupported_command : ResponseStatus
  other : ℕ → ResponseStatus

pub record Response : Type 0 where
  pub status : ResponseStatus
  pub message : Str

-- The connections that a handler holds.
pub data Endpoint : Type 0 where
  local secure upstream udp : Endpoint

pub data Effect : Type 0 where
  counted : Counter → Effect
  recorded : AccessLogItem → Effect
  responded : Response → Effect
  closed : Endpoint → Effect

-- `writeConnectResponse`: what it writes.
unfoldable pub connect_response : Str → Response
connect_response [] = record { status = ResponseStatus.status_ok; message = [] }
connect_response (c ∷ text) = record { status = ResponseStatus.dial_failed; message = c ∷ text }

-- The errors that `normalizeCopyError` tells apart, also inside other errors.
pub data CopyError : Type 0 where
  eof net_closed : CopyError
  other : ℕ → CopyError

unfoldable pub normalize_copy_error : Option CopyError → Option CopyError
normalize_copy_error none = none
normalize_copy_error (some CopyError.eof) = none
normalize_copy_error (some CopyError.net_closed) = none
normalize_copy_error (some (CopyError.other e)) = some (CopyError.other e)

-- The result of `io.Copy`.
pub record Copied : Type 0 where
  pub bytes : ℕ
  pub error : Option CopyError

-- The first error of two.
unfoldable pub first_error : Option CopyError → Option CopyError → Option CopyError
first_error (some e) second = some e
first_error none second = second

-- `if err != nil { addProxyError() }`.
unfoldable pub proxy_error_of : Option CopyError → List Effect
proxy_error_of none = []
proxy_error_of (some e) = Effect.counted Counter.proxy_error ∷ []

-- The two directions of a pipe; `up_first` when the copy to the upstream ends first. The first end
-- closes both connections, which ends the other copy.
pub record Piped : Type 0 where
  pub up : Copied
  pub down : Copied
  pub up_first : Bool

-- The effects of a pipe between `near` and the upstream, the copies ending in this order. (The second
-- copy may also end before the closes, which changes no sum.)
abbrev pipe_effects : Counter → Endpoint → Counter → List Effect
pipe_effects first near second =
    Effect.counted first
    ∷ (Effect.closed Endpoint.upstream ∷ (Effect.closed near ∷ (Effect.counted second ∷ [])))

-- `pipe` of the service and of the relay: its effects, and the error that it returns.
unfoldable pub pipe : Piped → Endpoint → List Effect × Option CopyError
pipe p near =
    let up = Counter.up_bytes p.up.bytes in
    let down = Counter.down_bytes p.down.bytes in
    let up_error = normalize_copy_error p.up.error in
    let down_error = normalize_copy_error p.down.error in
    if p.up_first
    then (pipe_effects up near down, first_error up_error down_error)
    else (pipe_effects down near up, first_error down_error up_error)
