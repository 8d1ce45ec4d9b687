-- ===== src/Service/Run.antt =====
-- internal/node/service.go: how `Run` opens the listeners and what it returns. The goroutines that it
-- starts are those of Accept and Kboard.
pub mod Listeners
pub mod Ready
pub mod Closing
use knode.Prelude.{
  ℕ, ℤ, pos, ltb_ℤ, Bool, true, not, ◌||◌, Option, none, some, List, [], ◌∷◌, ◌++◌, Error, Result,
  ok, err, if◌then◌else◌,
}
use knode.Text.{Str, str_eq}
use knode.Config.{InboundConfig}
use knode.Config.Duration.{shutdown_grace_duration}
use knode.Config.System.{System}
use knode.Service.{System, Service, set_inbound_address, set_admin_address}

-- An open listener.
pub data Closer : Type 0 where
  inbound : Str → Closer
  admin : Closer

-- The listeners are open, or one could not be opened and those before it are closed.
pub data Listened : Type 0 where
  listening : Service → List Closer → Listened
  failed : Error → List Closer → Listened

-- The network's answer to a listen on an address is the address that it gave, or an error. It may depend
-- on the listeners that are open by then: a second listen on one address fails, and port 0 gives a
-- free port each time.
abbrev pub Listen : Type 0
Listen = List Closer → Str → Result Str

module _ (listen : Listen) where
  -- The loop over the inbounds.
  unfoldable pub listen_all : Service → List Closer → List InboundConfig → Listened
  listen_all s closers [] = Listened.listening s closers
  listen_all s closers (i ∷ rest) = elim (listen closers i.listen) [
    | err e ↦ Listened.failed (Error.wrap_name "listen inbound" i.name e) closers
    | ok address ↦
        listen_all (set_inbound_address s i.name address) (closers ++ (Closer.inbound i.name ∷ []))
          rest
  ]

  -- `startAdmin`, and the failure of `Run` without it.
  unfoldable pub start_admin : Service → List Closer → Listened
  start_admin s closers =
      if str_eq s.cfg.admin.address []
      then Listened.listening s closers
      else elim (listen closers s.cfg.admin.address) [
        | err e ↦ Listened.failed (Error.wrap "listen admin" e) closers
        | ok address ↦
            Listened.listening (set_admin_address s address) (closers ++ (Closer.admin ∷ []))
      ]

  -- `Run` up to its `select`.
  unfoldable pub start : Service → Listened
  start s = elim (listen_all s [] s.cfg.inbounds) [
    | Listened.failed e closers ↦ Listened.failed e closers
    | Listened.listening s' closers ↦ start_admin s' closers
  ]

-- What the `select` receives: the end of the context, or the error of a goroutine.
pub data Stop : Type 0 where
  cancelled deadline_exceeded : Stop
  broken : Error → Stop

-- The error that `acceptLoop` returns for one of `Accept`: `done` is `ctx.Err() != nil`, and
-- `closed` is `errors.Is(err, net.ErrClosed)`.
unfoldable pub accept_loop_error : Bool → Bool → Str → Error → Stop
accept_loop_error done closed name e =
    if done || closed then Stop.cancelled else Stop.broken (Error.wrap_name "inbound accept" name e)

-- What the goroutine of an inbound sends to `errCh`.
unfoldable pub sent_error : Stop → Option Error
sent_error Stop.cancelled = none
sent_error Stop.deadline_exceeded = some (Error.text "context deadline exceeded")
sent_error (Stop.broken e) = some e

-- `waitConnections`: whether the grace elapsed, where the connections finish at a time, or never. When
-- both come at once, the grace has elapsed.
unfoldable pub wait_connections : ℤ → Option ℕ → Bool
wait_connections grace none = true
wait_connections grace (some t) = not (ltb_ℤ (pos t) grace)

-- The return value after the shutdown.
unfoldable pub run_error : Stop → Option Error
run_error Stop.cancelled = none
run_error Stop.deadline_exceeded = none
run_error (Stop.broken e) = some e

-- What is left of a run: its error, the listeners that it closed, in order, and whether the grace of
-- the shutdown elapsed with connections open.
pub record RunOutcome : Type 0 where
  pub error : Option Error
  pub closed : List Closer
  pub elapsed : Bool

module _ (sys : System) (listen : Listen) where
  -- `Run`, where `stop` ends a service that could be started, and its connections finish at a time.
  unfoldable pub run_service : Stop → Option ℕ → Service → RunOutcome
  run_service stop finish s =
      let elapsed = wait_connections (shutdown_grace_duration sys s.cfg) finish in
      elim (start listen s) [
        | Listened.failed e closers ↦ record { error = some e; closed = closers; elapsed = elapsed }
        | Listened.listening s' closers ↦ record {
          error = run_error stop;
          closed = closers;
          elapsed = elapsed;
        }
      ]
