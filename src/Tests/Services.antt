-- ===== src/Tests/Services.antt =====
-- A service made from the small configuration, and its dialer.
use mathlib.Core.Path.{subst}
use knode.Prelude.{
  sym, arith, Bool-cases, inl, ◌++◌, List, ◌∷◌, [], ◌≡◌, refl, Bool, ℕ, Error, ok, All, ◌⊎◌, inr,
}
use knode.Text.{str_eq, Str}
use knode.Config.{InboundConfig}
use knode.AccessLog.Item.{RelayTarget}
use knode.Config.Handshake.{IsHandshakeConfig}
use knode.Config.Validate.Kless.{ClientConfig}
use knode.Dialer.{Network, dial}
use knode.Dialer.Stages.{IsDial, dial-IsDial}
use knode.Relay.Effects.{CopyError}
use knode.Service.Run.{Listen, Closer, Listened, listen_all, start_admin, start}
use knode.Service.Run.Listeners.{HaveAddresses}
use knode.Service.Run.Ready.{start-ready}
use knode.Service.{handle_ready, set_inbound_address, set_admin_address, Service, new_service}
use knode.Service.New.{new_service-total}
use knode.Service.Backends.{IsServed, new_service-IsServed}
use knode.Service.Connection.{IsHandled, handle_connection-total}
use knode.Tests.Fixtures.{system, config, plain_laws, upstream}
use knode.Tests.Configs.{checked, dialer, dialer-valid, config-valid, config_settled}

new_service-total_example : (s : Service) × (new_service system 0 config ≡ ok s) × (s.cfg ≡ checked)
new_service-total_example =
    new_service-total system plain_laws 0 config {c = checked} config_settled config-valid

abbrev pub built : (s : Service) × (new_service system 0 config ≡ ok s) × (s.cfg ≡ checked)
built = new_service-total system plain_laws 0 config {c = checked} config_settled config-valid

abbrev pub service : Service
service = built.0

new_service-IsServed_example : All (IsServed service.dialers service.relays) service.cfg.inbounds
new_service-IsServed_example =
    new_service-IsServed system plain_laws 0 config {s = service} config_settled built.1

-- A network whose dials give connection 7 and whose handshakes give connection 8.
abbrev pub network : Network
network = record {
  Conn = ℕ;
  TlsConfig = Str;
  split_host_port = λ s. ok s;
  request_hostname = λ s. ok s;
  tls_client = λ name skip roots. name;
  read_file = λ s. ok [];
  has_certificate = λ b. Bool.true;
  dial_tcp = λ t a. ok 7;
  dial_tls = λ t a c. ok 7;
  dial_http_upgrade = λ t a h c. ok 7;
  dial_web_socket = λ t a h c. ok 7;
  dial_http_stream = λ c u h. ok 7;
  dial_grpc = λ c u h. ok 7;
  dial_xhttp = λ c u h. ok 7;
  err_unsupported = Error.text "not supported";
  client_handshake = λ raw cfg. ok 8;
}

dial-IsDial_example :
    (cfg : ClientConfig) × IsHandshakeConfig system cfg
    × IsDial system network dialer cfg (dial system network dialer)
dial-IsDial_example = dial-IsDial system network upstream {d = dialer} dialer-valid

abbrev pub address_text : RelayTarget → Str
address_text target = target.host

abbrev pub resolve : Str → CopyError ⊎ Str
resolve host = inr host

abbrev pub invalid_address : CopyError
invalid_address = CopyError.other 1

handle_connection-total_example :
    All (IsHandled system network address_text resolve invalid_address service) service.cfg.inbounds
handle_connection-total_example =
    handle_connection-total system network address_text resolve invalid_address plain_laws 0 config
      {s = service} config_settled built.1

-- Every listen succeeds with the address that was asked for.
abbrev pub listen : Listen
listen closers address = ok address

-- A start that succeeds.
abbrev IsStarted : Listened → Type 0
IsStarted l = (s : Service) × (closers : List Closer) × (l ≡ Listened.listening s closers)

listen_all-IsStarted :
    (s : Service) (closers : List Closer) (bs : List InboundConfig)
    → IsStarted (listen_all listen s closers bs)
unfolding listen_all
listen_all-IsStarted s closers [] = (s, closers, refl)
listen_all-IsStarted s closers (i ∷ rest) =
    listen_all-IsStarted (set_inbound_address s i.name i.listen)
      (closers ++ (Closer.inbound i.name ∷ [])) rest

start_admin-IsStarted :
    (s : Service) (closers : List Closer) → IsStarted (start_admin listen s closers)
unfolding start_admin
start_admin-IsStarted s closers = elim (Bool-cases (str_eq s.cfg.admin.address [])) [
  | inl off ↦ rw off (s, closers, refl)
  | inr on ↦ rw on (set_admin_address s s.cfg.admin.address, closers ++ (Closer.admin ∷ []), refl)
]

start-IsStarted : (s : Service) → IsStarted (start listen s)
unfolding start
start-IsStarted s =
    let (s', closers, e) = listen_all-IsStarted s [] s.cfg.inbounds in
    let same : start listen s ≡ start_admin listen s' closers = ground arith in
    subst IsStarted (sym same) (start_admin-IsStarted s' closers)

abbrev started : IsStarted (start listen service)
started = start-IsStarted service

start-ready_example :
    (handle_ready started.0 ≡ 200) × HaveAddresses listen started.0 [] service.cfg.inbounds
start-ready_example =
    start-ready listen system plain_laws 0 config {s = service} {s' = started.0}
      {closers = started.1} config_settled built.1 started.2
