-- ===== src/Service/Admin.antt =====
-- internal/node/service.go: the handlers of the admin address. The JSON encoder is not modelled: a
-- body is the value that `writeJSON` encodes.
use knode.Prelude.{ℕ, Option, none, some, ◌==◌, if◌then◌else◌}
use knode.Text.{Str, lit, str_eq}
use knode.Metrics.{MetricsSnapshot, snapshot}
use knode.Service.{Service, Status, handle_ready, status}

pub data Body : Type 0 where
  status_text : Str → Body
  metrics : MetricsSnapshot → Body
  node_status : Status → Body

-- `writeJSON`.
pub record Written : Type 0 where
  pub code : ℕ
  pub body : Body

unfoldable pub handle_health : Written
handle_health = record { code = 200; body = Body.status_text (lit "ok") }

unfoldable pub write_ready : Service → Written
write_ready s = record {
  code = handle_ready s;
  body = Body.status_text (if handle_ready s == 200 then lit "ready" else lit "starting");
}

-- `Metrics`, and the handler of it.
unfoldable pub service_metrics : Service → ℕ → MetricsSnapshot
service_metrics s now = snapshot s.metrics now

unfoldable pub handle_metrics : Service → ℕ → Written
handle_metrics s now = record { code = 200; body = Body.metrics (service_metrics s now) }

unfoldable pub handle_status : Service → ℕ → Written
handle_status s now = record { code = 200; body = Body.node_status (status s now) }

-- `AdminAddress`.
unfoldable pub admin_address : Service → Str
admin_address s = s.admin_addr

-- The mux of `startAdmin`, for a path in the form that the mux brings it to; `none` is its answer 404.
unfoldable pub serve_admin : Service → ℕ → Str → Option Written
serve_admin s now path =
    if str_eq path (lit "/healthz")
    then some handle_health
    else if str_eq path (lit "/readyz")
    then some (write_ready s)
    else if str_eq path (lit "/metrics")
    then some (handle_metrics s now)
    else if str_eq path (lit "/status")
    then some (handle_status s now)
    else none
