-- ===== src/Config/Duration.antt =====
-- internal/config/config.go: `parseDuration` and the accessors that read a duration of a
-- configuration, in nanoseconds.
use knode.Prelude.{[], if◌then◌else◌, ℤ, pos, is_positive, not, Error, Result, ok, err}
use knode.Text.{Str, str_eq}
use knode.Config.{Config, KboardConfig, UpstreamConfig, ServerKlessConfig}
use knode.Config.System.{System}

-- `10 * time.Second`, the default of three settings.
abbrev pub default_dial_timeout : ℤ
default_dial_timeout = pos 10_000_000_000

abbrev pub default_handshake_timeout : ℤ
default_handshake_timeout = pos 10_000_000_000

abbrev pub default_shutdown_grace : ℤ
default_shutdown_grace = pos 10_000_000_000

abbrev pub default_report_interval : ℤ
default_report_interval = pos 30_000_000_000

abbrev pub default_users_refresh : ℤ
default_users_refresh = pos 300_000_000_000

-- `d, _ := …`: the value that comes with an error is 0.
abbrev pub value_or_zero : Result ℤ → ℤ
value_or_zero (ok d) = d
value_or_zero (err e) = pos 0

module _ (sys : System) where
  unfoldable pub parse_duration : Str → ℤ → Result ℤ
  parse_duration text fallback =
      if str_eq text [] then ok fallback else elim (sys.parse_duration text) [
        | err e ↦ err e
        | ok d ↦ if not (is_positive d) then err (Error.text "must be positive") else ok d
      ]

  unfoldable pub report_interval_duration : KboardConfig → ℤ
  unfolding parse_duration
  report_interval_duration k =
      value_or_zero (parse_duration k.report_interval default_report_interval)

  unfoldable pub shutdown_grace_duration : Config → ℤ
  unfolding parse_duration
  shutdown_grace_duration c = value_or_zero (parse_duration c.shutdown_grace default_shutdown_grace)

  unfoldable pub dial_timeout_duration : UpstreamConfig → ℤ
  unfolding parse_duration
  dial_timeout_duration u = value_or_zero (parse_duration u.dial_timeout default_dial_timeout)

  unfoldable pub handshake_timeout_duration : ServerKlessConfig → ℤ
  unfolding parse_duration
  handshake_timeout_duration k =
      value_or_zero (parse_duration k.handshake_timeout default_handshake_timeout)

  unfoldable pub max_handshake_skew_duration : ServerKlessConfig → ℤ
  unfolding parse_duration
  max_handshake_skew_duration k =
      value_or_zero (parse_duration k.max_handshake_skew sys.kless.default_handshake_skew)

  unfoldable pub users_refresh_interval_duration : ServerKlessConfig → ℤ
  unfolding parse_duration
  users_refresh_interval_duration k =
      value_or_zero (parse_duration k.users_refresh_interval default_users_refresh)
