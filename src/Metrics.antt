-- ===== src/Metrics.antt =====
-- internal/node/metrics.go: the counters. An `atomic.Uint64` is a number below 2^64 and its additions
-- wrap; the `atomic.Int64` is kept as its bit pattern. Every method is one atomic step per counter.
pub mod Counters
pub mod Totals
pub mod Order
use knode.Prelude.{ℕ, ◌+◌, ◌-◌, ◌%◌, ◌/◌, ltb, if◌then◌else◌, ℤ, pos, negsuc}

abbrev pub u64_mod : ℕ
u64_mod = 18446744073709551616

abbrev pub i64_limit : ℕ
i64_limit = 9223372036854775808

-- `Add` on a 64-bit counter.
unfoldable pub add_u64 : ℕ → ℕ → ℕ
add_u64 a b = (a + b) % u64_mod

-- The integer that a 64-bit pattern stands for.
unfoldable pub int64_value : ℕ → ℤ
int64_value n = if ltb n i64_limit then pos n else negsuc (u64_mod - 1 - n)

pub record Metrics : Type 0 where
  pub started_at : ℕ
  pub active : ℕ
  pub total : ℕ
  pub rejected : ℕ
  pub transport_errs : ℕ
  pub handshake_errs : ℕ
  pub proxy_errs : ℕ
  pub up_bytes : ℕ
  pub down_bytes : ℕ

pub record MetricsSnapshot : Type 0 where
  pub started_at : ℕ
  pub uptime_seconds : ℕ
  pub active : ℤ
  pub total : ℕ
  pub rejected : ℕ
  pub transport_errors : ℕ
  pub handshake_errors : ℕ
  pub proxy_errors : ℕ
  pub upstream_bytes : ℕ
  pub downstream_bytes : ℕ

-- Times are nanoseconds of a clock that does not run backwards.
unfoldable pub new_metrics : ℕ → Metrics
new_metrics now = record {
  started_at = now;
  active = 0;
  total = 0;
  rejected = 0;
  transport_errs = 0;
  handshake_errs = 0;
  proxy_errs = 0;
  up_bytes = 0;
  down_bytes = 0;
}

unfoldable pub snapshot : Metrics → ℕ → MetricsSnapshot
snapshot m now = record {
  started_at = m.started_at;
  uptime_seconds = (now - m.started_at) / 1_000_000_000;
  active = int64_value m.active;
  total = m.total;
  rejected = m.rejected;
  transport_errors = m.transport_errs;
  handshake_errors = m.handshake_errs;
  proxy_errors = m.proxy_errs;
  upstream_bytes = m.up_bytes;
  downstream_bytes = m.down_bytes;
}

unfoldable pub begin_connection : Metrics → Metrics
begin_connection m = record m { active = add_u64 m.active 1; total = add_u64 m.total 1 }

-- `Add(-1)`: the pattern of -1 is 2^64 - 1.
unfoldable pub end_connection : Metrics → Metrics
end_connection m = record m { active = add_u64 m.active (u64_mod - 1) }

unfoldable pub add_rejected : Metrics → Metrics
add_rejected m = record m { rejected = add_u64 m.rejected 1 }

unfoldable pub add_transport_error : Metrics → Metrics
add_transport_error m = record m { transport_errs = add_u64 m.transport_errs 1 }

unfoldable pub add_handshake_error : Metrics → Metrics
add_handshake_error m = record m { handshake_errs = add_u64 m.handshake_errs 1 }

unfoldable pub add_proxy_error : Metrics → Metrics
add_proxy_error m = record m { proxy_errs = add_u64 m.proxy_errs 1 }

unfoldable pub add_up_bytes : Metrics → ℕ → Metrics
add_up_bytes m n = record m { up_bytes = add_u64 m.up_bytes n }

unfoldable pub add_down_bytes : Metrics → ℕ → Metrics
add_down_bytes m n = record m { down_bytes = add_u64 m.down_bytes n }
