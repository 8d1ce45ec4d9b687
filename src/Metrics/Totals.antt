-- ===== src/Metrics/Totals.antt =====
-- internal/node/metrics.go: what the counters hold after any sequence of calls.
use knode.Prelude.{ℕ, ◌+◌, ◌-◌, ◌%◌, ◌≤◌, ◌<◌, ◌≡◌, List, [], ◌∷◌, arith, pos}
use knode.Metrics.{
  new_metrics, Metrics, add_u64, int64_value, snapshot, begin_connection, end_connection,
  add_rejected, add_transport_error, add_handshake_error, add_proxy_error, add_up_bytes,
  add_down_bytes,
}
use knode.Metrics.Counters.{Counter, apply, apply_all}

-- The sum of what the calls add, by a weight.
abbrev pub sum_of : (Counter → ℕ) → List Counter → ℕ
sum_of w [] = 0
sum_of w (c ∷ cs) = w c + sum_of w cs

abbrev pub begins : Counter → ℕ
begins Counter.begin = 1
begins _ = 0

abbrev pub ends : Counter → ℕ
ends Counter.end = 1
ends _ = 0

abbrev pub rejections : Counter → ℕ
rejections Counter.rejected = 1
rejections _ = 0

abbrev pub transport_failures : Counter → ℕ
transport_failures Counter.transport_error = 1
transport_failures _ = 0

abbrev pub handshake_failures : Counter → ℕ
handshake_failures Counter.handshake_error = 1
handshake_failures _ = 0

abbrev pub proxy_failures : Counter → ℕ
proxy_failures Counter.proxy_error = 1
proxy_failures _ = 0

abbrev pub sent : Counter → ℕ
sent (Counter.up_bytes n) = n
sent _ = 0

abbrev pub received : Counter → ℕ
received (Counter.down_bytes n) = n
received _ = 0

-- Each counter is the sum of what the calls add to it, modulo 2^64. A connection that ended takes
-- one from the active connections.
pub record IsTally (cs : List Counter) (m : Metrics) : Type 0 where
  pub active :
      (m.active + sum_of ends cs) % 18446744073709551616 ≡ sum_of begins cs % 18446744073709551616
  pub active_bound : m.active < 18446744073709551616
  pub total : m.total ≡ sum_of begins cs % 18446744073709551616
  pub rejected : m.rejected ≡ sum_of rejections cs % 18446744073709551616
  pub transport_errs : m.transport_errs ≡ sum_of transport_failures cs % 18446744073709551616
  pub handshake_errs : m.handshake_errs ≡ sum_of handshake_failures cs % 18446744073709551616
  pub proxy_errs : m.proxy_errs ≡ sum_of proxy_failures cs % 18446744073709551616
  pub up_bytes : m.up_bytes ≡ sum_of sent cs % 18446744073709551616
  pub down_bytes : m.down_bytes ≡ sum_of received cs % 18446744073709551616

apply-IsTally :
    (c : Counter) (cs : List Counter) (m : Metrics) → IsTally cs m → IsTally (c ∷ cs) (apply c m)
unfolding apply begin_connection end_connection add_rejected add_transport_error add_handshake_error
    add_proxy_error add_up_bytes add_down_bytes add_u64
apply-IsTally Counter.begin cs m t = ground arith
apply-IsTally Counter.end cs m t = ground arith
apply-IsTally Counter.rejected cs m t = ground arith
apply-IsTally Counter.transport_error cs m t = ground arith
apply-IsTally Counter.handshake_error cs m t = ground arith
apply-IsTally Counter.proxy_error cs m t = ground arith
apply-IsTally (Counter.up_bytes n) cs m t = ground arith
apply-IsTally (Counter.down_bytes n) cs m t = ground arith

-- After any calls on fresh counters, in whatever order the connections made them, every counter is
-- the sum of what the calls add to it, modulo 2^64.
pub apply_all-IsTally : (cs : List Counter) (now : ℕ) → IsTally cs (apply_all cs (new_metrics now))
unfolding apply_all new_metrics
apply_all-IsTally [] now = ground arith
apply_all-IsTally (c ∷ cs) now =
    apply-IsTally c cs (apply_all cs (new_metrics now)) (apply_all-IsTally cs now)

-- The snapshot shows how many of the connections that began have not ended, when there are fewer than
-- 2^63 of these.
pub snapshot-active :
    (cs : List Counter) (start now : ℕ)
    → sum_of ends cs ≤ sum_of begins cs
    → sum_of begins cs - sum_of ends cs < 9223372036854775808
    → (snapshot (apply_all cs (new_metrics start)) now).active
      ≡ pos (sum_of begins cs - sum_of ends cs)
unfolding snapshot int64_value
snapshot-active cs start now le lt = ground (arith, apply_all-IsTally cs start)
