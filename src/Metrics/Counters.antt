-- ===== src/Metrics/Counters.antt =====
-- internal/node/metrics.go: the calls on the counters, as the other parts make them.
use knode.Prelude.{ℕ, List, [], ◌∷◌}
use knode.Metrics.{
  Metrics, begin_connection, end_connection, add_rejected, add_transport_error, add_handshake_error,
  add_proxy_error, add_up_bytes, add_down_bytes,
}

pub data Counter : Type 0 where
  begin end rejected transport_error handshake_error proxy_error : Counter
  up_bytes down_bytes : ℕ → Counter

unfoldable pub apply : Counter → Metrics → Metrics
unfolding begin_connection end_connection add_rejected add_transport_error add_handshake_error
    add_proxy_error add_up_bytes add_down_bytes
apply begin m = begin_connection m
apply end m = end_connection m
apply rejected m = add_rejected m
apply transport_error m = add_transport_error m
apply handshake_error m = add_handshake_error m
apply proxy_error m = add_proxy_error m
apply (up_bytes n) m = add_up_bytes m n
apply (down_bytes n) m = add_down_bytes m n

-- The calls that were made, the last one first.
unfoldable pub apply_all : List Counter → Metrics → Metrics
apply_all [] m = m
apply_all (c ∷ cs) m = apply c (apply_all cs m)
