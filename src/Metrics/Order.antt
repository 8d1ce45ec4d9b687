-- ===== src/Metrics/Order.antt =====
-- internal/node/metrics.go: the counters do not depend on how the goroutines interleave.
use mathlib.Core.Logic.{∥∥₁_elim}
use mathlib.Core.List.{Perm, Permᴰ}
use knode.Prelude.{ℕ, ◌≡◌, refl, ap, ◌∙◌, List, arith}
use knode.Metrics.{
  Metrics, snapshot, add_u64, begin_connection, end_connection, add_rejected, add_transport_error,
  add_handshake_error, add_proxy_error, add_up_bytes, add_down_bytes,
}
use knode.Metrics.Counters.{Counter, apply, apply_all}

-- Two calls may be swapped.
apply_comm : (c d : Counter) (m : Metrics) → apply c (apply d m) ≡ apply d (apply c m)
unfolding apply begin_connection end_connection add_rejected add_transport_error add_handshake_error
    add_proxy_error add_up_bytes add_down_bytes add_u64
apply_comm Counter.begin d m = ground arith
apply_comm Counter.end d m = ground arith
apply_comm Counter.rejected d m = ground arith
apply_comm Counter.transport_error d m = ground arith
apply_comm Counter.handshake_error d m = ground arith
apply_comm Counter.proxy_error d m = ground arith
apply_comm (Counter.up_bytes n) d m = ground arith
apply_comm (Counter.down_bytes n) d m = ground arith

apply_all_of_perm :
    {cs ds : List Counter} → Permᴰ cs ds → (m : Metrics) → apply_all cs m ≡ apply_all ds m
unfolding apply_all
apply_all_of_perm Permᴰ.nil m = refl
apply_all_of_perm (Permᴰ.cons e p) m = λ i. apply (e i) (apply_all_of_perm p m i)
apply_all_of_perm (Permᴰ.swap {a} {b} {l = l} e f) m =
    apply_comm a b (apply_all l m) ∙ (λ i. apply (f i) (apply (e i) (apply_all l m)))
apply_all_of_perm (Permᴰ.trans p q) m = apply_all_of_perm p m ∙ apply_all_of_perm q m

Metrics-set : IsSet Metrics
Metrics-set = hlevel

-- However the goroutines interleave, the counters end up the same: two sequences of the same calls,
-- each of them as often, take any counters to the same counters, and so any two snapshots of them at
-- one time are the same.
pub apply_all-perm :
    {cs ds : List Counter}
    → Perm cs ds
    → (m : Metrics) (now : ℕ)
    → (apply_all cs m ≡ apply_all ds m)
      × (snapshot (apply_all cs m) now ≡ snapshot (apply_all ds m) now)
apply_all-perm p m now =
    let same = ∥∥₁_elim p (Metrics-set _ _) (λ d. apply_all_of_perm d m) in
    (same, ap (λ x. snapshot x now) same)
