-- ===== src/Accept.antt =====
-- internal/node/service.go: `acceptLoop`, and the life of the goroutine that it starts for a
-- connection. The loops of all inbounds run at once: each constructor of `Step` is one of their
-- statements on shared state, in any order.
pub mod Gates
pub mod Limits
pub mod Drain
use knode.Prelude.{
  ℕ, ◌+◌, ◌-◌, ◌≡◌, List, [], ◌∷◌, ◌++◌, ltb, ◌==◌, if◌then◌else◌, ℤ, pos, negsuc, is_positive,
}
use knode.Metrics.{Metrics, new_metrics, begin_connection, end_connection, add_rejected}
use knode.Metrics.Counters.{Counter, apply}

-- Where the goroutine of a connection is: before `beginConnection`, in the handler, after
-- `endConnection`, and after the receive from the semaphore.
pub data Phase : Type 0 where
  spawned serving ended released : Phase

-- `inbound` is the index of its inbound in the configuration.
pub record Conn : Type 0 where
  pub inbound : ℕ
  pub phase : Phase

-- `held` is the number of tokens in the semaphore of an inbound, `waiting` the WaitGroup's counter.
pub record Node : Type 0 where
  pub metrics : Metrics
  pub held : ℕ → ℕ
  pub conns : List Conn
  pub waiting : ℕ

unfoldable pub new_node : ℕ → Node
new_node now = record { metrics = new_metrics now; held = λ i. 0; conns = []; waiting = 0 }

unfoldable pub set_held : ℕ → ℕ → (ℕ → ℕ) → ℕ → ℕ
set_held i v held j = if j == i then v else held j

-- The capacity of a semaphore.
unfoldable pub capacity : ℤ → ℕ
capacity (pos n) = n
capacity (negsuc n) = 0

-- `s.connections.Add(1); go func() { … }()`.
unfoldable pub spawn : ℕ → Node → Node
spawn i n = record n {
  conns = record { inbound = i; phase = Phase.spawned } ∷ n.conns;
  waiting = n.waiting + 1;
}

-- What the handler of a connection counts itself.
pub data IsReport : Counter → Type 0 where
  transport_error : IsReport Counter.transport_error
  handshake_error : IsReport Counter.handshake_error
  proxy_error : IsReport Counter.proxy_error
  up_bytes : (n : ℕ) → IsReport (Counter.up_bytes n)
  down_bytes : (n : ℕ) → IsReport (Counter.down_bytes n)

module _ (limits : ℕ → ℤ) where
  -- A round of the loop of inbound `i` after `Accept` returned a connection.
  unfoldable pub accept : ℕ → Node → Node
  accept i n =
      if is_positive (limits i)
      then if ltb (n.held i) (capacity (limits i))
        then spawn i (record n { held = set_held i (n.held i + 1) n.held })
        else record n { metrics = add_rejected n.metrics }
      else spawn i n

  -- The deferred `<-sem`, where there is a semaphore.
  unfoldable pub release : ℕ → (ℕ → ℕ) → ℕ → ℕ
  release i held = if is_positive (limits i) then set_held i (held i - 1) held else held

  -- The next statement of the goroutine of a connection that stands between `xs` and `ys`.
  unfoldable pub advance : Node → List Conn → Conn → List Conn → Node
  advance n xs c ys = elim c.phase [
    | Phase.spawned ↦ record n {
      metrics = begin_connection n.metrics;
      conns = xs ++ (record c { phase = Phase.serving } ∷ ys);
    }
    | Phase.serving ↦ record n {
      metrics = end_connection n.metrics;
      conns = xs ++ (record c { phase = Phase.ended } ∷ ys);
    }
    | Phase.ended ↦ record n {
      held = release c.inbound n.held;
      conns = xs ++ (record c { phase = Phase.released } ∷ ys);
    }
    | Phase.released ↦ record n { conns = xs ++ ys; waiting = n.waiting - 1 }
  ]

  pub data Step : Node → Node → Type 0 where
    accepted : (i : ℕ) (n : Node) → Step n (accept i n)
    moved :
        (n : Node) (xs : List Conn) (c : Conn) (ys : List Conn)
        → n.conns ≡ xs ++ (c ∷ ys)
        → Step n (advance n xs c ys)
    reported :
        (c : Counter) (n : Node) → IsReport c → Step n (record n { metrics = apply c n.metrics })

  pub data Reaches : Node → Node → Type 0 where
    here : (n : Node) → Reaches n n
    step : (a b c : Node) → Reaches a b → Step b c → Reaches a c
