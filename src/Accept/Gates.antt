-- ===== src/Accept/Gates.antt =====
-- internal/node/service.go: what holds between the connections, the semaphores, the WaitGroup and the
-- counters at every moment.
use knode.Prelude.{
  ℕ, ◌+◌, ◌-◌, ◌%◌, ◌≤◌, Bool, true, false, ◌&&◌, ◌≡◌, refl, ◌∙◌, List, [], ◌∷◌, ◌++◌, ◌==◌,
  if◌then◌else◌, ℤ, is_positive, length, length-append, arith,
}
use knode.Metrics.{
  Metrics, new_metrics, begin_connection, end_connection, add_rejected, add_u64,
  add_transport_error, add_handshake_error, add_proxy_error, add_up_bytes, add_down_bytes,
}
use knode.Metrics.Counters.{Counter, apply}
use knode.Accept.{
  Phase, Conn, Node, new_node, set_held, capacity, spawn, accept, release, advance, IsReport, Step,
  Reaches,
}

abbrev pub count_if : (Conn → Bool) → List Conn → ℕ
count_if p [] = 0
count_if p (c ∷ cs) = (if p c then 1 else 0) + count_if p cs

pub count_if-append :
    (p : Conn → Bool) (xs ys : List Conn) → count_if p (xs ++ ys) ≡ count_if p xs + count_if p ys
count_if-append p [] ys = omega arith
count_if-append p (x ∷ xs) ys = ground (arith, count_if-append p xs ys)

abbrev pub in_handler : Phase → Bool
in_handler Phase.serving = true
in_handler _ = false

abbrev pub is_serving : Conn → Bool
is_serving c = in_handler c.phase

abbrev pub is_holding : Phase → Bool
is_holding Phase.released = false
is_holding _ = true

-- The goroutine holds a token of the semaphore of inbound `i`, if this has one.
abbrev pub occupies : ℕ → Conn → Bool
occupies i c = (c.inbound == i) && is_holding c.phase

-- The tokens of inbound `i`, which has none without a limit.
abbrev pub tokens : (ℕ → ℤ) → ℕ → List Conn → ℕ
tokens limits i cs = if is_positive (limits i) then count_if (occupies i) cs else 0

-- The semaphores hold as many tokens as connections occupy them and never more than their capacity,
-- the active connections are those in the handler, and the WaitGroup counts the goroutines.
pub record IsSound (limits : ℕ → ℤ) (n : Node) : Type 0 where
  pub held : (i : ℕ) → n.held i ≡ tokens limits i n.conns
  pub bound : (i : ℕ) → n.held i ≤ capacity (limits i)
  pub active : n.metrics.active ≡ count_if is_serving n.conns % 18446744073709551616
  pub waiting : n.waiting ≡ length n.conns

abbrev pub at : ℕ → Phase → Conn
at i p = record { inbound = i; phase = p }

module _ (limits : ℕ → ℤ) where
  new_node-IsSound : (now : ℕ) → IsSound limits (new_node now)
  unfolding new_node new_metrics
  new_node-IsSound now = record {
    held = λ i. ground arith;
    bound = λ i. ground arith;
    active = refl;
    waiting = refl;
  }

  accept-IsSound : (i : ℕ) (n : Node) → IsSound limits n → IsSound limits (accept limits i n)
  unfolding accept spawn set_held add_rejected
  accept-IsSound i n s = record {
    held = λ j. ground (arith, s.held j);
    bound = λ j. ground (arith, s.bound j);
    active = ground (arith, s.active);
    waiting = ground (arith, s.waiting);
  }

  -- A connection `c` that becomes `d` keeps the node sound if the tokens and the active connections
  -- follow.
  replaced-IsSound :
      (n m : Node) (xs : List Conn) (c d : Conn) (ys : List Conn)
      → n.conns ≡ xs ++ (c ∷ ys)
      → m.conns ≡ xs ++ (d ∷ ys)
      → ((j : ℕ) → (m.held j + tokens limits j (c ∷ [])) ≡ (n.held j + tokens limits j (d ∷ [])))
      → ((j : ℕ) → m.held j ≤ n.held j)
      → m.metrics.active
        ≡ ((n.metrics.active + 18446744073709551616 + count_if is_serving (d ∷ []))
            - count_if is_serving (c ∷ []))
          % 18446744073709551616
      → m.waiting ≡ n.waiting
      → IsSound limits n
      → IsSound limits m
  replaced-IsSound n m xs c d ys e e' held le active waiting s = record {
    held = λ j. ground (
      arith,
      s.held j,
      held j,
      e,
      e',
      count_if-append (occupies j) xs (c ∷ ys),
      count_if-append (occupies j) xs (d ∷ ys),
    );
    bound = λ j. ground (arith, s.bound j, le j);
    active = ground (
      arith,
      s.active,
      e,
      e',
      count_if-append is_serving xs (c ∷ ys),
      count_if-append is_serving xs (d ∷ ys),
    );
    waiting =
        ground (arith, s.waiting, e, e', length-append xs (c ∷ ys), length-append xs (d ∷ ys));
  }

  removed-IsSound :
      (n m : Node) (xs : List Conn) (c : Conn) (ys : List Conn)
      → c.phase ≡ Phase.released
      → n.conns ≡ xs ++ (c ∷ ys)
      → m ≡ record n { conns = xs ++ ys; waiting = n.waiting - 1 }
      → IsSound limits n
      → IsSound limits m
  removed-IsSound n m xs c ys free e e' s = record {
    held = λ j. ground (
      arith,
      s.held j,
      e,
      e',
      count_if-append (occupies j) xs (c ∷ ys),
      count_if-append (occupies j) xs ys,
    );
    bound = λ j. ground (arith, s.bound j);
    active = ground (
      arith,
      s.active,
      e,
      e',
      count_if-append is_serving xs (c ∷ ys),
      count_if-append is_serving xs ys,
    );
    waiting = ground (arith, s.waiting, e, e', length-append xs (c ∷ ys), length-append xs ys);
  }

  advance_phase-IsSound :
      (n : Node) (xs : List Conn) (i : ℕ) (p : Phase) (ys : List Conn)
      → n.conns ≡ xs ++ (record { inbound = i; phase = p } ∷ ys)
      → IsSound limits n
      → IsSound limits (advance limits n xs (record { inbound = i; phase = p }) ys)
  unfolding advance release set_held begin_connection end_connection add_u64
  advance_phase-IsSound n xs i Phase.spawned ys e s =
      replaced-IsSound n (advance limits n xs (at i Phase.spawned) ys) xs (at i Phase.spawned)
        (at i Phase.serving) ys e refl (λ j. refl) (λ j. ground arith) (ground arith) refl s
  advance_phase-IsSound n xs i Phase.serving ys e s =
      replaced-IsSound n (advance limits n xs (at i Phase.serving) ys) xs (at i Phase.serving)
        (at i Phase.ended) ys e refl (λ j. refl) (λ j. ground arith) (ground arith) refl s
  advance_phase-IsSound n xs i Phase.ended ys e s =
      replaced-IsSound n (advance limits n xs (at i Phase.ended) ys) xs (at i Phase.ended)
        (at i Phase.released) ys e refl
        (λ j. ground (arith, s.held j, e, count_if-append (occupies j) xs (at i Phase.ended ∷ ys)))
        (λ j. ground arith) (ground arith) refl s
  advance_phase-IsSound n xs i Phase.released ys e s =
      removed-IsSound n (advance limits n xs (at i Phase.released) ys) xs (at i Phase.released) ys
        refl e refl s

  report-active : (c : Counter) (m : Metrics) → IsReport c → (apply c m).active ≡ m.active
  unfolding apply add_transport_error add_handshake_error add_proxy_error add_up_bytes
      add_down_bytes
  report-active c m IsReport.transport_error = refl
  report-active c m IsReport.handshake_error = refl
  report-active c m IsReport.proxy_error = refl
  report-active c m (IsReport.up_bytes k) = refl
  report-active c m (IsReport.down_bytes k) = refl

  Step-IsSound : {n m : Node} → Step limits n m → IsSound limits n → IsSound limits m
  Step-IsSound (Step.accepted i n) s = accept-IsSound i n s
  Step-IsSound (Step.moved n xs c ys e) s = advance_phase-IsSound n xs c.inbound c.phase ys e s
  Step-IsSound (Step.reported c n r) s = record {
    held = s.held;
    bound = s.bound;
    active = report-active c n.metrics r ∙ s.active;
    waiting = s.waiting;
  }

  Reaches-keeps : {n m : Node} → Reaches limits n m → IsSound limits n → IsSound limits m
  Reaches-keeps (Reaches.here n) s = s
  Reaches-keeps (Reaches.step a b c before last) s = Step-IsSound last (Reaches-keeps before s)

  -- At every moment after the start, whatever the loops and the connections do and in whatever order:
  -- a semaphore holds one token for each goroutine that occupies it and never more than the
  -- inbound's limit, the active connections are those in the handler (modulo 2^64), and the WaitGroup
  -- counts the goroutines.
  pub Reaches-IsSound : (now : ℕ) (n : Node) → Reaches limits (new_node now) n → IsSound limits n
  Reaches-IsSound now n r = Reaches-keeps r (new_node-IsSound now)
