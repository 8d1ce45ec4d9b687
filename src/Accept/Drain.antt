-- ===== src/Accept/Drain.antt =====
-- internal/node/service.go: without new connections, those that are there come to their end.
use knode.Prelude.{
  ℕ, zero, suc, ◌+◌, ◌≤◌, ◌⊎◌, inl, inr, ◌≡◌, refl, ap, ◌∙◌, List, [], ◌∷◌, ◌++◌, ℤ, length, arith,
}
use knode.Accept.{Phase, Conn, Node, new_node, advance, Step, Reaches}
use knode.Accept.Gates.{Reaches-IsSound, at}
use knode.Accept.Limits.{idle-of_waiting}

-- The statements that a goroutine still has to run.
abbrev pub remaining : Phase → ℕ
remaining Phase.spawned = 4
remaining Phase.serving = 3
remaining Phase.ended = 2
remaining Phase.released = 1

abbrev pub work : List Conn → ℕ
work [] = 0
work (c ∷ cs) = remaining c.phase + work cs

work-append : (xs ys : List Conn) → work (xs ++ ys) ≡ work xs + work ys
work-append [] ys = omega arith
work-append (x ∷ xs) ys = ground (arith, work-append xs ys)

remaining-positive : (p : Phase) → 1 ≤ remaining p
remaining-positive Phase.spawned = omega arith
remaining-positive Phase.serving = omega arith
remaining-positive Phase.ended = omega arith
remaining-positive Phase.released = omega arith

conns-cases : (cs : List Conn) → (cs ≡ []) ⊎ ((c : Conn) × (ys : List Conn) × (cs ≡ c ∷ ys))
conns-cases [] = inl refl
conns-cases (c ∷ cs) = inr (c, cs, refl)

work-zero : (cs : List Conn) → work cs ≡ 0 → cs ≡ []
work-zero [] h = refl
work-zero (c ∷ cs) h = ground (arith, remaining-positive c.phase)

module _ (limits : ℕ → ℤ) where
  -- `k` statements of the goroutines, in any order, with no new connection.
  pub data Moves : ℕ → Node → Node → Type 0 where
    none_left : (n : Node) → Moves 0 n n
    move :
        (k : ℕ) (n : Node) (xs : List Conn) (c : Conn) (ys : List Conn) (m : Node)
        → n.conns ≡ xs ++ (c ∷ ys)
        → Moves k (advance limits n xs c ys) m
        → Moves (suc k) n m

  advance-work :
      (n : Node) (xs : List Conn) (i : ℕ) (p : Phase) (ys : List Conn)
      → n.conns ≡ xs ++ (at i p ∷ ys)
      → suc (work (advance limits n xs (at i p) ys).conns) ≡ work n.conns
  unfolding advance
  advance-work n xs i Phase.spawned ys e =
      ground (
        arith,
        e,
        work-append xs (at i Phase.spawned ∷ ys),
        work-append xs (at i Phase.serving ∷ ys),
      )
  advance-work n xs i Phase.serving ys e =
      ground
        (arith, e, work-append xs (at i Phase.serving ∷ ys), work-append xs (at i Phase.ended ∷ ys))
  advance-work n xs i Phase.ended ys e =
      ground (
        arith,
        e,
        work-append xs (at i Phase.ended ∷ ys),
        work-append xs (at i Phase.released ∷ ys),
      )
  advance-work n xs i Phase.released ys e =
      ground (arith, e, work-append xs (at i Phase.released ∷ ys), work-append xs ys)

  -- Every order of the statements takes the same number of them.
  Moves-work : {k : ℕ} {n m : Node} → Moves k n m → k + work m.conns ≡ work n.conns
  Moves-work (Moves.none_left n) = omega arith
  Moves-work (Moves.move k n xs c ys m e more) =
      ground (arith, advance-work n xs c.inbound c.phase ys e, Moves-work more)

  Moves-Reaches :
      (start : Node) {k : ℕ} {n m : Node}
      → Reaches limits start n
      → Moves k n m
      → Reaches limits start m
  Moves-Reaches start r (Moves.none_left n) = r
  Moves-Reaches start r (Moves.move k n xs c ys m e more) =
      Moves-Reaches start
        (Reaches.step start n (advance limits n xs c ys) r (Step.moved n xs c ys e)) more

  -- The goroutines can always go on until none is left.
  finish : (k : ℕ) (n : Node) → work n.conns ≡ k → (m : Node) × Moves k n m
  finish zero n e = (n, Moves.none_left n)
  finish (suc k) n e = elim (conns-cases n.conns) [
    | inl none ↦ cc (e, ap work none)
    | inr (c, ys, some) ↦
        let (m, moves) =
          finish k (advance limits n [] c ys)
            (ground (arith, advance-work n [] c.inbound c.phase ys some)) in
        (m, Moves.move k n [] c ys m some moves)
  ]

  -- With no new connection, the goroutines of a node run no more statements than they have left, in
  -- whatever order.
  pub Moves-bound : (k : ℕ) (n m : Node) → Moves k n m → k ≤ work n.conns
  Moves-bound k n m moves = ground (arith, Moves-work moves)

  -- With no new connection, the goroutines of a node can run all statements that they have left; then
  -- the WaitGroup's counter is zero, no connection is active and every semaphore is empty.
  pub Reaches-drains :
      (now : ℕ) (n : Node)
      → Reaches limits (new_node now) n
      → (m : Node) × Moves (work n.conns) n m
        × (m.waiting ≡ 0)
        × (m.metrics.active ≡ 0)
        × ((i : ℕ) → m.held i ≡ 0)
  Reaches-drains now n r =
      let (m, moves) = finish (work n.conns) n refl in
      let reached = Moves-Reaches (new_node now) r moves in
      let s = Reaches-IsSound limits now m reached in
      let none : m.conns ≡ [] = work-zero m.conns (ground (arith, Moves-work moves)) in
      let zero_waiting : m.waiting ≡ 0 = s.waiting ∙ ap length none in
      let (_, active, held) = idle-of_waiting limits now m reached zero_waiting in
      (m, moves, zero_waiting, active, held)
