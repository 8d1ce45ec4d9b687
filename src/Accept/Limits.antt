-- ===== src/Accept/Limits.antt =====
-- internal/node/service.go: the limit of an inbound's connections, and what an idle node holds.
use knode.Prelude.{
  ℕ, ◌≤◌, ◌<◌, Bool-cases, ◌⊎◌, inl, inr, true, ◌&&◌, ◌≡◌, refl, List, [], ◌∷◌, ltb, ◌==◌, ℤ,
  is_positive, length, arith,
}
use knode.Metrics.{add_rejected}
use knode.Accept.{Phase, Conn, Node, new_node, capacity, spawn, accept, Reaches}
use knode.Accept.Gates.{count_if, is_serving, in_handler, is_holding, occupies, at, Reaches-IsSound}

pub length-zero : (cs : List Conn) → length cs ≡ 0 → cs ≡ []
length-zero [] h = refl
length-zero (c ∷ cs) h = ground arith

in_handler-is_holding : (p : Phase) → in_handler p ≡ true → is_holding p ≡ true
in_handler-is_holding Phase.spawned h = refl
in_handler-is_holding Phase.serving h = refl
in_handler-is_holding Phase.ended h = refl
in_handler-is_holding Phase.released h = cc

serving-occupies :
    (i : ℕ) (cs : List Conn)
    → count_if (λ c. (c.inbound == i) && is_serving c) cs ≤ count_if (occupies i) cs
serving-occupies i [] = omega arith
serving-occupies i (c ∷ cs) = ground (arith, in_handler-is_holding c.phase, serving-occupies i cs)

module _ (limits : ℕ → ℤ) where
  -- In every state that a node reaches, the connections of an inbound with a limit that are in the
  -- handler are no more than the limit.
  pub Reaches-limit :
      (now : ℕ) (n : Node) (i : ℕ)
      → Reaches limits (new_node now) n
      → is_positive (limits i) ≡ true
      → count_if (λ c. (c.inbound == i) && is_serving c) n.conns ≤ capacity (limits i)
  Reaches-limit now n i r limited =
      let s = Reaches-IsSound limits now n r in
      ground (arith, s.held i, s.bound i, serving-occupies i n.conns)

  -- A round of the loop of an inbound with a limit starts a goroutine when fewer than the limit occupy
  -- the semaphore, and otherwise, when exactly as many do, only counts a rejection.
  pub accept-by_room :
      (now : ℕ) (n : Node) (i : ℕ)
      → Reaches limits (new_node now) n
      → is_positive (limits i) ≡ true
      → ((count_if (occupies i) n.conns < capacity (limits i))
          × ((accept limits i n).conns ≡ at i Phase.spawned ∷ n.conns)
          × ((accept limits i n).metrics ≡ n.metrics))
        ⊎ (count_if (occupies i) n.conns ≡ capacity (limits i))
          × (accept limits i n ≡ record n { metrics = add_rejected n.metrics })
  unfolding accept spawn
  accept-by_room now n i r limited =
      let s = Reaches-IsSound limits now n r in
      elim (Bool-cases (ltb (n.held i) (capacity (limits i)))) [
        | inl room ↦ inl (ground (arith, s.held i), ground arith, ground arith)
        | inr full ↦ inr (ground (arith, s.held i, s.bound i), ground arith)
      ]

  -- When the WaitGroup's counter is zero, no connection is active and every semaphore is empty.
  pub idle-of_waiting :
      (now : ℕ) (n : Node)
      → Reaches limits (new_node now) n
      → n.waiting ≡ 0
      → (n.conns ≡ []) × (n.metrics.active ≡ 0) × ((i : ℕ) → n.held i ≡ 0)
  idle-of_waiting now n r none_left =
      let s = Reaches-IsSound limits now n r in
      let e = length-zero n.conns (ground (arith, s.waiting)) in
      (e, ground (arith, s.active), λ i. ground (arith, s.held i))
