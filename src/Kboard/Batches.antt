-- ===== src/Kboard/Batches.antt =====
-- internal/node/kboard.go: the ids of batches, and the payloads of the alive and traffic reports.
use knode.Prelude.{
  ℕ, ◌≡◌, refl, ap, ◌∙◌, sym, true, ◌&&◌, ◌↔◌, Bool-cases, inl, inr, [], ◌∷◌, ◌++◌, leb, is_empty,
  All, All-append, arith,
}
use knode.Text.{Str, lit, str_eq, trim_space}
use knode.Decimal.{decimal, value_from, value-decimal, decimal-IsDigits}
use knode.Kboard.{is_safe, safe_part, safe_batch_node_id, online_count}
use knode.Service.{Status}

-- The payload of `reportAlive`; what is read of the machine is given.
pub record AlivePayload : Type 0 where
  pub online : ℕ
  pub observed_at : ℕ
  pub backend_version : Str
  pub runtime : Str
  pub hostname : Str
  pub arch : Str

unfoldable pub alive_payload : Status → ℕ → Str → Str → Str → Str → AlivePayload
alive_payload status now backend runtime hostname arch = record {
  online = online_count status.metrics.active;
  observed_at = now;
  backend_version = backend;
  runtime = runtime;
  hostname = hostname;
  arch = arch;
}

-- The ids of `reportTraffic` and `reportAccessLogs`, at a time in nanoseconds.
unfoldable pub traffic_batch_id : Str → ℕ → Str
traffic_batch_id node_id nanos =
    lit "knode-" ++ (safe_batch_node_id node_id ++ (lit "-" ++ decimal nanos))

unfoldable pub access_batch_id : Str → ℕ → Str
access_batch_id node_id nanos =
    lit "knode-access-" ++ (safe_batch_node_id node_id ++ (lit "-" ++ decimal nanos))

abbrev pub IsSafe : Str → Type 0
IsSafe = All (λ r. is_safe r ≡ true)

safe_part-IsSafe : (s : Str) → IsSafe (safe_part s)
unfolding safe_part
safe_part-IsSafe [] = tt
safe_part-IsSafe (r ∷ s) = elim (Bool-cases (is_safe r)) [
  | inl safe ↦ rw safe (safe, safe_part-IsSafe s)
  | inr unsafe ↦ rw unsafe (safe_part-IsSafe s)
]

node-IsSafe : IsSafe (lit "node")
unfolding is_safe
node-IsSafe = (refl, (refl, (refl, (refl, tt))))

digit-is_safe : (c : ℕ) → (leb b'0' c && leb c b'9') ≡ true → is_safe c ≡ true
unfolding is_safe
digit-is_safe c h = ground arith

digits_IsSafe : (s : Str) → All (λ c. (leb b'0' c && leb c b'9') ≡ true) s → IsSafe s
digits_IsSafe [] h = tt
digits_IsSafe (c ∷ s) (p, h) = (digit-is_safe c p, digits_IsSafe s h)

safe_batch_node_id-IsSafe : (s : Str) → IsSafe (safe_batch_node_id s)
unfolding safe_batch_node_id
safe_batch_node_id-IsSafe s = elim (Bool-cases (str_eq (trim_space s) [])) [
  | inl blank ↦ rw blank node-IsSafe
  | inr named ↦ elim (Bool-cases (is_empty (safe_part (trim_space s)))) [
    | inl bare ↦ rw (named, bare) node-IsSafe
    | inr some_part ↦ rw (named, some_part) (safe_part-IsSafe (trim_space s))
  ]
]

-- The id after its prefix.
batch_tail-IsSafe :
    (node_id : Str) (nanos : ℕ) → IsSafe (safe_batch_node_id node_id ++ (lit "-" ++ decimal nanos))
unfolding is_safe
batch_tail-IsSafe node_id nanos =
    All-append (λ r. is_safe r ≡ true) (safe_batch_node_id node_id) (lit "-" ++ decimal nanos)
      (safe_batch_node_id-IsSafe node_id)
      (refl, digits_IsSafe (decimal nanos) (decimal-IsDigits nanos))

append-cancel : (s t u : Str) → s ++ t ≡ s ++ u → t ≡ u
append-cancel [] t u e = e
append-cancel (c ∷ s) t u e = ground (arith, append-cancel s t u)

decimal-injective : (m n : ℕ) → decimal m ≡ decimal n → m ≡ n
decimal-injective m n e = sym (value-decimal m) ∙ (ap (value_from 0) e ∙ value-decimal n)

-- The id of a traffic batch has only ASCII letters, digits, dashes and underscores, whatever the
-- node's name is, and two ids of a node are the same only for the same time.
pub traffic_batch_id_lem :
    (node_id : Str) (m n : ℕ)
    → IsSafe (traffic_batch_id node_id m)
      × ((traffic_batch_id node_id m ≡ traffic_batch_id node_id n) ↔ (m ≡ n))
unfolding traffic_batch_id is_safe
traffic_batch_id_lem node_id m n =
    let name = safe_batch_node_id node_id in
    (
      (refl, (refl, (refl, (refl, (refl, (refl, batch_tail-IsSafe node_id m)))))),
      (
        λ e. decimal-injective m n (
            append-cancel (lit "-") (decimal m) (decimal n) (
              append-cancel name (lit "-" ++ decimal m) (lit "-" ++ decimal n) (
                append-cancel (lit "knode-") (name ++ (lit "-" ++ decimal m))
                  (name ++ (lit "-" ++ decimal n)) e))),
        ap (traffic_batch_id node_id),
      ),
    )
