-- ===== src/AccessLog/Fifo.antt =====
-- The queue of internal/node/access_log.go is first in, first out, and a batch that is put back
-- after a failed report loses nothing that was queued before it.
use knode.Prelude.{
  ℕ, zero, suc, ◌+◌, ◌-◌, ◌≤◌, ◌<◌, ◌≡◌, refl, ap, List, [], ◌∷◌, ◌++◌, Option, some, arith, pos,
  length, length-append, length-take, leb, take, take-append-drop, take_of_length-le, take-append,
  append_assoc, append-nil, if◌then◌else◌, Bool-cases, inl, inr, sym, ◌∙◌, ◌≡⟨◌⟩◌, ◌∎, take-take,
  min,
}
use knode.Text.{str_eq, trim_space}
use knode.AccessLog.{AccessLogBuffer, max_queue_size, record_item, drain_some, drain, restore}
use knode.AccessLog.Item.{AccessLogItem}

-- The items with a domain: the others are refused.
unfoldable pub valid_items : List AccessLogItem → List AccessLogItem
valid_items [] = []
valid_items (i ∷ is) =
    if str_eq (trim_space i.domain) [] then valid_items is else i ∷ valid_items is

-- Record, once for each item.
pub record_all : Option AccessLogBuffer → List AccessLogItem → Option AccessLogBuffer
record_all b [] = b
record_all b (i ∷ is) = record_all (record_item b i).0 is

-- One step of the room left by the queue.
take_room :
    (n k : ℕ) {i : AccessLogItem} (is : List AccessLogItem)
    → k < n
    → take (n - k) (i ∷ is) ≡ i ∷ take (n - suc k) is
take_room n k is h = let e : n - k ≡ suc (n - suc k) = omega arith in rw e

take-nil : (n : ℕ) → take {A = AccessLogItem} n [] ≡ []
take-nil zero = refl
take-nil (suc n) = refl

take_no_room : (n k : ℕ) (is : List AccessLogItem) → n ≤ k → take (n - k) is ≡ []
take_no_room n k is h = let e : n - k ≡ 0 = omega arith in rw e

-- Items recorded in a row end up behind a queue of at most 10000 items in their order, up to this
-- limit: the first ones that fit are kept and the later ones dropped, and items without a domain
-- are refused.
pub record_all-eq-append :
    (q is : List AccessLogItem)
    → length q ≤ max_queue_size
    → record_all (some (record { items = q })) is
      ≡ some (record { items = q ++ take (max_queue_size - length q) (valid_items is) })
unfolding record_all valid_items record_item
record_all-eq-append q [] h = let e = take-nil (max_queue_size - length q) in rw (e, append-nil)
record_all-eq-append q (i ∷ is) h = elim (Bool-cases (str_eq (trim_space i.domain) [])) [
  | inl bad ↦ rw (bad, record_all, valid_items) (record_all-eq-append q is h)
  | inr good ↦ elim (Bool-cases (leb max_queue_size (length q))) [
    | inl full ↦ ground (
      arith,
      record_all-eq-append q is h,
      take_no_room max_queue_size (length q) (valid_items is),
      take_no_room max_queue_size (length q) (i ∷ valid_items is),
    )
    | inr room ↦ ground (
      arith,
      record_all-eq-append (q ++ i ∷ []) is,
      length-append q (i ∷ []),
      take_room max_queue_size (length q) {i = i} (valid_items is),
      append_assoc q (i ∷ []) (take (max_queue_size - suc (length q)) (valid_items is)),
    )
  ]
]

drain_some-splits :
    (b : AccessLogBuffer) (n : ℕ)
    → ((drain_some b n).1 ++ (drain_some b n).0.items ≡ b.items)
      × (length (drain_some b n).1 ≡ min n (length b.items))
unfolding drain_some
drain_some-splits b n =
    ground (arith, take-append-drop n b.items, length-take n b.items, append-nil b.items)

drain-zero : (b : AccessLogBuffer) → drain (some b) (pos 0) ≡ (some b, [])
unfolding drain
drain-zero b = refl

drain-pos :
    (b : AccessLogBuffer) (n : ℕ)
    → 0 < n
    → drain (some b) (pos n) ≡ (some (drain_some b n).0, (drain_some b n).1)
unfolding drain
drain-pos b n h = ground arith

-- Drain with a positive maximum hands out the oldest items, in order, and keeps the rest: none is
-- lost, repeated or reordered. The maximum bounds the batch, which is full unless the queue was
-- shorter.
pub drain-splits :
    (b : AccessLogBuffer) (n : ℕ)
    → 0 < n
    → (b' : AccessLogBuffer) × ((drain (some b) (pos n)).0 ≡ some b')
      × ((drain (some b) (pos n)).1 ++ b'.items ≡ b.items)
      × (length (drain (some b) (pos n)).1 ≡ min n (length b.items))
unfolding drain
drain-splits b n h =
    let (splits, full) = drain_some-splits b n in
    ((drain_some b n).0, ground arith, ground arith, ground arith)

-- A batch that is put back in front of a bounded queue is cut at the limit.
restore-eq-take :
    (q items : List AccessLogItem)
    → length q ≤ max_queue_size
    → restore (some (record { items = q })) items
      ≡ some (record { items = take max_queue_size (items ++ q) })
unfolding restore
restore-eq-take q [] h = rw (take_of_length-le max_queue_size q h)
restore-eq-take q (i ∷ items) h = ground (arith, take_of_length-le max_queue_size (i ∷ items ++ q))

restore-nil : (b : AccessLogBuffer) → restore (some b) [] ≡ some b
unfolding restore
restore-nil b = refl

restore-record_all_lem :
    (b : AccessLogBuffer) (n : ℕ) (is : List AccessLogItem)
    → length b.items ≤ max_queue_size
    → restore (record_all (some (drain_some b n).0) is) (drain_some b n).1 ≡ record_all (some b) is
restore-record_all_lem b n is h =
    let q = (drain_some b n).0.items in
    let out = (drain_some b n).1 in
    let splits : out ++ q ≡ b.items = (drain_some-splits b n).0 in
    let lengths : length out + length q ≡ length b.items =
      sym (length-append out q) ∙ ap length splits in
    let valid = valid_items is in
    let new = take (max_queue_size - length q) valid in
    let room = max_queue_size - length b.items in
    restore (record_all (some (drain_some b n).0) is) out
    ≡⟨ ap (λ r. restore r out) (record_all-eq-append q is (omega arith)) ⟩
      restore (some (record { items = q ++ new })) out
    ≡⟨ restore-eq-take (q ++ new) out
        (omega (arith, length-append q new, length-take (max_queue_size - length q) valid)) ⟩
      some (record { items = take max_queue_size (out ++ (q ++ new)) })
    ≡⟨ ap (λ l. some (record { items = take max_queue_size l }))
        (sym (append_assoc out q new) ∙ ap (λ l. l ++ new) splits) ⟩
      some (record { items = take max_queue_size (b.items ++ new) })
    ≡⟨ ap (λ l. some (record { items = l })) (take-append max_queue_size b.items new h) ⟩
      some (record { items = b.items ++ take room new })
    ≡⟨ ap (λ l. some (record { items = b.items ++ l }))
        (take-take room (max_queue_size - length q) valid (omega arith)) ⟩
      some (record { items = b.items ++ take room valid })
    ≡⟨ sym (record_all-eq-append b.items is h) ⟩ record_all (some b) is ∎

-- A report that fails, with a queue of at most 10000 items: a batch is drained, items are recorded
-- while it is under way, and the batch is put back. The queue then is what it would have been
-- without the drain: all the old items, in order, and behind them the new ones as far as the limit
-- of 10000 allows.
pub restore-record_all-drain :
    (b : AccessLogBuffer) (n : ℕ) (is : List AccessLogItem)
    → length b.items ≤ max_queue_size
    → restore (record_all (drain (some b) (pos n)).0 is) (drain (some b) (pos n)).1
      ≡ record_all (some b) is
restore-record_all-drain b zero is h =
    rw (drain-zero b) (rw (record_all-eq-append b.items is h) (restore-nil _))
restore-record_all-drain b (suc m) is h =
    rw (drain-pos b (suc m) (omega arith)) (restore-record_all_lem b (suc m) is h)
