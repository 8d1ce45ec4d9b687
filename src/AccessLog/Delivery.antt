-- ===== src/AccessLog/Delivery.antt =====
-- internal/node/access_log.go: what a queue has delivered and what it still has.
use mathlib.Core.Path.{subst}
use mathlib.Core.List.{Sublistᴰ}
use mathlib.Core.List.Sublistᴰ
use knode.Prelude.{
  ℕ, zero, suc, ◌+◌, ◌-◌, ◌≤◌, ◌≡◌, refl, ap, sym, ◌∙◌, List, [], ◌∷◌, ◌++◌, Option, some, arith,
  length, length-append, length-take, take, take_of_length-le, append_assoc,
}
use knode.AccessLog.{AccessLogBuffer, max_queue_size}
use knode.AccessLog.Item.{AccessLogItem}
use knode.AccessLog.Fifo.{record_all, valid_items, record_all-eq-append}

pub length-valid_items : (is : List AccessLogItem) → length (valid_items is) ≤ length is
unfolding valid_items
length-valid_items [] = omega arith
length-valid_items (i ∷ is) = ground (arith, length-valid_items is)

pub valid_items-append :
    (is js : List AccessLogItem) → valid_items (is ++ js) ≡ valid_items is ++ valid_items js
unfolding valid_items
valid_items-append [] js = refl
valid_items-append (i ∷ is) js = ground (arith, valid_items-append is js)

-- While there is room, all items with a domain are queued.
pub record_all-room :
    (b : AccessLogBuffer) (is : List AccessLogItem)
    → length b.items + length is ≤ max_queue_size
    → record_all (some b) is ≡ some (record { items = b.items ++ valid_items is })
record_all-room b is h =
    record_all-eq-append b.items is (omega arith)
    ∙ ap (λ l. some (record { items = b.items ++ l }))
        (take_of_length-le (max_queue_size - length b.items) (valid_items is)
          (omega (arith, length-valid_items is)))

take-Sublist : (n : ℕ) (is : List AccessLogItem) → Sublistᴰ (take n is) is
take-Sublist zero is = Sublistᴰ.nil-sublist is
take-Sublist (suc n) [] = Sublistᴰ.slnil
take-Sublist (suc n) (i ∷ is) = Sublistᴰ.cons-cons refl (take-Sublist n is)

-- What was sent and what is queued are, in order and each item once, some of what was queued and of
-- what was recorded; all of it, where that fits into the queue.
pub record Delivers (b : AccessLogBuffer) (recorded sent : List AccessLogItem)
    (after : Option AccessLogBuffer) : Type 0 where
  pub left : AccessLogBuffer
  pub queue : after ≡ some left
  pub bounded : length left.items ≤ max_queue_size
  pub in_order : Sublistᴰ (sent ++ left.items) (b.items ++ valid_items recorded)
  pub complete :
      length b.items + length recorded ≤ max_queue_size
      → sent ++ left.items ≡ b.items ++ valid_items recorded

-- The items that fit are queued.
pub Delivers-recorded :
    (b : AccessLogBuffer) (is : List AccessLogItem)
    → length b.items ≤ max_queue_size
    → Delivers b is [] (record_all (some b) is)
Delivers-recorded b is h =
    let room = max_queue_size - length b.items in
    let new = take room (valid_items is) in
    record {
      left = record { items = b.items ++ new };
      queue = record_all-eq-append b.items is h;
      bounded = omega (arith, length-append b.items new, length-take room (valid_items is));
      in_order = Sublistᴰ.append (Sublistᴰ.refl b.items) (take-Sublist room (valid_items is));
      complete = λ fits.
          ap (λ l. b.items ++ l)
            (take_of_length-le room (valid_items is) (omega (arith, length-valid_items is)));
    }

-- Where everything fits, no more is left than came in.
pub Delivers-length :
    {b : AccessLogBuffer} {recorded sent : List AccessLogItem} {after : Option AccessLogBuffer}
    (d : Delivers b recorded sent after)
    → length b.items + length recorded ≤ max_queue_size
    → length sent + length d.left.items ≤ length b.items + length recorded
Delivers-length {b} {recorded} {sent} d fits = omega (
  arith,
  ap length (d.complete fits),
  length-append sent d.left.items,
  length-append b.items (valid_items recorded),
  length-valid_items recorded,
)

-- The items in front of and behind a cut.
regroup :
    (b is js : List AccessLogItem)
    → (b ++ valid_items is) ++ valid_items js ≡ b ++ valid_items (is ++ js)
regroup b is js =
    append_assoc b (valid_items is) (valid_items js)
    ∙ ap (λ l. b ++ l) (sym (valid_items-append is js))

Delivers-trans_complete :
    {b : AccessLogBuffer} {is js sent more : List AccessLogItem}
    {mid after : Option AccessLogBuffer} (d : Delivers b is sent mid)
    (e : Delivers d.left js more after)
    → length b.items + length (is ++ js) ≤ max_queue_size
    → (sent ++ more) ++ e.left.items ≡ b.items ++ valid_items (is ++ js)
Delivers-trans_complete {b} {is} {js} {sent} {more} d e fits =
    let sizes = length-append is js in
    let first : length b.items + length is ≤ max_queue_size = omega arith in
    append_assoc sent more e.left.items
    ∙ ap (λ l. sent ++ l) (e.complete (omega (arith, Delivers-length d first)))
    ∙ sym (append_assoc sent d.left.items (valid_items js))
    ∙ ap (λ l. l ++ valid_items js) (d.complete first)
    ∙ regroup b.items is js

pub Delivers-trans :
    {b : AccessLogBuffer} {is js sent more : List AccessLogItem}
    {mid after : Option AccessLogBuffer} (d : Delivers b is sent mid)
    → Delivers d.left js more after
    → Delivers b (is ++ js) (sent ++ more) after
Delivers-trans {b} {is} {js} {sent} {more} d e = record {
  left = e.left;
  queue = e.queue;
  bounded = e.bounded;
  in_order =
      subst (λ l. Sublistᴰ l (b.items ++ valid_items (is ++ js)))
        (sym (append_assoc sent more e.left.items))
        (subst (Sublistᴰ (sent ++ (more ++ e.left.items))) (regroup b.items is js) (
          Sublistᴰ.trans
            (subst (Sublistᴰ (sent ++ (more ++ e.left.items)))
              (sym (append_assoc sent d.left.items (valid_items js)))
              (Sublistᴰ.append (Sublistᴰ.refl sent) e.in_order))
            (Sublistᴰ.append d.in_order (Sublistᴰ.refl (valid_items js)))));
  complete = Delivers-trans_complete d e;
}
