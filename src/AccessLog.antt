-- ===== src/AccessLog.antt =====
-- internal/node/access_log.go: the queue of access log items that wait for a report, and the items.
-- The mutex makes every method one step; a `*accessLogBuffer` is an `Option`, for the nil receiver.
pub mod Item
pub mod Bounds
pub mod Fifo
pub mod Delivery
use knode.Prelude.{
  ℕ, Bool, true, false, Option, none, some, List, [], ◌∷◌, ◌++◌, ltb, leb, if◌then◌else◌, length,
  take, drop, ℤ, pos, negsuc, is_empty,
}
use knode.Text.{str_eq, trim_space}
use Item.{AccessLogItem}

unfoldable pub max_queue_size : ℕ
max_queue_size = 10000

unfoldable pub max_batch_size : ℕ
max_batch_size = 5000

pub record AccessLogBuffer : Type 0 where
  pub items : List AccessLogItem

abbrev pub new_buffer : Option AccessLogBuffer
new_buffer = some (record { items = [] })

-- `Record`: the buffer after it, and whether the item was taken.
unfoldable pub record_item : Option AccessLogBuffer → AccessLogItem → Option AccessLogBuffer × Bool
record_item none item = (none, false)
record_item (some b) item =
    if str_eq (trim_space item.domain) []
    then (some b, false)
    else if leb max_queue_size (length b.items)
    then (some b, false)
    else (some (record { items = b.items ++ item ∷ [] }), true)

-- The body of `Drain` past its guards: `n` is the positive maximum.
unfoldable pub drain_some : AccessLogBuffer → ℕ → AccessLogBuffer × List AccessLogItem
drain_some b n =
    if is_empty b.items
    then (b, [])
    else if leb (length b.items) n
    then (record { items = [] }, b.items)
    else (record { items = drop n b.items }, take n b.items)

unfoldable pub drain : Option AccessLogBuffer → ℤ → Option AccessLogBuffer × List AccessLogItem
unfolding drain_some
drain none max = (none, [])
drain (some b) (negsuc n) = (some b, [])
drain (some b) (pos n) =
    if leb n 0 then (some b, []) else (let (b', out) = drain_some b n in (some b', out))

-- `Restore`: the items go back to the front, and what does not fit is cut off at the back.
unfoldable pub restore : Option AccessLogBuffer → List AccessLogItem → Option AccessLogBuffer
restore none items = none
restore (some b) items =
    if is_empty items
    then some b
    else let restored = items ++ b.items in
      if ltb max_queue_size (length restored)
      then some (record { items = take max_queue_size restored })
      else some (record { items = restored })
