-- ===== src/AccessLog/Bounds.antt =====
-- The queue of internal/node/access_log.go never grows past its limit, whatever is called.
use knode.Prelude.{
  ◌≤◌, ◌++◌, List, [], ◌∷◌, Option, none, some, arith, ℤ, pos, negsuc, length, length-append,
  length-take, length-drop,
}
use knode.AccessLog.{AccessLogBuffer, max_queue_size, record_item, drain, restore}
use knode.AccessLog.Item.{AccessLogItem}

-- A nil buffer holds nothing.
abbrev pub IsBounded : Option AccessLogBuffer → Type 0
IsBounded none = Unit
IsBounded (some b) = length b.items ≤ max_queue_size

-- A call of one of the three methods.
pub data Call : Type 0 where
  records : AccessLogItem → Call
  drains : ℤ → Call
  restores : List AccessLogItem → Call

pub step : Option AccessLogBuffer → Call → Option AccessLogBuffer
step b (records item) = (record_item b item).0
step b (drains max) = (drain b max).0
step b (restores items) = restore b items

pub run : Option AccessLogBuffer → List Call → Option AccessLogBuffer
run b [] = b
run b (c ∷ cs) = run (step b c) cs

record_item-IsBounded :
    (b : Option AccessLogBuffer) (item : AccessLogItem)
    → IsBounded b
    → IsBounded (record_item b item).0
unfolding record_item
record_item-IsBounded none item h = tt
record_item-IsBounded (some b) item h = ground (arith, length-append b.items (item ∷ []))

drain-IsBounded : (b : Option AccessLogBuffer) (max : ℤ) → IsBounded b → IsBounded (drain b max).0
unfolding drain
drain-IsBounded none max h = tt
drain-IsBounded (some b) (negsuc n) h = h
drain-IsBounded (some b) (pos n) h = ground (arith, length-drop n b.items)

restore-IsBounded :
    (b : Option AccessLogBuffer) (items : List AccessLogItem)
    → IsBounded b
    → IsBounded (restore b items)
unfolding restore
restore-IsBounded none items h = tt
restore-IsBounded (some b) [] h = h
restore-IsBounded (some b) (i ∷ items) h =
    ground (arith, length-take max_queue_size (i ∷ items ++ b.items))

step-IsBounded : (b : Option AccessLogBuffer) (c : Call) → IsBounded b → IsBounded (step b c)
unfolding step
step-IsBounded b (records item) h = record_item-IsBounded b item h
step-IsBounded b (drains max) h = drain-IsBounded b max h
step-IsBounded b (restores items) h = restore-IsBounded b items h

-- After any calls of Record, Drain and Restore, in any order and with any arguments, a buffer that
-- held at most 10000 items (a new one, for instance) holds at most 10000 items.
pub run-IsBounded :
    (b : Option AccessLogBuffer) (cs : List Call) → IsBounded b → IsBounded (run b cs)
unfolding run
run-IsBounded b [] h = h
run-IsBounded b (c ∷ cs) h = run-IsBounded (step b c) cs (step-IsBounded b c h)
