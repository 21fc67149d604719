-- ===== src/Messaging/Queue.antt =====
-- messaging/account_queue.py, AccountQueue: the priority queue of one account. Time is a number of
-- clock ticks that each operation takes as an argument; log lines are not modelled, alerts are.
mod State
pub mod Invariant
pub mod Room
pub mod Taking
pub mod Ops
pub mod Bag
pub mod Refinement
pub mod Interleaving
pub mod Order
pub mod Eviction
pub mod Waiting
pub mod Replies
pub mod Removal
pub use State.{
  QueueConfig, Alert, Queue, depth, high_watermark, Turn, PutOutcome, stored, still_waiting, failed,
  Wait, woken, timed_out, GetOutcome, got, gave_up, waits,
}
unfoldable pub use State.{new_queue}
use teleautomation_messaging.Prelude.{
  ℕ, zero, suc, ◌+◌, ◌-◌, ◌*◌, ◌/◌, ◌≡◌, refl, String, Bool, true, false, not, ◌&&◌, ◌||◌, Option,
  none, some, List, [], ◌∷◌, ◌++◌, ltb, leb, ◌==◌, str_eq, if◌then◌else◌, length, count_if,
  exists_in, keep, Dict, lookup, insert, erase,
}
use teleautomation_messaging.Messaging.Task.{
  TaskType, TaskPriority, high, priority_value, user_id, QueueTask,
}
use teleautomation_messaging.Messaging.Heapq.{
  HeapEntry, heappush, heappop, heapify, worst_from, best_from, remove,
}
use teleautomation_messaging.Messaging.Future.{
  Error, value_error, runtime_error, backpressure, Reply, auto_reply_cancelled, Future, waiting,
  cancelled, result, exception, settle, settle_at,
}

drop_worst : HeapEntry → Queue → Option Queue
drop_worst worst q =
    if leb worst.priority (priority_value high)
    then none
    else some
        (record q { heap = heapify (remove worst q.heap); dropped_total = q.dropped_total + 1 })

unfoldable pub drop_from : List HeapEntry → Queue → Option Queue
unfolding drop_worst
drop_from [] q = none
drop_from (e ∷ es) q = drop_worst (worst_from e es) q

-- `_drop_lowest_priority_task`; `none` is its False, with the queue as it was.
unfoldable pub drop_lowest_priority_task : Queue → Option Queue
unfolding drop_from
drop_lowest_priority_task q = drop_from q.heap q

-- The queue after the push, and whether the high-water alert has been given.
pushed : Queue → QueueTask → Queue
pushed q task = record q {
  sequence = q.sequence + 1;
  heap =
      heappush q.heap (record {
        priority = priority_value task.priority;
        sequence = q.sequence + 1;
        task = task;
      });
  not_empty = true;
}

unfoldable pub enqueue_unlocked : Queue → QueueTask → Queue × List Alert
unfolding pushed
enqueue_unlocked q task =
    let q' = pushed q task in
    if high_watermark q' && not q'.overflow_alerted
    then (
      record q' { overflow_alerted = true },
      record { level = "warning"; code = "queue_high_water" } ∷ [],
    )
    else if not (high_watermark q')
    then (record q' { overflow_alerted = false }, [])
    else (q', [])

-- `put`, up to the first await: a waiting task gets its future.
unfoldable pub register : Queue → QueueTask → Queue
register q task =
    if task.wait_result
    then record q {
      pending = insert task.task_id (length q.futures) q.pending;
      futures = q.futures ++ waiting ∷ [];
    }
    else q

unfoldable pub full_error : Queue → Error
full_error q = backpressure q.account_id (depth q) q.max_size

-- One turn of `put` under the lock; `none` where the task does not fit.
unfoldable pub put_attempt : Queue → QueueTask → Option (Queue × List Alert)
put_attempt q task =
    if ltb (depth q) q.max_size
    then some (enqueue_unlocked q task)
    else if str_eq q.config.policy "drop_low"
    then elim (drop_lowest_priority_task q) [
      | none ↦ none
      | some q' ↦ some (enqueue_unlocked q' task)
    ]
    else none

abbrev pop_pending : Option ℕ → Future → Queue → String → Queue
pop_pending none new q id = q
pop_pending (some i) new q id = record q {
  pending = erase id q.pending;
  futures = settle_at q.futures i new;
}

-- `fut = self._pending.pop(id, None)`, then the future is set if it is not done.
unfoldable pub finish : Queue → String → Future → Queue
finish q id new = pop_pending (lookup id q.pending) new q id

-- `put` at its deadline: the future of the task is taken back.
unfoldable pub give_up : Queue → QueueTask → Queue
give_up q task =
    let q' = record q { rejected_total = q.rejected_total + 1 } in
    if task.wait_result then finish q' task.task_id (exception (full_error q')) else q'

-- `put` under the policy "reject": the whole call.
unfoldable pub put_reject : Queue → QueueTask → Queue × List Alert × Option Error
put_reject q task =
    if leb q.max_size (depth q)
    then (record q { rejected_total = q.rejected_total + 1 }, [], some (full_error q))
    else let (q', alerts) = enqueue_unlocked q task in (q', alerts, none)

-- The loop of `put`, over the turns that the event loop gives it.
unfoldable pub put_loop : QueueTask → ℕ → List Turn → Queue → Queue × List Alert × PutOutcome
put_loop task deadline [] q = (q, [], still_waiting)
put_loop task deadline (t ∷ ts) q =
    let rest = put_loop task deadline ts (t.others q) in
    elim (put_attempt q task) [
      | some (q', alerts) ↦ (q', alerts, stored)
      | none ↦ if leb deadline t.now then (give_up q task, [], failed (full_error q)) else rest
    ]

abbrev outcome_of : Queue × List Alert × Option Error → Queue × List Alert × PutOutcome
outcome_of (q, alerts, none) = (q, alerts, stored)
outcome_of (q, alerts, some e) = (q, alerts, failed e)

-- `put(task)`, called at time `start`.
unfoldable pub put : Queue → QueueTask → ℕ → List Turn → Queue × List Alert × PutOutcome
put q task start turns =
    if not (str_eq task.account_id q.account_id)
    then (q, [], failed (value_error "Task account does not match queue"))
    else let q' = register q task in
      if str_eq q.config.policy "reject"
      then outcome_of (put_reject q' task)
      else put_loop task (start + q.config.put_timeout) turns q'

unfoldable pub count_priority_at_most : Queue → ℕ → ℕ
count_priority_at_most q max_priority = count_if (λ e. leb e.priority max_priority) q.heap

abbrev nonempty {ℓ} : {A : Type ℓ} → List A → Bool
nonempty [] = false
nonempty (x ∷ xs) = true

-- The event `_not_empty` is cleared by whoever empties the heap.
unfoldable pub dequeued : Queue → ℕ → List HeapEntry → Queue
dequeued q now rest = record q {
  heap = rest;
  not_empty = if nonempty rest then q.not_empty else false;
  last_dequeue_at = now;
}

pop_best : Queue → ℕ → List HeapEntry → Queue × Option QueueTask
pop_best q now [] = (q, none)
pop_best q now (x ∷ xs) =
    let best = best_from x xs in (dequeued q now (heapify (remove best (x ∷ xs))), some best.task)

unfoldable pub pop_highest_priority : Queue → ℕ → Queue × Option QueueTask
unfolding pop_best
pop_highest_priority q now = pop_best q now q.heap

-- The locked part of `get`; `none` where it goes on to wait.
unfoldable pub get_attempt : Queue → ℕ → Queue × Option QueueTask
get_attempt q now = elim (heappop q.heap) [
  | none ↦ (q, none)
  | some (first, rest) ↦ (dequeued q now rest, some first.task)
]

got_or : Queue × Option QueueTask → Queue × GetOutcome → Queue × GetOutcome
got_or (q, some task) later = (q, got task)
got_or (q, none) later = later

-- `get(timeout)`: the loop, over the ways in which its waits for `_not_empty` end.
unfoldable pub get : Queue → ℕ → List Wait → Queue × GetOutcome
unfolding got_or
get q now [] = got_or (get_attempt q now) (q, waits)
get q now (timed_out ∷ ws) = got_or (get_attempt q now) (q, gave_up)
get q now (woken later others ∷ ws) = got_or (get_attempt q now) (get (others q) later ws)

unfoldable pub set_processing : Queue → Bool → Queue
set_processing q active = record q { processing = active }

unfoldable pub complete_task : Queue → String → Reply → Option Error → Queue
complete_task q id reply none = finish q id (result reply)
complete_task q id reply (some e) = finish q id (exception e)

-- `wait_for_task` finds the future that the caller then awaits.
unfoldable pub wait_for_task : Queue → QueueTask → Option ℕ
wait_for_task q task = lookup task.task_id q.pending

unfoldable pub cancel_all : List (String × ℕ) → List Future → List Future
cancel_all [] fs = fs
cancel_all ((id, i) ∷ ps) fs = cancel_all ps (settle_at fs i cancelled)

unfoldable pub drain : Queue → Queue × ℕ
unfolding cancel_all
drain q = (
  record q { heap = []; not_empty = false; pending = []; futures = cancel_all q.pending q.futures },
  depth q,
)

abbrev is_ai_auto_reply : TaskType → Bool
is_ai_auto_reply TaskType.ai_auto_reply = true
is_ai_auto_reply _ = false

abbrev or_zero : Option ℕ → ℕ
or_zero none = 0
or_zero (some n) = n

-- A pending AI auto-reply in the chat of a user.
abbrev pub is_reply_to : ℕ → HeapEntry → Bool
is_reply_to uid e = is_ai_auto_reply e.task.task_type && or_zero (user_id e.task.payload) == uid

unfoldable pub has_pending_ai_auto_reply_for_user : Queue → ℕ → Bool
has_pending_ai_auto_reply_for_user q uid = exists_in (is_reply_to uid) q.heap

unfoldable pub finish_replies : ℕ → List HeapEntry → Queue → Queue
finish_replies uid [] q = q
finish_replies uid (e ∷ es) q =
    finish_replies uid es
      (if is_reply_to uid e then finish q e.task.task_id (result auto_reply_cancelled) else q)

unfoldable pub cancel_ai_auto_reply_for_user : Queue → ℕ → Queue × ℕ
unfolding finish_replies
cancel_ai_auto_reply_for_user q uid =
    let kept = keep (λ e. not (is_reply_to uid e)) q.heap in
    let removed = count_if (is_reply_to uid) q.heap in
    let q' = finish_replies uid q.heap q in
    if removed == 0 then (q', 0) else (
      record q' {
        heap = heapify kept;
        not_empty = if nonempty (heapify kept) then q'.not_empty else false;
      },
      removed,
    )
