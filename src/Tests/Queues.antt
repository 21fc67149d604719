-- ===== src/Tests/Queues.antt =====
-- The queue of an account (messaging/account_queue.py).
use teleautomation_messaging.Prelude.{
  ℕ, ◌≡◌, ◌⊎◌, refl, true, zero, suc, false, List, none, some, [], ◌∷◌, get_elem?, lookup, arith,
}
use teleautomation_messaging.Messaging.Future.{waiting, result, backpressure, auto_reply_cancelled}
use teleautomation_messaging.Messaging.Heapq.{
  HeapEntry, less, same, entry_at, heappush, heappop, heapify, best_from, remove, worst_from,
}
use teleautomation_messaging.Messaging.Queue.{
  Queue, new_queue, register, full_error, put, put_loop, put_attempt, failed, pop_highest_priority,
  drop_lowest_priority_task, cancel_ai_auto_reply_for_user, has_pending_ai_auto_reply_for_user, get,
  get_attempt, Wait, woken, timed_out, got, gave_up,
}
use teleautomation_messaging.Messaging.Queue.Ops.{queue_run, put_tries, pops, gets, cancels, drains}
use teleautomation_messaging.Messaging.Queue.Bag.{Behaves}
use teleautomation_messaging.Messaging.Queue.Refinement.{view, queue_run-Behaves}
use teleautomation_messaging.Messaging.Queue.Invariant.{IsValid}
use teleautomation_messaging.Messaging.Queue.Interleaving.{new_queue-run-IsValid}
use teleautomation_messaging.Messaging.Queue.Order.{Serves, pop-Serves, get-Serves, get_attempt-pop}
use teleautomation_messaging.Messaging.Heapq.Order.{before, IsHeapFrom}
use teleautomation_messaging.Messaging.Queue.Eviction.{drop_lowest_priority_task-Evicts, Evicts}
use teleautomation_messaging.Messaging.Queue.Waiting.{
  IsFinal, put-IsFinal, put_reject_leaves_future,
}
use teleautomation_messaging.Messaging.Queue.Replies.{IsSetTo, queue_run-IsSetTo}
use teleautomation_messaging.Messaging.Queue.Removal.{cancel_ai_auto_reply_for_user-heap}
use teleautomation_messaging.Tests.Data.{
  delaying, rejecting, reply, direct, cycle, entry, queue_of, full_queue, half_queue, idle_turn,
}

abbrev made_queue : Queue
made_queue = record (queue_of delaying [] false) { sequence = 0; last_dequeue_at = 5 }

new_queue-run-IsValid_example : IsValid (
    queue_run made_queue
      (put_tries (cycle "t1") ∷ put_tries (reply "t2") ∷ put_tries (reply "t3") ∷ pops 9 ∷ []))
unfolding new_queue
new_queue-run-IsValid_example =
    new_queue-run-IsValid ("b" ∷ "a" ∷ []) delaying "a" 5 made_queue
      (put_tries (cycle "t1") ∷ put_tries (reply "t2") ∷ put_tries (reply "t3") ∷ pops 9 ∷ []) refl

-- The reply is served before the cycle that came first.
reply_first : (pop_highest_priority (full_queue delaying) 9).1 ≡ some (reply "t2")
unfolding pop_highest_priority best_from remove heapify
reply_first = refl

pop-Serves_example :
    let q = full_queue delaying in
    ((q.heap ≡ []) × (pop_highest_priority q 9 ≡ (q, none)))
    ⊎ ((best : _) × ((pop_highest_priority q 9).1 ≡ some best.task)
        × Serves q (pop_highest_priority q 9).0 best)
pop-Serves_example = pop-Serves (full_queue delaying) 9

-- The array after pushes and after a pop: heapq's own arrangement.
abbrev four_pushed : List HeapEntry
four_pushed =
    heappush
      (heappush (heappush (heappush [] (entry 3 1 (cycle "t1"))) (entry 1 2 (reply "t2")))
        (entry 3 3 (cycle "t3")))
      (entry 1 4 (reply "t4"))

pushed_array :
    four_pushed
    ≡ entry 1 2 (reply "t2")
      ∷ entry 1 4 (reply "t4")
      ∷ entry 3 3 (cycle "t3")
      ∷ entry 3 1 (cycle "t1")
      ∷ []
unfolding heappush
pushed_array = refl

popped_array :
    heappop four_pushed
    ≡ some (
      entry 1 2 (reply "t2"),
      entry 1 4 (reply "t4") ∷ entry 3 1 (cycle "t1") ∷ entry 3 3 (cycle "t3") ∷ [],
    )
unfolding heappop heappush
popped_array = refl

heapified_array :
    heapify (entry 3 1 (cycle "t1") ∷ entry 3 3 (cycle "t3") ∷ entry 1 2 (reply "t2") ∷ [])
    ≡ entry 1 2 (reply "t2") ∷ entry 3 3 (cycle "t3") ∷ entry 3 1 (cycle "t1") ∷ []
unfolding heapify
heapified_array = refl

-- The queue without the cycle.
abbrev evicted_queue : Queue
evicted_queue = record (half_queue delaying) { dropped_total = 1 }

full_queue-edges : IsHeapFrom 0 (full_queue delaying).heap
unfolding before less entry_at
full_queue-edges zero p q r = absurd (omega arith)
full_queue-edges (suc zero) p q r = refl
full_queue-edges (suc (suc c)) p q r = absurd (omega arith)

full_queue-IsValid : IsValid (full_queue delaying)
full_queue-IsValid = record {
  bounded = omega arith;
  entries = (
    record { own = refl; labelled = refl; numbered = omega arith },
    (record { own = refl; labelled = refl; numbered = omega arith }, tt),
  );
  ordered = record { edges = full_queue-edges };
  signalled = refl;
}

get-Serves_example :
    let q = full_queue delaying in
    ((q.heap ≡ [])
      × ((ws : List Wait) → get q 9 (timed_out ∷ ws) ≡ (q, gave_up))
      × ((later : ℕ) (others : Queue → Queue) (ws : List Wait)
          → get q 9 (woken later others ∷ ws) ≡ get (others q) later ws))
    ⊎ ((best : HeapEntry) × (q' : Queue) × ((ws : List Wait) → get q 9 ws ≡ (q', got best.task))
        × Serves q q' best)
get-Serves_example = get-Serves (full_queue delaying) 9 full_queue-IsValid

get_attempt-pop_example :
    let q = full_queue delaying in
    let g = get_attempt q 9 in
    let p = pop_highest_priority q 9 in
    ((g ≡ (q, none)) × (p ≡ (q, none)))
    ⊎ ((a : HeapEntry) × (b : HeapEntry) × (g.1 ≡ some a.task)
        × Serves q g.0 a
        × (p.1 ≡ some b.task)
        × Serves q p.0 b
        × (same a b ≡ true))
get_attempt-pop_example = get_attempt-pop (full_queue delaying) 9 full_queue-IsValid

drop_lowest_priority_task-Evicts_example :
    (w : HeapEntry) × Evicts (full_queue delaying) evicted_queue w
unfolding drop_lowest_priority_task worst_from remove heapify
drop_lowest_priority_task-Evicts_example =
    (drop_lowest_priority_task-Evicts (full_queue delaying)).1 evicted_queue refl

put-IsFinal_example :
    IsFinal (put (full_queue delaying) (direct "t3") 10 (idle_turn 20 ∷ idle_turn 41 ∷ [])).2
put-IsFinal_example =
    put-IsFinal (full_queue delaying) (direct "t3") 10 (idle_turn 20 ∷ idle_turn 41 ∷ []) refl

-- At its deadline the waiting task is refused.
put_times_out :
    (put (full_queue delaying) (direct "t3") 10 (idle_turn 20 ∷ idle_turn 41 ∷ [])).2
    ≡ failed (backpressure "a" 2 2)
unfolding put put_loop put_attempt register full_error
put_times_out = refl

abbrev registered_queue : Queue
registered_queue = record (full_queue delaying) { pending = ("t3", 0) ∷ []; futures = waiting ∷ [] }

put_reject_leaves_future_example :
    let r = put (full_queue rejecting) (direct "t3") 10 [] in
    (r.2 ≡ failed (full_error (full_queue rejecting)))
    × (lookup "t3" r.0.pending ≡ some 0)
    × (get_elem? r.0.futures 0 ≡ some waiting)
    × (r.0.heap ≡ (full_queue rejecting).heap)
    × (r.0.rejected_total ≡ 1)
put_reject_leaves_future_example =
    put_reject_leaves_future (full_queue rejecting) (direct "t3") 10 [] refl refl (omega arith) refl

abbrev answered : Queue
answered = record (half_queue delaying) { futures = result auto_reply_cancelled ∷ [] }

queue_run-IsSetTo_example :
    IsSetTo 0 (result auto_reply_cancelled) (queue_run answered (pops 9 ∷ drains ∷ []))
queue_run-IsSetTo_example =
    queue_run-IsSetTo 0 (result auto_reply_cancelled) answered (pops 9 ∷ drains ∷ [])
      (record { here = refl; is_done = refl })

cancel_ai_auto_reply_for_user-heap_example :
    has_pending_ai_auto_reply_for_user (cancel_ai_auto_reply_for_user (full_queue delaying) 7).0 7
    ≡ false
cancel_ai_auto_reply_for_user-heap_example =
    (cancel_ai_auto_reply_for_user-heap (full_queue delaying) 7).2

queue_run-Behaves_example :
    let ops = gets 9 ∷ put_tries (direct "t3") ∷ cancels 7 ∷ [] in
    Behaves ops (view (full_queue delaying)) (view (queue_run (full_queue delaying) ops))
queue_run-Behaves_example =
    queue_run-Behaves (full_queue delaying) (gets 9 ∷ put_tries (direct "t3") ∷ cancels 7 ∷ [])
      full_queue-IsValid
