-- ===== src/Messaging/Queue/Replies.antt =====
-- The futures behind `route_and_wait`: who sets them, and that none is set twice
-- (messaging/account_queue.py: complete_task, drain, cancel_ai_auto_reply_for_user).
use teleautomation_messaging.Prelude.{
  ℕ, zero, suc, ◌≡◌, refl, String, true, none, some, List, [], ◌∷◌, if◌then◌else◌, get_elem?,
  lookup, get_elem?-append_left, Option-cases, Bool-cases, arith, Dict, inl, inr,
}
use teleautomation_messaging.Messaging.Task.{QueueTask}
use teleautomation_messaging.Messaging.Heapq.{HeapEntry}
use teleautomation_messaging.Messaging.Future.{
  auto_reply_cancelled, Future, waiting, cancelled, result, done, settle_at,
}
use teleautomation_messaging.Messaging.Queue.{
  Queue, Alert, dequeued, enqueue_unlocked, drop_lowest_priority_task, register, finish, give_up,
  put_attempt, put_reject, pop_best, pop_highest_priority, get_attempt, set_processing,
  complete_task, cancel_all, drain, is_reply_to, finish_replies, cancel_ai_auto_reply_for_user,
}
use teleautomation_messaging.Messaging.Queue.Room.{drop-Drops}
use teleautomation_messaging.Messaging.Queue.Ops.{
  QueueOp, put_registers, put_tries, put_tries_once, put_times_out, pops, gets, processes,
  completes, drains, cancels, after_attempt, checked, queue_step, queue_run,
}

settle_at-done :
    (fs : List Future) (i j : ℕ) (f new : Future)
    → get_elem? fs i ≡ some f
    → done f ≡ true
    → get_elem? (settle_at fs j new) i ≡ some f
settle_at-done [] i j f new h d = cc
settle_at-done (x ∷ xs) zero zero f new h d = ground arith
settle_at-done (x ∷ xs) zero (suc j) f new h d = h
settle_at-done (x ∷ xs) (suc i) zero f new h d = h
settle_at-done (x ∷ xs) (suc i) (suc j) f new h d = settle_at-done xs i j f new h d

-- Future `i` is done, with the value `f`, in the queue.
pub record IsSetTo (i : ℕ) (f : Future) (q : Queue) : Type 0 where
  pub here : get_elem? q.futures i ≡ some f
  pub is_done : done f ≡ true

cancel_all-done :
    (ps : Dict ℕ) (fs : List Future) (i : ℕ) (f : Future)
    → get_elem? fs i ≡ some f
    → done f ≡ true
    → get_elem? (cancel_all ps fs) i ≡ some f
unfolding cancel_all
cancel_all-done [] fs i f h d = h
cancel_all-done ((id, j) ∷ ps) fs i f h d =
    cancel_all-done ps (settle_at fs j cancelled) i f (settle_at-done fs i j f cancelled h d) d

enqueue_unlocked-futures :
    (q : Queue) (task : QueueTask) → (enqueue_unlocked q task).0.futures ≡ q.futures
unfolding enqueue_unlocked
enqueue_unlocked-futures q task = ground arith

drop-futures : (q q' : Queue) → drop_lowest_priority_task q ≡ some q' → q'.futures ≡ q.futures
drop-futures q q' e = (drop-Drops q q' e).1.futures

put_reject-futures : (q : Queue) (task : QueueTask) → (put_reject q task).0.futures ≡ q.futures
unfolding put_reject
put_reject-futures q task = ground (arith, enqueue_unlocked-futures q task)

pop_best-futures :
    (q : Queue) (now : ℕ) (es : List HeapEntry) → (pop_best q now es).0.futures ≡ q.futures
unfolding pop_best dequeued
pop_best-futures q now [] = refl
pop_best-futures q now (x ∷ xs) = refl

pop-futures : (q : Queue) (now : ℕ) → (pop_highest_priority q now).0.futures ≡ q.futures
unfolding pop_highest_priority
pop-futures q now = pop_best-futures q now q.heap

get_attempt-futures : (q : Queue) (now : ℕ) → (get_attempt q now).0.futures ≡ q.futures
unfolding get_attempt dequeued
get_attempt-futures q now = ground arith

put_attempt-futures :
    (q q' : Queue) (task : QueueTask) (alerts : List Alert)
    → put_attempt q task ≡ some (q', alerts)
    → q'.futures ≡ q.futures
unfolding put_attempt
put_attempt-futures q q' task alerts e = elim (Option-cases (drop_lowest_priority_task q)) [
  | inl d ↦ ground (arith, enqueue_unlocked-futures q task)
  | inr (q₁, d) ↦ ground (
    arith,
    enqueue_unlocked-futures q task,
    enqueue_unlocked-futures q₁ task,
    drop-futures q q₁ d,
  )
]

module _ (i : ℕ) (f : Future) where
  finish-IsSetTo :
      (q : Queue) (id : String) (new : Future) → IsSetTo i f q → IsSetTo i f (finish q id new)
  unfolding finish
  finish-IsSetTo q id new s = elim (Option-cases (lookup id q.pending)) [
    | inl e ↦ rw (e, finish) s
    | inr (j, e) ↦
        rw (e, finish)
          (record {
            here = settle_at-done q.futures i j f new s.here s.is_done;
            is_done = s.is_done;
          })
  ]

  register-IsSetTo : (q : Queue) (task : QueueTask) → IsSetTo i f q → IsSetTo i f (register q task)
  unfolding register
  register-IsSetTo q task s =
      ground (arith, get_elem?-append_left q.futures (waiting ∷ []) i f s.here)

  same_futures-IsSetTo : (q q' : Queue) → q'.futures ≡ q.futures → IsSetTo i f q → IsSetTo i f q'
  same_futures-IsSetTo q q' e s = record { here = rw e s.here; is_done = s.is_done }

  give_up-IsSetTo : (q : Queue) (task : QueueTask) → IsSetTo i f q → IsSetTo i f (give_up q task)
  unfolding give_up
  give_up-IsSetTo q task s = elim (Bool-cases task.wait_result) [
    | inl w ↦
        rw (w, give_up)
          (finish-IsSetTo _ task.task_id _ (record { here = s.here; is_done = s.is_done }))
    | inr w ↦ rw (w, give_up) (record { here = s.here; is_done = s.is_done })
  ]

  finish_replies-IsSetTo :
      (uid : ℕ) (es : List HeapEntry) (q : Queue)
      → IsSetTo i f q
      → IsSetTo i f (finish_replies uid es q)
  unfolding finish_replies
  finish_replies-IsSetTo uid [] q s = s
  finish_replies-IsSetTo uid (e ∷ es) q s =
      finish_replies-IsSetTo uid es
        (if is_reply_to uid e then finish q e.task.task_id (result auto_reply_cancelled) else q)
        (ground (arith, finish-IsSetTo q e.task.task_id (result auto_reply_cancelled) s))

  cancel-IsSetTo :
      (q : Queue) (uid : ℕ) → IsSetTo i f q → IsSetTo i f (cancel_ai_auto_reply_for_user q uid).0
  unfolding cancel_ai_auto_reply_for_user
  cancel-IsSetTo q uid s = ground (arith, finish_replies-IsSetTo uid q.heap q s)

  drain-IsSetTo : (q : Queue) → IsSetTo i f q → IsSetTo i f (drain q).0
  unfolding drain
  drain-IsSetTo q s = record {
    here = cancel_all-done q.pending q.futures i f s.here s.is_done;
    is_done = s.is_done;
  }

  checked-IsSetTo :
      (q : Queue) (task : QueueTask) (q' : Queue)
      → IsSetTo i f q
      → IsSetTo i f q'
      → IsSetTo i f (checked q task q')
  unfolding checked
  checked-IsSetTo q task q' s s' = ground arith

  step-IsSetTo : (q : Queue) (op : QueueOp) → IsSetTo i f q → IsSetTo i f (queue_step q op)
  unfolding queue_step after_attempt
  step-IsSetTo q (put_registers task) s = checked-IsSetTo q task _ s (register-IsSetTo q task s)
  step-IsSetTo q (put_tries task) s = elim (Option-cases (put_attempt q task)) [
    | inl e ↦ rw (e, after_attempt) (checked-IsSetTo q task q s s)
    | inr ((q', alerts), e) ↦
        rw (e, after_attempt)
          (checked-IsSetTo q task q' s
            (same_futures-IsSetTo q q' (put_attempt-futures q q' task alerts e) s))
  ]
  step-IsSetTo q (put_tries_once task) s =
      checked-IsSetTo q task _ s (same_futures-IsSetTo q _ (put_reject-futures q task) s)
  step-IsSetTo q (put_times_out task) s = checked-IsSetTo q task _ s (give_up-IsSetTo q task s)
  step-IsSetTo q (pops now) s = same_futures-IsSetTo q _ (pop-futures q now) s
  step-IsSetTo q (gets now) s = same_futures-IsSetTo q _ (get_attempt-futures q now) s
  step-IsSetTo q (processes active) s = same_futures-IsSetTo q _ (unfold set_processing in refl) s
  step-IsSetTo q (completes id reply none) s = unfold complete_task in finish-IsSetTo q id _ s
  step-IsSetTo q (completes id reply (some e)) s = unfold complete_task in finish-IsSetTo q id _ s
  step-IsSetTo q drains s = drain-IsSetTo q s
  step-IsSetTo q (cancels uid) s = cancel-IsSetTo q uid s

-- A future that is done keeps its value, whatever the coroutines of the account do afterwards: a
-- waiter is answered at most once.
pub queue_run-IsSetTo :
    (i : ℕ) (f : Future) (q : Queue) (ops : List QueueOp)
    → IsSetTo i f q
    → IsSetTo i f (queue_run q ops)
unfolding queue_run
queue_run-IsSetTo i f q [] s = s
queue_run-IsSetTo i f q (op ∷ ops) s =
    queue_run-IsSetTo i f (queue_step q op) ops (step-IsSetTo i f q op s)
