-- ===== src/Messaging/Queue/Interleaving.antt =====
-- The queue of an account under every interleaving of its coroutines (messaging/account_queue.py).
use teleautomation_messaging.Prelude.{
  ℕ, ◌≡◌, String, some, List, [], ◌∷◌, str_eq, Option-cases, inl, inr, Bool-cases, arith, eq_iff,
}
use teleautomation_messaging.Messaging.Task.{QueueTask}
use teleautomation_messaging.Messaging.Queue.{
  QueueConfig, Queue, new_queue, put_attempt, set_processing,
}
use teleautomation_messaging.Messaging.Queue.Ops.{
  QueueOp, put_registers, put_tries, put_tries_once, put_times_out, pops, gets, processes,
  completes, drains, cancels, after_attempt, checked, queue_step, queue_run,
}
use teleautomation_messaging.Messaging.Queue.Invariant.{
  IsValid, SameHeap-IsValid, register-SameHeap, give_up-SameHeap, complete_task-SameHeap,
}
use teleautomation_messaging.Messaging.Queue.Room.{put_attempt-IsValid, put_reject-IsValid}
use teleautomation_messaging.Messaging.Queue.Taking.{
  pop-IsValid, get_attempt-IsValid, drain-IsValid, cancel-IsValid,
}
use teleautomation_messaging.Messaging.Heapq.Order.{IsHeap}

checked-IsValid :
    (q : Queue) (task : QueueTask) (q' : Queue)
    → IsValid q
    → (task.account_id ≡ q.account_id → IsValid q')
    → IsValid (checked q task q')
unfolding checked
checked-IsValid q task q' v h = elim (Bool-cases (str_eq task.account_id q.account_id)) [
  | inl own ↦ let ok = h ((eq_iff _ _).0 own) in rw own ok
  | inr other ↦ rw other v
]

pub step-IsValid : (q : Queue) (op : QueueOp) → IsValid q → IsValid (queue_step q op)
unfolding queue_step after_attempt
step-IsValid q (put_registers task) v =
    checked-IsValid q task _ v (λ _. SameHeap-IsValid q _ (register-SameHeap q task) v)
step-IsValid q (put_tries task) v = checked-IsValid q task _ v λ own.
    elim (Option-cases (put_attempt q task)) [
      | inl e ↦ rw (e, after_attempt) v
      | inr ((q', alerts), e) ↦ rw (e, after_attempt) (put_attempt-IsValid q q' task alerts v own e)
    ]
step-IsValid q (put_tries_once task) v = checked-IsValid q task _ v (put_reject-IsValid q task v)
step-IsValid q (put_times_out task) v =
    checked-IsValid q task _ v (λ _. SameHeap-IsValid q _ (give_up-SameHeap q task) v)
step-IsValid q (pops now) v = pop-IsValid q now v
step-IsValid q (gets now) v = get_attempt-IsValid q now v
step-IsValid q (processes active) v = unfold set_processing in ground arith
step-IsValid q (completes id reply e) v =
    SameHeap-IsValid q _ (complete_task-SameHeap q id reply e) v
step-IsValid q drains v = drain-IsValid q
step-IsValid q (cancels uid) v = cancel-IsValid q uid v

run-IsValid : (q : Queue) (ops : List QueueOp) → IsValid q → IsValid (queue_run q ops)
unfolding queue_run
run-IsValid q [] v = v
run-IsValid q (op ∷ ops) v = run-IsValid (queue_step q op) ops (step-IsValid q op v)

-- Whatever the coroutines of an account do, and in whatever order, a queue that was created for the
-- account never holds more than its maximum, holds tasks of this account only, each under its own
-- priority, keeps them in heap order, and has its event set exactly when it holds a task.
pub new_queue-run-IsValid :
    (accounts : List String) (config : QueueConfig) (account_id : String) (now : ℕ) (q : Queue)
    (ops : List QueueOp)
    → new_queue accounts config account_id now ≡ some q
    → IsValid (queue_run q ops)
unfolding new_queue
new_queue-run-IsValid accounts config account_id now q ops e =
    let empty : IsHeap [] = record { edges = λ c p lt r. absurd (omega arith) } in
    run-IsValid q ops (ground (arith, empty))
