-- ===== src/Messaging/Queue/Refinement.antt =====
-- The queue of an account does what the bag of Queue/Bag allows (messaging/account_queue.py).
use teleautomation_messaging.Prelude.{
  ℕ, ◌+◌, ◌≤◌, ◌≡◌, refl, sym, ◌∙◌, ap, Bool, true, false, not, some, List, [], ◌∷◌, ltb, leb,
  str_eq, count_if, All, arith, inl, inr, ◌⊎◌, Bool-cases, Option-cases,
}
use teleautomation_messaging.Messaging.Task.{priority_value, QueueTask}
use teleautomation_messaging.Messaging.Heapq.{HeapEntry, less, heappush}
use teleautomation_messaging.Messaging.Heapq.Holds.{Holds, Holds-count_if, heappush-Holds}
use teleautomation_messaging.Messaging.Heapq.Order.{before}
use teleautomation_messaging.Messaging.Queue.{
  Queue, Alert, depth, enqueue_unlocked, put_attempt, put_reject, set_processing, drain,
  get_attempt, pop_highest_priority, is_reply_to, drop_lowest_priority_task,
}
use teleautomation_messaging.Messaging.Queue.Ops.{
  QueueOp, put_registers, put_tries, put_tries_once, put_times_out, pops, gets, processes,
  completes, drains, cancels, checked, after_attempt, queue_step, queue_run,
}
use teleautomation_messaging.Messaging.Queue.Invariant.{
  IsValid, register-SameHeap, give_up-SameHeap, complete_task-SameHeap,
}
use teleautomation_messaging.Messaging.Queue.Room.{drop-Drops}
use teleautomation_messaging.Messaging.Queue.Eviction.{Evicts, Drops-Evicts}
use teleautomation_messaging.Messaging.Queue.Order.{Serves, pop-Serves, get_attempt-Serves}
use teleautomation_messaging.Messaging.Queue.Removal.{cancel_ai_auto_reply_for_user-heap}
use teleautomation_messaging.Messaging.Queue.Interleaving.{step-IsValid}
use teleautomation_messaging.Messaging.Queue.Bag.{
  Bag, bag_of, bag_of_same, put_in-bag_of, kept_by-bag_of, holding-bag_of, Stores, TakesFirst,
  TakesWorst, Allowed, Behaves,
}

-- The bag that a queue stands for.
abbrev pub view : Queue → Bag
view q = bag_of q.heap

bag_of-Holds : {xs ys : List HeapEntry} → Holds xs ys → bag_of xs ≡ bag_of ys
bag_of-Holds {xs} {ys} d = bag_of_same xs ys (λ p. Holds-count_if p d)

count_if-zero :
    (p : HeapEntry → Bool) (xs : List HeapEntry) → All (λ x. p x ≡ false) xs → count_if p xs ≡ 0
count_if-zero p [] h = refl
count_if-zero p (x ∷ xs) h = ground (arith, count_if-zero p xs h.1)

not_less :
    (e : HeapEntry) (xs : List HeapEntry)
    → All (λ x. before e x ≡ true) xs
    → count_if (λ x. less x e) xs ≡ 0
unfolding before
not_less e [] h = refl
not_less e (x ∷ xs) h = ground (arith, not_less e xs h.1)

not_worse :
    (n : ℕ) (xs : List HeapEntry)
    → All (λ x. x.priority ≤ n) xs
    → count_if (λ x. ltb n x.priority) xs ≡ 0
not_worse n [] h = refl
not_worse n (x ∷ xs) h = ground (arith, not_worse n xs h.1)

enqueue_unlocked-heap :
    (q : Queue) (task : QueueTask)
    → (enqueue_unlocked q task).0.heap
      ≡ heappush q.heap (record {
        priority = priority_value task.priority;
        sequence = q.sequence + 1;
        task = task;
      })
unfolding enqueue_unlocked
enqueue_unlocked-heap q task = ground arith

enqueue_unlocked-Stores :
    (q : Queue) (task : QueueTask) → Stores task (view q) (view (enqueue_unlocked q task).0)
enqueue_unlocked-Stores q task =
    let e : HeapEntry = record {
      priority = priority_value task.priority;
      sequence = q.sequence + 1;
      task = task;
    } in
    (
      q.sequence + 1,
      ap bag_of (enqueue_unlocked-heap q task)
          ∙ bag_of-Holds (heappush-Holds q.heap e)
          ∙ sym (put_in-bag_of e q.heap),
    )

Serves-TakesFirst :
    (q q' : Queue) (best : HeapEntry) → Serves q q' best → TakesFirst (view q) (view q')
Serves-TakesFirst q q' best s = (
  best,
  bag_of-Holds s.split ∙ sym (put_in-bag_of best q'.heap),
  holding-bag_of (λ x. less x best) q.heap ∙ not_less best q.heap s.least,
)

Evicts-TakesWorst : (q q' : Queue) (w : HeapEntry) → Evicts q q' w → TakesWorst (view q) (view q')
Evicts-TakesWorst q q' w v = (
  w,
  v.low,
  bag_of-Holds v.split ∙ sym (put_in-bag_of w q'.heap),
  holding-bag_of (λ x. ltb w.priority x.priority) q.heap ∙ not_worse w.priority q.heap v.worst,
)

put_attempt-refines :
    (q q' : Queue) (task : QueueTask) (alerts : List Alert)
    → put_attempt q task ≡ some (q', alerts)
    → Stores task (view q) (view q') ⊎ ((m : Bag) × TakesWorst (view q) m × Stores task m (view q'))
unfolding put_attempt
put_attempt-refines q q' task alerts e = elim (Bool-cases (ltb (depth q) q.max_size)) [
  | inl room ↦
      let r : q' ≡ (enqueue_unlocked q task).0 = ground arith in
      inl (rw r (enqueue_unlocked-Stores q task))
  | inr full ↦ elim (Option-cases (drop_lowest_priority_task q)) [
    | inl kept ↦ absurd (ground arith)
    | inr (q₁, dropped) ↦
        let (w, d) = drop-Drops q q₁ dropped in
        let r : q' ≡ (enqueue_unlocked q₁ task).0 = ground arith in
        inr (
          view q₁,
          Evicts-TakesWorst q q₁ w (Drops-Evicts q q₁ w d),
          rw r (enqueue_unlocked-Stores q₁ task),
        )
  ]
]

put_tries-refines :
    (q : Queue) (task : QueueTask)
    → Allowed (put_tries task) (view q) (view (queue_step q (put_tries task)))
unfolding queue_step checked after_attempt
put_tries-refines q task = elim (Bool-cases (str_eq task.account_id q.account_id)) [
  | inl own ↦ elim (Option-cases (put_attempt q task)) [
    | inl e ↦ rw (own, e, after_attempt) (inl refl)
    | inr ((q', alerts), e) ↦
        rw (own, e, after_attempt) (inr (put_attempt-refines q q' task alerts e))
  ]
  | inr other ↦ rw other (inl refl)
]

put_tries_once-refines :
    (q : Queue) (task : QueueTask)
    → Allowed (put_tries_once task) (view q) (view (queue_step q (put_tries_once task)))
unfolding queue_step checked put_reject
put_tries_once-refines q task = elim (Bool-cases (str_eq task.account_id q.account_id)) [
  | inl own ↦ elim (Bool-cases (leb q.max_size (depth q))) [
    | inl full ↦ rw (own, full) (inl refl)
    | inr room ↦ rw (own, room) (inr (enqueue_unlocked-Stores q task))
  ]
  | inr other ↦ rw other (inl refl)
]

checked-heap :
    (q : Queue) (task : QueueTask) (q' : Queue)
    → q'.heap ≡ q.heap
    → (checked q task q').heap ≡ q.heap
unfolding checked
checked-heap q task q' e = ground arith

pops-refines :
    (q : Queue) (now : ℕ) → Allowed (pops now) (view q) (view (pop_highest_priority q now).0)
pops-refines q now = elim (pop-Serves q now) [
  | inl (empty, e) ↦ inl (ap bag_of empty, ap (λ r. view r.0) e)
  | inr (best, e, s) ↦ inr (Serves-TakesFirst q _ best s)
]

gets-refines :
    (q : Queue) (now : ℕ) → IsValid q → Allowed (gets now) (view q) (view (get_attempt q now).0)
gets-refines q now v = elim (get_attempt-Serves q now v) [
  | inl (empty, e) ↦ inl (ap bag_of empty, ap (λ r. view r.0) e)
  | inr (best, q', e, s) ↦ rw e (inr (Serves-TakesFirst q q' best s))
]

step-refines : (q : Queue) (op : QueueOp) → IsValid q → Allowed op (view q) (view (queue_step q op))
unfolding queue_step
step-refines q (put_registers task) v =
    ap bag_of (checked-heap q task _ (register-SameHeap q task).heap)
step-refines q (put_tries task) v = unfold queue_step in put_tries-refines q task
step-refines q (put_tries_once task) v = unfold queue_step in put_tries_once-refines q task
step-refines q (put_times_out task) v =
    ap bag_of (checked-heap q task _ (give_up-SameHeap q task).heap)
step-refines q (pops now) v = pops-refines q now
step-refines q (gets now) v = gets-refines q now v
step-refines q (processes active) v = unfold set_processing in refl
step-refines q (completes id reply e) v = ap bag_of (complete_task-SameHeap q id reply e).heap
step-refines q drains v = unfold drain in refl
step-refines q (cancels uid) v =
    bag_of-Holds (cancel_ai_auto_reply_for_user-heap q uid).0
    ∙ sym (kept_by-bag_of (λ e. not (is_reply_to uid e)) q.heap)

-- The queue of an account implements the bag: whatever operations its coroutines run, in whatever
-- order, each one changes the bag of waiting tasks only in the way the bag allows for it. A task is
-- stored under its own priority; at most one entry is evicted for it, of the largest priority, neither
-- a direct message nor a retry, and all the others stay; a get or a pop takes an entry that no other comes before, and a cancellation takes exactly the replies to
-- the user. The queue starts out valid.
pub queue_run-Behaves :
    (q : Queue) (ops : List QueueOp) → IsValid q → Behaves ops (view q) (view (queue_run q ops))
unfolding queue_run
queue_run-Behaves q [] v = refl
queue_run-Behaves q (op ∷ ops) v = (
  view (queue_step q op),
  step-refines q op v,
  queue_run-Behaves (queue_step q op) ops (step-IsValid q op v),
)
