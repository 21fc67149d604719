-- ===== src/Messaging/Queue/Waiting.antt =====
-- How `put` ends (messaging/account_queue.py, put).
use teleautomation_messaging.Prelude.{
  ℕ, zero, suc, ◌+◌, ◌≤◌, ◌≡◌, ◌⊎◌, inl, inr, refl, true, none, some, List, [], ◌∷◌, leb, str_eq,
  length, get_elem?, exists_in, lookup, lookup-insert, lookup-erase, get_elem?-append_last,
  Option-cases, Bool-cases, arith, eq_iff,
}
use teleautomation_messaging.Messaging.Task.{QueueTask}
use teleautomation_messaging.Messaging.Future.{Error, Future, waiting, exception, settle_at}
use teleautomation_messaging.Messaging.Queue.{
  Queue, depth, register, finish, give_up, full_error, put_attempt, put_reject, Turn, PutOutcome,
  stored, failed, put_loop, put, outcome_of,
}

abbrev pub IsFinal : PutOutcome → Type 0
IsFinal o = (o ≡ stored) ⊎ ((e : Error) × (o ≡ failed e))

put_loop-IsFinal :
    (task : QueueTask) (deadline : ℕ) (turns : List Turn) (q : Queue)
    → exists_in (λ t. leb deadline t.now) turns ≡ true
    → IsFinal (put_loop task deadline turns q).2
unfolding put_loop
put_loop-IsFinal task deadline [] q h = cc
put_loop-IsFinal task deadline (t ∷ ts) q h = elim (Option-cases (put_attempt q task)) [
  | inr ((q', alerts), e) ↦ rw (e, put_loop) (inl refl)
  | inl e ↦ elim (Bool-cases (leb deadline t.now)) [
    | inl late ↦ rw (e, put_loop) (rw late (inr (_, refl)))
    | inr early ↦
        rw (e, put_loop) (rw early (put_loop-IsFinal task deadline ts (t.others q) (ground arith)))
  ]
]

put_reject-IsFinal : (q : Queue) (task : QueueTask) → IsFinal (outcome_of (put_reject q task)).2
unfolding put_reject
put_reject-IsFinal q task = elim (Bool-cases (leb q.max_size (depth q))) [
  | inl full ↦ rw (full, put_reject) (inr (_, refl))
  | inr room ↦ rw (room, put_reject) (inl refl)
]

-- Under every policy `put` ends, stored or refused, as soon as the event loop gives it a turn at or
-- after its deadline, whatever the other coroutines do meanwhile.
pub put-IsFinal :
    (q : Queue) (task : QueueTask) (start : ℕ) (turns : List Turn)
    → exists_in (λ t. leb (start + q.config.put_timeout) t.now) turns ≡ true
    → IsFinal (put q task start turns).2
unfolding put
put-IsFinal q task start turns h = elim (Bool-cases (str_eq task.account_id q.account_id)) [
  | inr other ↦ rw (other, put) (inr (_, refl))
  | inl own ↦ elim (Bool-cases (str_eq q.config.policy "reject")) [
    | inl at_once ↦ rw (own, put) (rw at_once (put_reject-IsFinal (register q task) task))
    | inr waits ↦
        rw (own, put)
          (rw waits
            (put_loop-IsFinal task (start + q.config.put_timeout) turns (register q task) h))
  ]
]

settle_at-waiting :
    (fs : List Future) (i : ℕ) (new : Future)
    → get_elem? fs i ≡ some waiting
    → get_elem? (settle_at fs i new) i ≡ some new
settle_at-waiting [] i new h = cc
settle_at-waiting (f ∷ fs) zero new h = ground arith
settle_at-waiting (f ∷ fs) (suc i) new h = settle_at-waiting fs i new h

-- A `put` that reaches its deadline, of a task that someone waits for, hands the error to the waiter
-- and forgets the future.
pub give_up_notifies :
    (q : Queue) (task : QueueTask) (i : ℕ)
    → task.wait_result ≡ true
    → lookup task.task_id q.pending ≡ some i
    → get_elem? q.futures i ≡ some waiting
    → let q' = give_up q task in
      (get_elem? q'.futures i ≡ some (exception (full_error q)))
      × (lookup task.task_id q'.pending ≡ none)
      × (q'.heap ≡ q.heap)
      × (q'.rejected_total ≡ q.rejected_total + 1)
unfolding give_up finish full_error
give_up_notifies q task i w l f = ground (
  arith,
  settle_at-waiting q.futures i (exception (full_error q)) f,
  lookup-erase task.task_id task.task_id q.pending,
  eq_iff task.task_id task.task_id,
)

-- Under the policy "reject" a full queue refuses a task at once and keeps its heap, but the future of
-- a task that someone waits for stays registered, and nothing has been set on it.
pub put_reject_leaves_future :
    (q : Queue) (task : QueueTask) (start : ℕ) (turns : List Turn)
    → task.account_id ≡ q.account_id
    → q.config.policy ≡ "reject"
    → q.max_size ≤ depth q
    → task.wait_result ≡ true
    → let r = put q task start turns in
      (r.2 ≡ failed (full_error q))
      × (lookup task.task_id r.0.pending ≡ some (length q.futures))
      × (get_elem? r.0.futures (length q.futures) ≡ some waiting)
      × (r.0.heap ≡ q.heap)
      × (r.0.rejected_total ≡ q.rejected_total + 1)
unfolding put put_reject register full_error
put_reject_leaves_future q task start turns own policy full w = ground (
  arith,
  eq_iff task.account_id q.account_id,
  eq_iff q.config.policy "reject",
  lookup-insert task.task_id task.task_id (length q.futures) q.pending,
  eq_iff task.task_id task.task_id,
  get_elem?-append_last q.futures waiting,
)
