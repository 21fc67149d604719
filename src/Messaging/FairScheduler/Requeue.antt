-- ===== src/Messaging/FairScheduler/Requeue.antt =====
-- A task that a pause puts back on its queue (messaging/fair_scheduler.py, yield_for_priority_work, with
-- put of messaging/account_queue.py).
use teleautomation_messaging.Prelude.{
  ℕ, zero, suc, ◌<◌, ◌≡◌, ◌≢◌, refl, String, true, false, some, List, [], ◌∷◌, length, get_elem?,
  get_elem?-append_left, lookup, lookup-insert, ltb, arith, eq_iff,
}
use teleautomation_messaging.Messaging.Task.{high, priority_value, QueueTask}
use teleautomation_messaging.Messaging.Future.{Future, waiting}
use teleautomation_messaging.Messaging.Queue.{Queue, Turn, depth, register, enqueue_unlocked}
use teleautomation_messaging.Messaging.World.{World, set_queue}
use teleautomation_messaging.Messaging.Retry.{RetryConfig}
use teleautomation_messaging.Messaging.Worker.{Services}
use teleautomation_messaging.Messaging.Router.Isolation.{alert_all-queues}
use teleautomation_messaging.Messaging.Router.Stored.{put-room, stored_queue}
use teleautomation_messaging.Messaging.FairScheduler.{Round, Yielding, put_back, service}

-- The waiter of future `i` is forgotten: the future is not set, and the task is registered under another.
pub record Orphans (task_id : String) (i : ℕ) (q : Queue) : Type 0 where
  pub unset : get_elem? q.futures i ≡ some waiting
  pub registered : (j : ℕ) × (lookup task_id q.pending ≡ some j) × (j ≢ i)

get_elem?-lt : (xs : List Future) (i : ℕ) (a : Future) → get_elem? xs i ≡ some a → i < length xs
get_elem?-lt [] i a h = cc
get_elem?-lt (x ∷ xs) zero a h = omega arith
get_elem?-lt (x ∷ xs) (suc i) a h = omega (arith, get_elem?-lt xs i a h)

stored_queue-Orphans :
    (q : Queue) (task : QueueTask) (i : ℕ)
    → task.wait_result ≡ true
    → get_elem? q.futures i ≡ some waiting
    → Orphans task.task_id i (stored_queue q task)
unfolding enqueue_unlocked register
stored_queue-Orphans q task i waits unset =
    let below = get_elem?-lt q.futures i waiting unset in
    record {
      unset = ground (arith, get_elem?-append_left q.futures (waiting ∷ []) i waiting unset);
      registered = (
        length q.futures,
        ground (
          arith,
          lookup-insert task.task_id task.task_id (length q.futures) q.pending,
          eq_iff task.task_id task.task_id,
        ),
        λ e. omega arith,
      );
    }

put_back-queue :
    (id : String) (q : Queue) (task : QueueTask) (t : Turn) (turns : List Turn) (w : World)
    → task.account_id ≡ q.account_id
    → depth q < q.max_size
    → lookup id (put_back id q task (t ∷ turns) w).queues ≡ some (stored_queue q task)
unfolding put_back set_queue
put_back-queue id q task t turns w own room = rw (put-room q task w.now t turns own room) (
    rw (alert_all-queues id)
      (ground (arith, lookup-insert id id (stored_queue q task) w.queues, eq_iff id id)))

-- A pause that pops a task of normal or low priority puts it back and ends. If someone waits for that
-- task, the waiter is forgotten: the future that it waits on is not set, and the task is registered
-- under a new future. The queue has room for the task.
pub service-Orphans :
    (sv : Services) (cfg : RetryConfig) (r : Round) (q : Queue) (task : QueueTask) (y : Yielding)
    (t : Turn) (turns : List Turn) (i : ℕ)
    → r.turns ≡ t ∷ turns
    → priority_value high < priority_value task.priority
    → task.account_id ≡ q.account_id
    → depth q < q.max_size
    → task.wait_result ≡ true
    → lookup task.task_id q.pending ≡ some i
    → get_elem? q.futures i ≡ some waiting
    → let (y', on) = service sv cfg r q task y in
      (on ≡ false)
      × ((q' : Queue) × (lookup y.scheduler.account_id y'.world.queues ≡ some q')
          × Orphans task.task_id i q')
unfolding service
service-Orphans sv cfg r q task y t turns i given low own room waits pending unset =
    let late : ltb (priority_value high) (priority_value task.priority) ≡ true = ground arith in
    rw (late, service)
      (rw given (
        refl,
        (
          stored_queue q task,
          put_back-queue y.scheduler.account_id q task t turns y.world own room,
          stored_queue-Orphans q task i waits unset,
        ),
      ))
