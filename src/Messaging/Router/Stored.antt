-- ===== src/Messaging/Router/Stored.antt =====
-- Routing to a queue with room, and the future that `route_and_wait` hands out
-- (messaging/message_router.py).
use teleautomation_messaging.Prelude.{
  ℕ, ◌<◌, ◌≡◌, refl, String, true, some, List, [], ◌∷◌, length, get_elem?, lookup, insert,
  lookup-insert, arith, eq_iff, get_elem?-append_last,
}
use teleautomation_messaging.Messaging.Task.{QueueTask}
use teleautomation_messaging.Messaging.Future.{waiting}
use teleautomation_messaging.Messaging.Queue.{
  Queue, Alert, depth, Turn, stored, register, enqueue_unlocked, put_attempt, put_loop, put_reject,
  put, wait_for_task,
}
use teleautomation_messaging.Messaging.World.{
  World, Result, ok, alert, alert_all, is_account, get_queue, set_queue,
}
use teleautomation_messaging.Messaging.Router.Isolation.{alert_all-queues}
use teleautomation_messaging.Messaging.Router.{
  after_put, route, route_and_wait, await_reply, future_of,
}

-- A queue with room stores a task at once, under every policy: on the loop's first turn.
pub put-room :
    (q : Queue) (task : QueueTask) (start : ℕ) (t : Turn) (turns : List Turn)
    → task.account_id ≡ q.account_id
    → depth q < q.max_size
    → let e = enqueue_unlocked (register q task) task in
      put q task start (t ∷ turns) ≡ (e.0, e.1, stored)
unfolding put put_reject put_loop put_attempt register
put-room q task start t turns own room = ground (arith, eq_iff task.account_id q.account_id)

alert_all-accounts :
    (id : String) (as' : List Alert) (w : World) → (alert_all id as' w).accounts ≡ w.accounts
unfolding alert_all alert
alert_all-accounts id [] w = refl
alert_all-accounts id (a ∷ rest) w = alert_all-accounts id rest (alert id a.level a.code w)

-- The queue after the task was stored.
abbrev pub stored_queue : Queue → QueueTask → Queue
stored_queue q task = (enqueue_unlocked (register q task) task).0

after_put-stored :
    (task : QueueTask) (w : World) (q : Queue) (alerts : List Alert)
    → ((after_put task w (q, alerts, stored)).1 ≡ ok task.task_id)
      × (lookup task.account_id (after_put task w (q, alerts, stored)).0.queues ≡ some q)
      × ((after_put task w (q, alerts, stored)).0.accounts ≡ w.accounts)
unfolding after_put set_queue
after_put-stored task w q alerts = (
  refl,
  rw (alert_all-queues task.account_id alerts) (
      ground (
        arith,
        lookup-insert task.account_id task.account_id q w.queues,
        eq_iff task.account_id task.account_id,
      )),
  alert_all-accounts task.account_id alerts _,
)

module _ (w : World) (q : Queue) (task : QueueTask) (t : Turn) (turns : List Turn)
    (known : is_account w task.account_id ≡ true) (at : lookup task.account_id w.queues ≡ some q)
    (own : task.account_id ≡ q.account_id) (room : depth q < q.max_size) where
  -- Routing to a queue with room stores the task there.
  pub route-room :
      let r = route w task (t ∷ turns) in
      (r.1 ≡ ok task.task_id)
      × (lookup task.account_id r.0.queues ≡ some (stored_queue q task))
      × (r.0.accounts ≡ w.accounts)
  unfolding route get_queue is_account
  route-room =
      rw (known, route)
        (rw at (
          rw (put-room q task w.now t turns own room) (
            after_put-stored task
              (record w { processors = insert task.account_id true w.processors })
              (stored_queue q task) (enqueue_unlocked (register q task) task).1)))

stored_queue-future :
    (q : Queue) (task : QueueTask)
    → task.wait_result ≡ true
    → (wait_for_task (stored_queue q task) task ≡ some (length q.futures))
      × (get_elem? (stored_queue q task).futures (length q.futures) ≡ some waiting)
unfolding enqueue_unlocked register wait_for_task
stored_queue-future q task waits = ground (
  arith,
  lookup-insert task.task_id task.task_id (length q.futures) q.pending,
  eq_iff task.task_id task.task_id,
  get_elem?-append_last q.futures waiting,
)

await_reply-stored :
    (task : QueueTask) (w : World) (r : Result String) (id : String) (q : Queue) (i : ℕ)
    → r ≡ ok id
    → is_account w task.account_id ≡ true
    → lookup task.account_id w.queues ≡ some q
    → wait_for_task q task ≡ some i
    → await_reply task (w, r) ≡ (w, ok i)
unfolding await_reply get_queue
await_reply-stored task w r id q i stored_as known at found =
    rw (stored_as, known, at) (rw (found, future_of) refl)

-- A caller that waits for a task, routed to a queue with room, gets the future of that task, and the
-- future is not set yet.
pub route_and_wait-future :
    (w : World) (q : Queue) (task : QueueTask) (t : Turn) (turns : List Turn)
    → is_account w task.account_id ≡ true
    → lookup task.account_id w.queues ≡ some q
    → task.account_id ≡ q.account_id
    → depth q < q.max_size
    → let r = route_and_wait w task (t ∷ turns) in
      (r.1 ≡ ok (length q.futures))
      × ((q' : Queue) × (lookup task.account_id r.0.queues ≡ some q')
          × (get_elem? q'.futures (length q.futures) ≡ some waiting))
unfolding route_and_wait
route_and_wait-future w q task t turns known at own room =
    let waiting_task = record task { wait_result = true } in
    let (stored_as, found, accounts) = route-room w q waiting_task t turns known at own room in
    let (at_future, unset) = stored_queue-future q waiting_task refl in
    let r = route w waiting_task (t ∷ turns) in
    let e =
      await_reply-stored waiting_task r.0 r.1 task.task_id (stored_queue q waiting_task)
        (length q.futures) stored_as (unfold is_account in rw accounts known) found at_future in
    rw e (refl, (stored_queue q waiting_task, found, unset))
