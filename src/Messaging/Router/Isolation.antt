-- ===== src/Messaging/Router/Isolation.antt =====
-- Routing keeps accounts apart (messaging/message_router.py).
use teleautomation_messaging.Prelude.{
  ◌≡◌, ◌≢◌, ◌∙◌, refl, String, Bool, true, false, Option, none, some, List, [], ◌∷◌, lookup,
  lookup-insert, insert, Bool-cases, inl, inr, arith, eq_iff,
}
use teleautomation_messaging.Observability.Metrics.{record_queue_rejected}
use teleautomation_messaging.Events.Types.{queue_overflow, no_data}
use teleautomation_messaging.Messaging.Task.{QueueTask}
use teleautomation_messaging.Messaging.Future.{Error, backpressure}
use teleautomation_messaging.Messaging.Queue.{
  Queue, Alert, Turn, PutOutcome, stored, still_waiting, failed, put,
}
use teleautomation_messaging.Messaging.World.{
  World, Result, ok, err, pending, alert, alert_all, is_account, get_queue, set_queue,
  publish_event-SameQueues,
}
use teleautomation_messaging.Messaging.Router.{
  invalid_account, refused, after_put, put_on, route, await_reply, route_and_wait, send_as, send,
}

pub alert_all-queues :
    (id : String) (as' : List Alert) (w : World) → (alert_all id as' w).queues ≡ w.queues
unfolding alert_all alert
alert_all-queues id [] w = refl
alert_all-queues id (a ∷ rest) w = alert_all-queues id rest (alert id a.level a.code w)

pub refused-queues : (e : Error) (id : String) (w : World) → (refused e id w).queues ≡ w.queues
unfolding refused
refused-queues (backpressure a d m) id w =
    (publish_event-SameQueues queue_overflow id no_data
      (record w { metrics = record_queue_rejected id w.metrics })).queues
refused-queues _ id w = refl

pub after_put-queues :
    (task : QueueTask) (w : World) (q : Queue) (alerts : List Alert) (o : PutOutcome)
    → (after_put task w (q, alerts, o)).0.queues ≡ insert task.account_id q w.queues
unfolding after_put set_queue
after_put-queues task w q alerts stored = alert_all-queues task.account_id alerts _
after_put-queues task w q alerts still_waiting = alert_all-queues task.account_id alerts _
after_put-queues task w q alerts (failed e) =
    refused-queues e task.account_id _ ∙ alert_all-queues task.account_id alerts _

-- The queue of account `id` is the same in both worlds.
abbrev pub SameQueue : String → World → World → Type 0
SameQueue id w w' = lookup id w'.queues ≡ lookup id w.queues

put_on-SameQueue :
    (task : QueueTask) (turns : List Turn) (w : World) (o : Option Queue) (id : String)
    → id ≢ task.account_id
    → SameQueue id w (put_on task turns w o).0
put_on-SameQueue task turns w none id ne = refl
put_on-SameQueue task turns w (some q) id ne =
    let (q', alerts, o) = put q task w.now turns in
    rw (after_put-queues task w q' alerts o)
      (ground (arith, lookup-insert task.account_id id q' w.queues, eq_iff task.account_id id))

-- Routing a task changes the queue of no other account, on every path. For an account that is not
-- configured it raises and changes nothing at all.
pub route-SameQueue :
    (w : World) (task : QueueTask) (turns : List Turn) (id : String)
    → (id ≢ task.account_id → SameQueue id w (route w task turns).0)
      × (is_account w task.account_id ≡ false
          → route w task turns ≡ (w, err (invalid_account task.account_id)))
unfolding route
route-SameQueue w task turns id = elim (Bool-cases (is_account w task.account_id)) [
  | inl known ↦ (
    λ ne. rw (known, route) (put_on-SameQueue task turns _ (get_queue _ task.account_id) id ne),
    λ unknown. cc,
  )
  | inr unknown ↦ (λ ne. rw (unknown, route) refl, λ _. rw unknown)
]

pub await_reply-world :
    (task : QueueTask) (r : World × Result String) → (await_reply task r).0 ≡ r.0
unfolding await_reply
await_reply-world task (w, ok id) = refl
await_reply-world task (w, err e) = refl
await_reply-world task (w, pending) = refl

send_as-SameQueue :
    (wait : Bool) (w : World) (task : QueueTask) (turns : List Turn) (id : String)
    → id ≢ task.account_id
    → SameQueue id w (send_as wait w task turns).0
unfolding send_as route_and_wait
send_as-SameQueue true w task turns id ne =
    rw (await_reply-world _ (route w (record task { wait_result = true }) turns))
      ((route-SameQueue w (record task { wait_result = true }) turns id).0 ne)
send_as-SameQueue false w task turns id ne = (route-SameQueue w task turns id).0 ne

-- Whether or not the caller waits, sending a task changes the queue of no other account.
pub send-SameQueue :
    (w : World) (task : QueueTask) (turns : List Turn) (id : String)
    → id ≢ task.account_id
    → SameQueue id w (send w task turns).0
unfolding send
send-SameQueue w task turns id ne = send_as-SameQueue task.wait_result w task turns id ne
