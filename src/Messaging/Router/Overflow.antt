-- ===== src/Messaging/Router/Overflow.antt =====
-- What a full queue does to the counters of its account (messaging/message_router.py, route, with the
-- metrics subscriber of events/subscribers.py).
use teleautomation_messaging.Prelude.{
  ℕ, ◌+◌, ◌≡◌, refl, ◌∙◌, ap, String, true, Option, none, some, List, [], ◌∷◌, insert, inl, inr,
  Bool-cases, arith, eq_iff,
}
use teleautomation_messaging.Observability.Metrics.{
  MetricsStore, metrics_of, record_queue_rejected, metrics_of-update,
}
use teleautomation_messaging.Events.Types.{queue_overflow, no_data}
use teleautomation_messaging.Events.Subscribers.{metrics_subscriber}
use teleautomation_messaging.Messaging.Task.{QueueTask}
use teleautomation_messaging.Messaging.Future.{
  value_error, key_error, runtime_error, raised, backpressure,
}
use teleautomation_messaging.Messaging.Queue.{
  Queue, Alert, Turn, PutOutcome, stored, still_waiting, failed, put,
}
use teleautomation_messaging.Messaging.World.{
  World, ok, err, publish_event-metrics, alert, alert_all, is_account, get_queue, set_queue,
}
use teleautomation_messaging.Messaging.Router.{refused, after_put, put_on, route}

record_queue_rejected-metrics :
    (id : String) (store : MetricsStore)
    → (metrics_of (record_queue_rejected id store) id).queue_rejected
      ≡ (metrics_of store id).queue_rejected + 1
unfolding record_queue_rejected
record_queue_rejected-metrics id store = ground (
  arith,
  metrics_of-update id id (λ m. record m { queue_rejected = m.queue_rejected + 1 }) store,
  eq_iff id id,
)

refused-metrics :
    (a id : String) (d m : ℕ) (w : World)
    → (metrics_of (refused (backpressure a d m) id w).metrics id).queue_rejected
      ≡ (metrics_of w.metrics id).queue_rejected + 2
unfolding refused
refused-metrics a id d m w =
    rw
      (publish_event-metrics queue_overflow id no_data
        (record w { metrics = record_queue_rejected id w.metrics }))
      (unfold metrics_subscriber in
        omega (
          arith,
          record_queue_rejected-metrics id (record_queue_rejected id w.metrics),
          record_queue_rejected-metrics id w.metrics,
        ))

alert_all-metrics :
    (id : String) (as' : List Alert) (w : World) → (alert_all id as' w).metrics ≡ w.metrics
unfolding alert_all alert
alert_all-metrics id [] w = refl
alert_all-metrics id (a ∷ rest) w = alert_all-metrics id rest (alert id a.level a.code w)

abbrev rejected : String → World → ℕ
rejected id w = (metrics_of w.metrics id).queue_rejected

queued-rejected :
    (id : String) (q : Queue) (alerts : List Alert) (w : World)
    → rejected id (alert_all id alerts (set_queue id q w)) ≡ rejected id w
unfolding set_queue
queued-rejected id q alerts w = rw (alert_all-metrics id alerts) refl

after_put-rejected :
    (task : QueueTask) (w : World) (q : Queue) (alerts : List Alert) (o : PutOutcome)
    → ((a : String) (d m : ℕ)
        → (after_put task w (q, alerts, o)).1 ≡ err (backpressure a d m)
        → rejected task.account_id (after_put task w (q, alerts, o)).0
          ≡ rejected task.account_id w + 2)
      × ((id : String)
          → (after_put task w (q, alerts, o)).1 ≡ ok id
          → rejected task.account_id (after_put task w (q, alerts, o)).0
            ≡ rejected task.account_id w)
unfolding after_put
after_put-rejected task w q alerts stored =
    (λ a d m e. cc, λ id e. queued-rejected task.account_id q alerts w)
after_put-rejected task w q alerts still_waiting = (λ a d m e. cc, λ id e. cc)
after_put-rejected task w q alerts (failed (backpressure a d m)) = (
  λ a' d' m' e.
      refused-metrics a task.account_id d m _
      ∙ ap (λ (n : ℕ). n + 2) (queued-rejected task.account_id q alerts w),
  λ id e. cc,
)
after_put-rejected task w q alerts (failed (value_error t)) = (λ a d m e. cc, λ id e. cc)
after_put-rejected task w q alerts (failed (key_error t)) = (λ a d m e. cc, λ id e. cc)
after_put-rejected task w q alerts (failed (runtime_error t)) = (λ a d m e. cc, λ id e. cc)
after_put-rejected task w q alerts (failed (raised t s)) = (λ a d m e. cc, λ id e. cc)

put_on-rejected :
    (task : QueueTask) (turns : List Turn) (w : World) (o : Option Queue)
    → ((a : String) (d m : ℕ)
        → (put_on task turns w o).1 ≡ err (backpressure a d m)
        → rejected task.account_id (put_on task turns w o).0 ≡ rejected task.account_id w + 2)
      × ((id : String)
          → (put_on task turns w o).1 ≡ ok id
          → rejected task.account_id (put_on task turns w o).0 ≡ rejected task.account_id w)
put_on-rejected task turns w none = (λ a d m e. cc, λ id e. cc)
put_on-rejected task turns w (some q) =
    let (q', alerts, o) = put q task w.now turns in after_put-rejected task w q' alerts o

-- A task that a full queue refuses is counted twice in `queue_rejected` of its account: by `route`,
-- and by the metrics subscriber of the event that `route` publishes. A task that is queued is not
-- counted there.
pub route-rejected :
    (w : World) (task : QueueTask) (turns : List Turn)
    → ((a : String) (d m : ℕ)
        → (route w task turns).1 ≡ err (backpressure a d m)
        → rejected task.account_id (route w task turns).0 ≡ rejected task.account_id w + 2)
      × ((id : String)
          → (route w task turns).1 ≡ ok id
          → rejected task.account_id (route w task turns).0 ≡ rejected task.account_id w)
unfolding route
route-rejected w task turns = elim (Bool-cases (is_account w task.account_id)) [
  | inl known ↦
      rw (known, route)
        (put_on-rejected task turns
          (record w { processors = insert task.account_id true w.processors })
          (get_queue _ task.account_id))
  | inr unknown ↦ rw (unknown, route) (λ a d m e. cc, λ id e. cc)
]
