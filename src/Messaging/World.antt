-- ===== src/Messaging/World.antt =====
-- What the coroutines of the program share: the accounts, their queues and queue processors, the
-- counters, the alerts, the CRM's touches, the published events, and the retries that sleep.
use teleautomation_messaging.Prelude.{
  ℕ, ◌≡◌, refl, arith, String, Bool, true, false, Option, none, some, List, [], ◌∷◌, ◌++◌, Dict,
  lookup, insert, exists_in, str_eq, if◌then◌else◌,
}
use teleautomation_messaging.Observability.Metrics.{MetricsStore}
use teleautomation_messaging.Observability.Alerts.{AlertStore, push_alert}
use teleautomation_messaging.Events.Types.{EventType, ui, crm, logs, metrics, EventData}
use teleautomation_messaging.Events.Bus.{
  EventBus, Handler, subscribe, publish, run_handlers, handlers_for, all_channel_handlers,
}
use teleautomation_messaging.Events.Subscribers.{CrmTouch, crm_subscriber, metrics_subscriber}
use teleautomation_messaging.Messaging.Task.{QueueTask}
use teleautomation_messaging.Messaging.Future.{Error}
use teleautomation_messaging.Messaging.Queue.{QueueConfig, Queue, Alert, drain, new_queue}

-- messaging/retry_manager.py, `_enqueue`: a coroutine that sleeps before it puts a retry.
pub record SleepingRetry : Type 0 where
  pub account_id : String
  pub original : QueueTask
  pub delay : ℕ

pub record World : Type 0 where
  pub now : ℕ
  pub accounts : List String
  pub config : QueueConfig
  pub queues : Dict Queue
  pub processors : Dict Bool
  pub metrics : MetricsStore
  pub alerts : AlertStore
  pub touches : List CrmTouch
  pub published : List (EventType × String)
  pub scheduled : Dict (List String)
  pub retry_times : Dict (List ℕ)
  pub sleeping : List SleepingRetry

pub data Result {ℓ} (A : Type ℓ) : Type ℓ where
  ok : A → Result A
  err : Error → Result A
  pending : Result A

-- The subscribers that only write log lines.
silent : Handler World
silent id event info w = (w, false)

abbrev pub add_touch : Option CrmTouch → World → World
add_touch none w = w
add_touch (some t) w = record w { touches = w.touches ++ t ∷ [] }

crm_handler : Handler World
crm_handler id event info w = (add_touch (crm_subscriber id event info) w, false)

metrics_handler : Handler World
metrics_handler id event info w =
    (record w { metrics = metrics_subscriber id event info w.now w.metrics }, false)

-- The broadcast to the dashboards, of which the event is kept.
unfoldable pub note_event : EventType → String → EventData → World → World
note_event event id info w = record w { published = w.published ++ (event, id) ∷ [] }

-- `event_bus`, after `register_event_subscribers()`.
registered_bus : EventBus World
unfolding subscribe silent crm_handler metrics_handler note_event
registered_bus = subscribe metrics_handler (some metrics) none (
    subscribe silent (some logs) none (
      subscribe crm_handler (some crm) none (
        subscribe silent (some ui) none (record {
          channels = [];
          account_handlers = [];
          on_state_push = none;
          broadcast = note_event;
        }))))

-- `event_bus.publish(event, account_id, data)`
unfoldable pub publish_event : EventType → String → EventData → World → World
unfolding registered_bus
publish_event event id info w = publish registered_bus event id info true true w

unfoldable pub alert : String → String → String → World → World
alert id level code w = record w { alerts = push_alert id level code w.now w.alerts }

unfoldable pub alert_all : String → List Alert → World → World
alert_all id [] w = w
alert_all id (a ∷ rest) w = alert_all id rest (alert id a.level a.code w)

unfoldable pub is_account : World → String → Bool
is_account w id = exists_in (str_eq id) w.accounts

abbrev found_or_new : World → String → Option Queue → Option Queue
found_or_new w id (some q) = some q
found_or_new w id none = new_queue w.accounts w.config id w.now

-- `queue_manager.get_queue(account_id)`; `none` is its ValueError.
unfoldable pub get_queue : World → String → Option Queue
get_queue w id = if is_account w id then found_or_new w id (lookup id w.queues) else none

unfoldable pub set_queue : String → Queue → World → World
set_queue id q w = record w { queues = insert id q w.queues }

abbrev drained_queue : String → World → Option Queue → Option (World × ℕ)
drained_queue id w none = none
drained_queue id w (some q) = let (q', n) = drain q in some (set_queue id q' w, n)

-- `queue_manager.drain_account(account_id)`; `none` is its ValueError.
unfoldable pub drain_account : String → World → Option (World × ℕ)
drain_account id w = drained_queue id w (get_queue w id)

-- What a publication does: the dashboards see the event, the CRM is touched, and then the counters
-- move.
pub publish_event_lem :
    (event : EventType) (id : String) (info : EventData) (w : World)
    → publish_event event id info w ≡ (
        let w' = add_touch (crm_subscriber id event info) (note_event event id info w) in
        record w' { metrics = metrics_subscriber id event info w'.now w'.metrics })
unfolding publish_event publish run_handlers handlers_for all_channel_handlers lookup
publish_event_lem event id info w = refl

-- A publication touches nothing that queues and retries rest on.
pub record SameQueues (w w' : World) : Type 0 where
  pub now : w'.now ≡ w.now
  pub accounts : w'.accounts ≡ w.accounts
  pub config : w'.config ≡ w.config
  pub queues : w'.queues ≡ w.queues
  pub processors : w'.processors ≡ w.processors
  pub alerts : w'.alerts ≡ w.alerts
  pub scheduled : w'.scheduled ≡ w.scheduled
  pub retry_times : w'.retry_times ≡ w.retry_times
  pub sleeping : w'.sleeping ≡ w.sleeping

pub publish_event-SameQueues :
    (event : EventType) (id : String) (info : EventData) (w : World)
    → SameQueues w (publish_event event id info w)
unfolding note_event
publish_event-SameQueues event id info w = rw (publish_event_lem event id info w) (ground arith)

pub publish_event-metrics :
    (event : EventType) (id : String) (info : EventData) (w : World)
    → (publish_event event id info w).metrics ≡ metrics_subscriber id event info w.now w.metrics
unfolding note_event
publish_event-metrics event id info w = rw (publish_event_lem event id info w) (ground arith)
