-- ===== src/Tests/Stores.antt =====
-- Serialised tasks, priorities, alerts and the event bus (messaging/queue_backend.py,
-- messaging/task_types.py, core/observability/alerts.py, events/event_bus.py).
use teleautomation_messaging.Prelude.{
  ℕ, ◌+◌, ◌≡◌, ◌≢◌, String, true, false, none, some, [], ◌∷◌, arith, eq_iff,
}
use teleautomation_messaging.Observability.Alerts.{AlertStore}
use teleautomation_messaging.Events.Bus.{Handler, EventBus}
use teleautomation_messaging.Messaging.Task.{run_cycle, normal, empty, new_task}
use teleautomation_messaging.Messaging.Backend.{
  serialize, deserialize, deserialize-serialize-new_task,
}

deserialize-serialize-new_task_example :
    deserialize (serialize (new_task "a" run_cycle empty "t1" 2 false normal))
    ≡ some (new_task "a" run_cycle empty "t1" 2 false normal)
deserialize-serialize-new_task_example =
    deserialize-serialize-new_task "a" run_cycle empty "t1" 2 false normal

abbrev alerts : AlertStore
alerts =
    ("a", record { account_id = "a"; level = "warning"; code = "queue_high_water"; ts = 5 } ∷ [])
    ∷ ("b", record { account_id = "b"; level = "error"; code = "retry_skip"; ts = 9 } ∷ [])
    ∷ []

-- A handler that counts, and raises.
abbrev counting : Handler ℕ
counting id event info n = (n + 1, true)

abbrev empty_bus : EventBus ℕ
empty_bus = record {
  channels = [];
  account_handlers = [];
  on_state_push = none;
  broadcast = λ event id info n. n;
}

a_is_named : ◌≢◌ {A = String} "a" ""
a_is_named e = ground (arith, eq_iff "a" "")
