-- ===== src/Events/Subscribers.antt =====
-- events/subscribers.py: what the registered subscribers do. Log lines are not modelled, their level
-- is.
use teleautomation_messaging.Prelude.{ℕ, String, Bool, Option, none, some, str_eq, if◌then◌else◌}
use teleautomation_messaging.Events.Types.{
  EventType, message_sent, message_received, account_sleep, account_error, queue_overflow,
  retry_scheduled, retry_exhausted, worker_crashed, worker_restarted, health_alert, EventData,
}
use teleautomation_messaging.Observability.Metrics.{
  MetricsStore, record_task_fail, record_retry_scheduled, record_retry_exhausted, record_flood_wait,
  record_worker_restart, record_queue_rejected,
}

-- A call of `crm_service.touch_from_message`.
pub record CrmTouch : Type 0 where
  pub account_id : String
  pub user_id : ℕ
  pub direction : String
  pub name : String
  pub username : String

abbrev or_text : Option String → String
or_text none = ""
or_text (some s) = s

touch : String → String → EventData → Option ℕ → Option CrmTouch
touch id direction info none = none
touch id direction info (some uid) = some (record {
  account_id = id;
  user_id = uid;
  direction = direction;
  name = or_text info.name;
  username = or_text info.username;
})

abbrev is_dm : Option String → Bool
is_dm none = Bool.false
is_dm (some c) = str_eq c "dm"

unfoldable pub crm_subscriber : String → EventType → EventData → Option CrmTouch
unfolding touch
crm_subscriber id message_received info = touch id "in" info info.user_id
crm_subscriber id message_sent info =
    if is_dm info.channel then touch id "out" info info.user_id else none
crm_subscriber id _ info = none

unfoldable pub logs_level : EventType → String
logs_level account_error = "error"
logs_level retry_exhausted = "error"
logs_level worker_crashed = "error"
logs_level account_sleep = "warning"
logs_level retry_scheduled = "warning"
logs_level health_alert = "warning"
logs_level _ = "info"

unfoldable pub metrics_subscriber : String → EventType → EventData → ℕ → MetricsStore → MetricsStore
metrics_subscriber id account_error info now = record_task_fail id (or_text info.error) now
metrics_subscriber id retry_scheduled info now = record_retry_scheduled id
metrics_subscriber id retry_exhausted info now = record_retry_exhausted id
metrics_subscriber id account_sleep info now = record_flood_wait id
metrics_subscriber id worker_restarted info now = record_worker_restart id
metrics_subscriber id queue_overflow info now = record_queue_rejected id
metrics_subscriber id _ info now = λ store. store
