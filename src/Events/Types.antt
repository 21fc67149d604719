-- ===== src/Events/Types.antt =====
-- events/event_types.py, and the keys of an event's data that subscribers read.
use teleautomation_messaging.Prelude.{ℕ, String, Option, none}

pub data EventType : Type 0 where
  message_sent message_received account_sleep account_error call_initiated account_state : EventType
  queue_update queue_overflow retry_scheduled retry_exhausted worker_crashed worker_restarted :
      EventType
  health_alert metrics_update stats_reset cycle_complete : EventType

pub data SubscriberChannel : Type 0 where
  ui crm logs metrics : SubscriberChannel

pub record EventData : Type 0 where
  pub error : Option String
  pub user_id : Option ℕ
  pub channel : Option String
  pub name : Option String
  pub username : Option String

abbrev pub no_data : EventData
no_data = record { error = none; user_id = none; channel = none; name = none; username = none }
