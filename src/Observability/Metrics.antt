-- ===== src/Observability/Metrics.antt =====
-- core/observability/account_metrics.py: counters of each account, created when first touched.
use teleautomation_messaging.Prelude.{
  ℕ, ◌+◌, ◌≡◌, String, Option, none, some, Dict, lookup, insert, lookup-insert, str_eq,
  if◌then◌else◌, arith, eq_iff,
}

pub record AccountMetrics : Type 0 where
  pub account_id : String
  pub messages_sent : ℕ
  pub messages_failed : ℕ
  pub tasks_completed : ℕ
  pub tasks_failed : ℕ
  pub retries_scheduled : ℕ
  pub retries_exhausted : ℕ
  pub flood_waits : ℕ
  pub worker_restarts : ℕ
  pub queue_rejected : ℕ
  pub last_success_at : Option ℕ
  pub last_failure_at : Option ℕ
  pub last_error : String

abbrev pub MetricsStore : Type 0
MetricsStore = Dict AccountMetrics

abbrev fresh_metrics : String → AccountMetrics
fresh_metrics id = record {
  account_id = id;
  messages_sent = 0;
  messages_failed = 0;
  tasks_completed = 0;
  tasks_failed = 0;
  retries_scheduled = 0;
  retries_exhausted = 0;
  flood_waits = 0;
  worker_restarts = 0;
  queue_rejected = 0;
  last_success_at = none;
  last_failure_at = none;
  last_error = "";
}

abbrev or_fresh : String → Option AccountMetrics → AccountMetrics
or_fresh id none = fresh_metrics id
or_fresh id (some m) = m

-- `_get`, and the counters that `snapshot(account_id)` shows.
unfoldable pub metrics_of : MetricsStore → String → AccountMetrics
metrics_of store id = or_fresh id (lookup id store)

-- `_get` with the change that the caller makes to the object.
unfoldable pub update : String → (AccountMetrics → AccountMetrics) → MetricsStore → MetricsStore
update id f store = insert id (f (metrics_of store id)) store

-- `if error: m.last_error = error`
abbrev or_keep : String → String → String
or_keep error old = if str_eq error "" then old else error

unfoldable pub record_sent : String → ℕ → MetricsStore → MetricsStore
record_sent id now = update id λ m. record m {
  messages_sent = m.messages_sent + 1;
  tasks_completed = m.tasks_completed + 1;
  last_success_at = some now;
}

unfoldable pub record_failed : String → String → ℕ → MetricsStore → MetricsStore
record_failed id error now = update id λ m. record m {
  messages_failed = m.messages_failed + 1;
  tasks_failed = m.tasks_failed + 1;
  last_failure_at = some now;
  last_error = or_keep error m.last_error;
}

unfoldable pub record_task_ok : String → ℕ → MetricsStore → MetricsStore
record_task_ok id now =
    update id λ m. record m { tasks_completed = m.tasks_completed + 1; last_success_at = some now }

unfoldable pub record_task_fail : String → String → ℕ → MetricsStore → MetricsStore
record_task_fail id error now = update id λ m. record m {
  tasks_failed = m.tasks_failed + 1;
  last_failure_at = some now;
  last_error = or_keep error m.last_error;
}

unfoldable pub record_retry_scheduled : String → MetricsStore → MetricsStore
record_retry_scheduled id = update id λ m. record m { retries_scheduled = m.retries_scheduled + 1 }

unfoldable pub record_retry_exhausted : String → MetricsStore → MetricsStore
record_retry_exhausted id = update id λ m. record m { retries_exhausted = m.retries_exhausted + 1 }

unfoldable pub record_flood_wait : String → MetricsStore → MetricsStore
record_flood_wait id = update id λ m. record m { flood_waits = m.flood_waits + 1 }

unfoldable pub record_worker_restart : String → MetricsStore → MetricsStore
record_worker_restart id = update id λ m. record m { worker_restarts = m.worker_restarts + 1 }

unfoldable pub record_queue_rejected : String → MetricsStore → MetricsStore
record_queue_rejected id = update id λ m. record m { queue_rejected = m.queue_rejected + 1 }

-- An update is seen by its own account, and by no other.
pub metrics_of-update :
    (id other : String) (f : AccountMetrics → AccountMetrics) (store : MetricsStore)
    → metrics_of (update id f store) other
      ≡ (if str_eq id other then f (metrics_of store id) else metrics_of store other)
unfolding metrics_of update
metrics_of-update id other f store =
    ground (arith, lookup-insert id other (f (metrics_of store id)) store, eq_iff id other)
