-- ===== src/Messaging/Retry/Counters.antt =====
-- What a retry that is given up does to the counters (messaging/retry_manager.py with
-- events/subscribers.py).
use teleautomation_messaging.Prelude.{◌+◌, ◌≤◌, ◌≡◌, String, true, false, leb, arith, eq_iff}
use teleautomation_messaging.Observability.Metrics.{
  MetricsStore, metrics_of, metrics_of-update, record_retry_exhausted,
}
use teleautomation_messaging.Events.Types.{retry_exhausted, no_data}
use teleautomation_messaging.Events.Subscribers.{metrics_subscriber}
use teleautomation_messaging.Messaging.Task.{QueueTask}
use teleautomation_messaging.Messaging.World.{World, publish_event-metrics, alert}
use teleautomation_messaging.Messaging.Retry.{
  RetryConfig, Draw, RetryClassification, schedule_retry, exhausted,
}

record_retry_exhausted-metrics :
    (id : String) (store : MetricsStore)
    → (metrics_of (record_retry_exhausted id store) id).retries_exhausted
      ≡ (metrics_of store id).retries_exhausted + 1
unfolding record_retry_exhausted
record_retry_exhausted-metrics id store = ground (
  arith,
  metrics_of-update id id (λ m. record m { retries_exhausted = m.retries_exhausted + 1 }) store,
  eq_iff id id,
)

-- A task that runs out of attempts is counted twice in `retries_exhausted` of its account, by the
-- manager and by the metrics subscriber; a task that may not be retried at all is counted once.
pub schedule_retry-retries_exhausted :
    (cfg : RetryConfig) (draw : Draw) (w : World) (id : String) (original : QueueTask)
    (clf : RetryClassification)
    → let after =
        (metrics_of (schedule_retry cfg draw w id original clf).0.metrics id).retries_exhausted in
      let before = (metrics_of w.metrics id).retries_exhausted in
      (clf.retryable ≡ false → after ≡ before + 1)
      × (clf.retryable ≡ true → cfg.max_attempts ≤ original.retry_count → after ≡ before + 2)
unfolding schedule_retry exhausted alert
schedule_retry-retries_exhausted cfg draw w id original clf = (
  λ fatal. rw (fatal, schedule_retry) (record_retry_exhausted-metrics id w.metrics),
  λ may spent.
      let full : leb cfg.max_attempts original.retry_count ≡ true = ground arith in
      rw (may, schedule_retry)
        (rw full (
          rw (publish_event-metrics retry_exhausted id no_data) (
            unfold metrics_subscriber in
            omega (
              arith,
              record_retry_exhausted-metrics id (record_retry_exhausted id w.metrics),
              record_retry_exhausted-metrics id w.metrics,
            )))),
)
