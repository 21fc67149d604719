-- ===== src/Messaging/Retry/Attempts.antt =====
-- Retries end (messaging/retry_manager.py): no task is put on a queue with more attempts than allowed.
use teleautomation_messaging.Prelude.{
  ◌+◌, ◌≤◌, ◌<◌, ◌≡◌, refl, String, true, [], ◌∷◌, All, All-append, Bool-cases, inl, inr, arith,
}
use teleautomation_messaging.Messaging.Task.{QueueTask, new_task, post_init}
use teleautomation_messaging.Messaging.World.{World, SleepingRetry}
use teleautomation_messaging.Messaging.Retry.{
  RetryConfig, Draw, RetryClassification, schedule_retry, retry_task,
}
use teleautomation_messaging.Messaging.Retry.Schedule.{accepts, schedule_retry-Decides}

-- The task that the coroutine will put on its queue counts no more attempts than allowed.
abbrev pub HasAttempt : RetryConfig → SleepingRetry → Type 0
HasAttempt cfg job =
    (task_id : String)
    → (retry_task job.account_id job.original task_id).retry_count ≤ cfg.max_attempts

retry_task-retry_count :
    (id : String) (original : QueueTask) (task_id : String)
    → (retry_task id original task_id).retry_count ≡ original.retry_count + 1
unfolding retry_task new_task post_init
retry_task-retry_count id original task_id = refl

accepts-left :
    (cfg : RetryConfig) (w : World) (id : String) (original : QueueTask) (clf : RetryClassification)
    → accepts cfg w id original clf ≡ true
    → original.retry_count < cfg.max_attempts
accepts-left cfg w id original clf h = ground arith

-- Whatever fails, and however often, each retry that sleeps will be put on the queue with no more
-- attempts than RETRY_MAX_ATTEMPTS.
pub schedule_retry-HasAttempt :
    (cfg : RetryConfig) (draw : Draw) (w : World) (id : String) (original : QueueTask)
    (clf : RetryClassification)
    → All (HasAttempt cfg) w.sleeping
    → All (HasAttempt cfg) (schedule_retry cfg draw w id original clf).0.sleeping
schedule_retry-HasAttempt cfg draw w id original clf h =
    let d = schedule_retry-Decides cfg draw w id original clf in
    elim (Bool-cases (accepts cfg w id original clf)) [
      | inr no_retry ↦ rw (d.refused no_retry) h
      | inl retry ↦
          let (job, grown, a, o) = d.sleeps retry in
          let left = accepts-left cfg w id original clf retry in
          rw grown (
            All-append (HasAttempt cfg) w.sleeping (job ∷ []) h (
              (λ task_id.
                  rw (retry_task-retry_count job.account_id job.original task_id, o) (omega arith)),
              tt,
            ))
    ]
