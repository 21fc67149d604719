-- ===== src/Messaging/Retry.antt =====
-- messaging/retry_manager.py, RetryManager. Delays are whole numbers of units, `unit` to the second, in
-- which a float product is rounded down; a draw of `random.random()` is a fraction `k / den` below 1.
mod Classify
pub mod Delay
pub mod Schedule
pub mod Attempts
pub mod Counters
pub use Classify.{RetryClassification}
unfoldable pub use Classify.{classify_exception, classify_task_result, error_text, error_seconds}
use teleautomation_messaging.Prelude.{
  ℕ, zero, suc, ◌+◌, ◌-◌, ◌*◌, ◌/◌, ◌^◌, min, max, String, Bool, true, false, not, Option, none,
  some, List, [], ◌∷◌, ◌++◌, Dict, lookup, insert, length, exists_in, keep, get_elem?, ltb, leb,
  str_eq, if◌then◌else◌,
}
use teleautomation_messaging.Observability.Metrics.{
  record_retry_exhausted, record_retry_scheduled, record_flood_wait,
}
use teleautomation_messaging.Events.Types.{retry_exhausted, retry_scheduled, no_data}
use teleautomation_messaging.Messaging.Task.{
  TaskType, TaskPriority, Payload, original_type, QueueTask, priority_for_task_type, new_task,
}
use teleautomation_messaging.Messaging.Future.{Error}
use teleautomation_messaging.Messaging.Queue.{Turn}
use teleautomation_messaging.Messaging.World.{
  World, SleepingRetry, Result, ok, err, pending, publish_event, alert,
}
use teleautomation_messaging.Messaging.Router.{route}

abbrev pub unit : ℕ
unit = 100000

-- messaging/queue_config.py: RETRY_BASE_SECONDS and RETRY_MAX_SECONDS in units, the jitter ratio in
-- hundredths, the storm window in ticks of the clock.
pub record RetryConfig : Type 0 where
  pub max_attempts : ℕ
  pub base : ℕ
  pub max_delay : ℕ
  pub jitter : ℕ
  pub storm_window : ℕ
  pub storm_max : ℕ

pub record Draw : Type 0 where
  pub k : ℕ
  pub den : ℕ

-- The delay before jitter.
unfoldable pub base_delay : RetryConfig → ℕ → Bool → ℕ → ℕ
base_delay cfg flood_seconds network retry_count =
    if ltb 0 flood_seconds
    then min (flood_seconds * unit) cfg.max_delay
    else if network
    then min (cfg.base * 2 ^ retry_count) cfg.max_delay
    else min (cfg.base * 18 ^ retry_count / 10 ^ retry_count) (600 * unit)

-- `base + base * ratio * (random * 2 - 1)`
unfoldable pub with_jitter : RetryConfig → Draw → ℕ → ℕ
with_jitter cfg draw base =
    base * ((100 - cfg.jitter) * draw.den + 2 * cfg.jitter * draw.k) / (100 * draw.den)

unfoldable pub compute_delay : RetryConfig → Draw → ℕ → Bool → ℕ → ℕ
compute_delay cfg draw flood_seconds network retry_count =
    max unit
      (min (with_jitter cfg draw (base_delay cfg flood_seconds network retry_count)) cfg.max_delay)

drop_before : ℕ → List ℕ → List ℕ
drop_before cutoff [] = []
drop_before cutoff (t ∷ ts) = if ltb t cutoff then drop_before cutoff ts else t ∷ ts

abbrev put_back : String → List ℕ → Dict (List ℕ) → Dict (List ℕ)
put_back id [] rest = rest
put_back id (t ∷ ts) rest = (id, t ∷ ts) ∷ rest

-- `_prune_storm_windows`, with `cutoff = now - window`
unfoldable pub prune_storm_windows : ℕ → Dict (List ℕ) → Dict (List ℕ)
unfolding drop_before
prune_storm_windows cutoff [] = []
prune_storm_windows cutoff ((id, ts) ∷ rest) =
    put_back id (drop_before cutoff ts) (prune_storm_windows cutoff rest)

abbrev pub or_empty {ℓ} : {A : Type ℓ} → Option (List A) → List A
or_empty none = []
or_empty (some xs) = xs

pruned : RetryConfig → World → World
pruned cfg w = record w {
  retry_times = prune_storm_windows (w.now - cfg.storm_window) w.retry_times;
}

-- `_retry_storm_ok`, on the pruned windows.
unfoldable pub storm_ok : RetryConfig → World → String → Bool
storm_ok cfg w id = ltb (length (or_empty (lookup id w.retry_times))) cfg.storm_max

-- `_record_retry_scheduled`
record_time : String → World → World
record_time id w = record w {
  retry_times = insert id (or_empty (lookup id w.retry_times) ++ w.now ∷ []) w.retry_times;
}

-- `task_id in seen`
unfoldable pub is_tracked : World → String → String → Bool
is_tracked w id task_id = exists_in (str_eq task_id) (or_empty (lookup id w.scheduled))

-- `_track`, of a task that is not tracked.
track : String → String → World → World
track id task_id w = record w {
  scheduled = insert id (or_empty (lookup id w.scheduled) ++ task_id ∷ []) w.scheduled;
}

-- `_untrack`
untrack : String → String → World → World
untrack id task_id w = record w {
  scheduled =
      insert id (keep (λ t. not (str_eq t task_id)) (or_empty (lookup id w.scheduled))) w.scheduled;
}

exhausted : String → World → World
exhausted id w = record w { metrics = record_retry_exhausted id w.metrics }

-- The classification that replaces the task's while the account's storm window is full.
storm_backoff : RetryConfig → QueueTask → RetryClassification
storm_backoff cfg original = record {
  flood_seconds = min cfg.max_delay (cfg.base * 2 ^ (original.retry_count + 2)) / unit;
  network = true;
  retryable = true;
  reason = "retry_storm_backoff";
}

count_flood : String → ℕ → World → World
count_flood id flood_seconds w =
    if ltb 0 flood_seconds then record w { metrics = record_flood_wait id w.metrics } else w

-- The bookkeeping of an accepted retry, and its coroutine that sleeps.
accept : RetryConfig → Draw → String → QueueTask → RetryClassification → World → World
accept cfg draw id original clf w =
    let w₁ = record_time id (track id original.task_id w) in
    let w₂ = record w₁ { metrics = record_retry_scheduled id w₁.metrics } in
    let w₃ = alert id "warning" "retry_scheduled" (count_flood id clf.flood_seconds w₂) in
    record w₃ {
      sleeping =
          w₃.sleeping
          ++ record {
            account_id = id;
            original = original;
            delay = compute_delay cfg draw clf.flood_seconds clf.network original.retry_count;
          }
            ∷ [];
    }

track_or_skip : RetryConfig → Draw → String → QueueTask → RetryClassification → World → World × Bool
track_or_skip cfg draw id original clf w =
    if is_tracked w id original.task_id
    then (w, false)
    else (accept cfg draw id original clf w, true)

unfoldable pub schedule_retry :
    RetryConfig → Draw → World → String → QueueTask → RetryClassification → World × Bool
unfolding track_or_skip exhausted accept record_time track count_flood pruned storm_backoff
schedule_retry cfg draw w id original clf =
    if not clf.retryable
    then (alert id "error" "retry_skip" (exhausted id w), false)
    else if leb cfg.max_attempts original.retry_count
    then (
      publish_event retry_exhausted id no_data
          (alert id "error" "retry_exhausted" (exhausted id w)),
      false,
    )
    else if storm_ok cfg (pruned cfg w) id
    then track_or_skip cfg draw id original clf (pruned cfg w)
    else track_or_skip cfg draw id original (storm_backoff cfg original)
        (alert id "warning" "retry_storm" (pruned cfg w))

unfoldable pub schedule_retry_from_exception :
    RetryConfig → Draw → World → String → QueueTask → Error → World × Bool
schedule_retry_from_exception cfg draw w id original e =
    schedule_retry cfg draw w id original (classify_exception (error_text e) (error_seconds e))

abbrev or_group_post : Option TaskType → TaskType
or_group_post none = TaskType.group_post
or_group_post (some t) = t

abbrev pub unwrapped_type : TaskType → Payload → TaskType
unwrapped_type TaskType.retry p = or_group_post (original_type p)
unwrapped_type t p = t

-- The task that a retry puts on the queue, under the task id that it is given.
unfoldable pub retry_task : String → QueueTask → String → QueueTask
retry_task id original task_id =
    record (new_task id TaskType.retry
      (Payload.retry (unwrapped_type original.task_type original.payload) original.payload) task_id
      (original.retry_count + 1) original.wait_result TaskPriority.retry) {
        priority = priority_for_task_type TaskType.retry true;
      }

after_route : String → World × Result String → World
after_route id (w, ok _) = publish_event retry_scheduled id no_data w
after_route id (w, err _) = w
after_route id (w, pending) = w

-- `_enqueue` after its sleep.
unfoldable pub wake : World → SleepingRetry → String → List Turn → World
unfolding after_route untrack
wake w job task_id turns = after_route job.account_id (
    route (untrack job.account_id job.original.task_id w)
      (retry_task job.account_id job.original task_id) turns)
