-- ===== src/Tests/Retries.antt =====
-- Retries, and the tasks that a worker handles (messaging/retry_manager.py, workers/account_worker.py).
use teleautomation_messaging.Prelude.{◌*◌, ◌^◌, min, ◌≡◌, ◌≢◌, refl, inl, true, none, arith}
use teleautomation_messaging.Messaging.Task.{TaskType, dm_send_location, dm_location, QueueTask}
use teleautomation_messaging.Messaging.Future.{key_error}
use teleautomation_messaging.Messaging.World.{World}
use teleautomation_messaging.Messaging.Retry.{
  classify_exception, compute_delay, schedule_retry, retry_task,
}
use teleautomation_messaging.Messaging.Retry.Delay.{IsAround, compute_delay_bounds}
use teleautomation_messaging.Messaging.Retry.Schedule.{Decides, accepts, schedule_retry-Decides}
use teleautomation_messaging.Messaging.Worker.{raised_error, handle_queue_task}
use teleautomation_messaging.Messaging.Worker.Retries.{handle-retry_task-twice}
use teleautomation_messaging.Tests.Data.{
  delaying, direct, half_queue, world_of, services, retry_config, half_draw, network_error,
}

flood_seconds_read :
    (classify_exception "A wait of 37 seconds is required (FloodWait)" none).flood_seconds ≡ 37
unfolding classify_exception
flood_seconds_read = refl

rate_limit_read : (classify_exception "Rate-Limit hit" none).reason ≡ "flood_wait"
unfolding classify_exception
rate_limit_read = refl

network_read : (classify_exception "Session revoked" none).reason ≡ "network"
unfolding classify_exception
network_read = refl

abbrev world : World
world = world_of delaying (half_queue delaying)

abbrev spent_task : QueueTask
spent_task = record (direct "t1") { retry_count = 5 }

compute_delay_bounds_example :
    IsAround retry_config
      (min (retry_config.base * 2 ^ 2) retry_config.max_delay)
      (compute_delay retry_config half_draw 0 true 2)
compute_delay_bounds_example =
    (compute_delay_bounds retry_config half_draw 0 true 2 (omega arith) (omega arith)
        (omega arith)).3
      refl refl

schedule_retry-Decides_example :
    Decides world "a"
      (direct "t1")
      (accepts retry_config world "a" (direct "t1") network_error)
      (schedule_retry retry_config half_draw world "a" (direct "t1") network_error)
schedule_retry-Decides_example =
    schedule_retry-Decides retry_config half_draw world "a" (direct "t1") network_error

direct_is_fresh : TaskType.dm_send ≢ TaskType.retry
direct_is_fresh e = cc

handle-retry_task-twice_example :
    handle_queue_task services "a" world (retry_task "a" (retry_task "a" (direct "t1") "t2") "t3")
    ≡ (world, raised_error (key_error "user_id"))
handle-retry_task-twice_example =
    handle-retry_task-twice services "a" world (direct "t1") "t2" "t3" (inl refl)

abbrev location : QueueTask
location = record (direct "t1") { task_type = dm_send_location; payload = dm_location 7 51 4 none }
