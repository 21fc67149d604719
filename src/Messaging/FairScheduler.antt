-- ===== src/Messaging/FairScheduler.antt =====
-- messaging/fair_scheduler.py: when a running cycle pauses for direct messages, and for how long. The
-- clock ticks in milliseconds here.
pub mod Progress
pub mod Requeue
use teleautomation_messaging.Prelude.{
  ℕ, zero, suc, ◌+◌, ◌-◌, ◌*◌, String, Bool, true, false, not, Option, none, some, List, [], ◌∷◌,
  lookup, ltb, leb, ◌==◌, str_eq, if◌then◌else◌,
}
use teleautomation_messaging.Observability.Metrics.{record_task_ok}
use teleautomation_messaging.Messaging.Task.{TaskType, run_cycle, high, priority_value, QueueTask}
use teleautomation_messaging.Messaging.Future.{Error, Reply}
use teleautomation_messaging.Messaging.Queue.{
  Queue, Alert, Turn, PutOutcome, put, count_priority_at_most, pop_highest_priority,
}
use teleautomation_messaging.Messaging.World.{World, set_queue, alert_all}
use teleautomation_messaging.Messaging.Retry.{RetryConfig, Draw, schedule_retry_from_exception}
use teleautomation_messaging.Messaging.Worker.{
  Services, Handled, returned, raised_error, handle_queue_task, complete,
}

pub record CycleFairScheduler : Type 0 where
  pub account_id : String
  pub cycle_started_at : ℕ
  pub groups_since_yield : ℕ
  pub total_yield_ms : ℕ
  pub min_groups : ℕ
  pub max_yield_ms : ℕ
  pub max_wall_ms : ℕ

-- The fields of an ExecutionPolicy that the scheduler reads.
pub record CyclePolicy : Type 0 where
  pub min_groups_before_dm_yield : ℕ
  pub max_dm_yield_ms : ℕ
  pub max_cycle_wall_ms : ℕ

unfoldable pub new_scheduler : String → CycleFairScheduler
new_scheduler account_id = record {
  account_id = account_id;
  cycle_started_at = 0;
  groups_since_yield = 0;
  total_yield_ms = 0;
  min_groups = 3;
  max_yield_ms = 2000;
  max_wall_ms = 5400000;
}

with_policy : Option CyclePolicy → CycleFairScheduler → CycleFairScheduler
with_policy none s = s
with_policy (some p) s = record s {
  min_groups = p.min_groups_before_dm_yield;
  max_yield_ms = p.max_dm_yield_ms;
  max_wall_ms = p.max_cycle_wall_ms;
}

unfoldable pub begin_cycle : Option CyclePolicy → ℕ → CycleFairScheduler → CycleFairScheduler
unfolding with_policy
begin_cycle policy now s =
    with_policy policy
      (record s { cycle_started_at = now; groups_since_yield = 0; total_yield_ms = 0 })

unfoldable pub on_group_completed : CycleFairScheduler → CycleFairScheduler
on_group_completed s = record s { groups_since_yield = s.groups_since_yield + 1 }

unfoldable pub cycle_wall_exceeded : CycleFairScheduler → ℕ → Bool
cycle_wall_exceeded s now =
    if s.cycle_started_at == 0 then false else leb s.max_wall_ms (now - s.cycle_started_at)

abbrev urgent : Option Queue → ℕ
urgent none = 0
urgent (some q) = count_priority_at_most q (priority_value high)

unfoldable pub should_yield_to_dms : CycleFairScheduler → World → Bool
unfolding cycle_wall_exceeded
should_yield_to_dms s w =
    if cycle_wall_exceeded s w.now
    then false
    else if ltb s.groups_since_yield s.min_groups
    then false
    else if leb s.max_yield_ms s.total_yield_ms
    then false
    else ltb 0 (urgent (lookup s.account_id w.queues))

-- What the environment decides in one round of the loop: how long the task takes, the draw of its
-- retry, and the turns of a task that is put back.
pub record Round : Type 0 where
  pub elapsed : ℕ
  pub draw : Draw
  pub turns : List Turn

-- The state of the loop.
pub record Yielding : Type 0 where
  pub scheduler : CycleFairScheduler
  pub world : World
  pub serviced : ℕ

abbrev stored_back : String → World → Queue × List Alert × PutOutcome → World
stored_back id w (q, alerts, outcome) = alert_all id alerts (set_queue id q w)

-- `await queue.put(task)`, of a task that was popped.
put_back : String → Queue → QueueTask → List Turn → World → World
put_back id q task turns w = stored_back id w (put q task w.now turns)

-- The `try` around the handler, and its `else`.
serviced_task : RetryConfig → Draw → String → QueueTask → World × Handled → World
serviced_task cfg draw id task (w, returned reply) =
    let w' = complete id task reply none w in
    record w' { metrics = record_task_ok id w'.now w'.metrics }
serviced_task cfg draw id task (w, raised_error e) =
    (schedule_retry_from_exception cfg draw (complete id task Reply.nothing (some e) w) id task e).0

abbrev is_run_cycle : TaskType → Bool
is_run_cycle run_cycle = true
is_run_cycle _ = false

-- One popped task; whether the loop goes on.
unfoldable pub service :
    Services → RetryConfig → Round → Queue → QueueTask → Yielding → Yielding × Bool
unfolding put_back serviced_task
service sv cfg r q task y =
    let id = y.scheduler.account_id in
    if ltb (priority_value high) (priority_value task.priority)
    then (record y { world = put_back id q task r.turns y.world }, false)
    else if is_run_cycle task.task_type
    then (record y { world = put_back id q task r.turns y.world }, false)
    else (
      record {
        scheduler = record y.scheduler { total_yield_ms = y.scheduler.total_yield_ms + r.elapsed };
        world =
            serviced_task cfg r.draw id task
              (handle_queue_task sv id (set_queue id q y.world) task);
        serviced = y.serviced + 1;
      },
      true,
    )

popped_round :
    Services → RetryConfig → Round → Queue × Option QueueTask → Yielding → Yielding × Bool
popped_round sv cfg r (q, none) y = (y, false)
popped_round sv cfg r (q, some task) y = service sv cfg r q task y

queue_round : Services → RetryConfig → Round → Option Queue → Yielding → Yielding × Bool
queue_round sv cfg r none y = (y, false)
queue_round sv cfg r (some q) y = popped_round sv cfg r (pop_highest_priority q y.world.now) y

-- The body of the loop.
unfoldable pub yield_round : Services → RetryConfig → Round → Yielding → Yielding × Bool
unfolding queue_round popped_round service
yield_round sv cfg r y = queue_round sv cfg r (lookup y.scheduler.account_id y.world.queues) y

-- `while serviced < 2 and budget_left_ms > 0`, over the rounds that the environment decides.
unfoldable pub yield_loop : Services → RetryConfig → List Round → Yielding → Yielding
yield_loop sv cfg [] y = y
yield_loop sv cfg (r ∷ rs) y =
    let (y', on) = yield_round sv cfg r y in
    let rest = yield_loop sv cfg rs y' in
    if ltb y.serviced 2
    then (if ltb y.scheduler.total_yield_ms y.scheduler.max_yield_ms
        then (if on then rest else y')
        else y)
    else y

abbrev reset_groups : Yielding → Yielding
reset_groups y =
    if ltb 0 y.serviced
    then record y { scheduler = record y.scheduler { groups_since_yield = 0 } }
    else y

-- `yield_for_priority_work`
unfoldable pub yield_for_priority_work :
    Services → RetryConfig → List Round → CycleFairScheduler → World → Yielding
yield_for_priority_work sv cfg rs s w =
    let y : Yielding = record { scheduler = s; world = w; serviced = 0 } in
    if should_yield_to_dms s w then reset_groups (yield_loop sv cfg rs y) else y
