-- ===== src/Tests/Pauses.antt =====
-- The pauses of a running cycle (messaging/fair_scheduler.py).
use teleautomation_messaging.Prelude.{
  ◌≤◌, ◌≡◌, refl, false, true, List, [], ◌∷◌, some, lookup, insert, arith,
}
use teleautomation_messaging.Messaging.Heapq.{best_from, remove, heapify}
use teleautomation_messaging.Messaging.Queue.{
  Queue, count_priority_at_most, pop_highest_priority, dequeued,
}
use teleautomation_messaging.Messaging.Task.{TaskType, QueueTask}
use teleautomation_messaging.Messaging.Future.{waiting}
use teleautomation_messaging.Messaging.FairScheduler.Requeue.{Orphans, service-Orphans}
use teleautomation_messaging.Messaging.World.{World, set_queue}
use teleautomation_messaging.Messaging.Worker.{handle_queue_task, handle_as, complete}
use teleautomation_messaging.Messaging.FairScheduler.{
  Round, Yielding, service, should_yield_to_dms, yield_round, yield_loop, yield_for_priority_work,
}
use teleautomation_messaging.Messaging.FairScheduler.Progress.{
  after_groups, yield_for_priority_work_bounds, yield_for_priority_work_progress,
}
use teleautomation_messaging.Tests.Data.{
  cycle, queue_of, idle_turn, delaying, half_queue, world_of, services, scheduler, round,
  retry_config,
}

abbrev world : World
world = world_of delaying (half_queue delaying)

yield_for_priority_work_bounds_example :
    let rs = round ∷ round ∷ round ∷ [] in
    let y = yield_for_priority_work services retry_config rs scheduler world in
    (y.serviced ≤ 2)
    × (y.scheduler.total_yield_ms ≤ 2300)
    × ((r₁ r₂ : Round) (more : List Round)
        → rs ≡ r₁ ∷ r₂ ∷ more
        → y ≡ yield_for_priority_work services retry_config (r₁ ∷ r₂ ∷ []) scheduler world)
yield_for_priority_work_bounds_example =
    yield_for_priority_work_bounds services retry_config (round ∷ round ∷ round ∷ []) scheduler
      world 300 (omega arith, (omega arith, (omega arith, tt)))

-- The reply that waits is serviced.
one_serviced :
    (yield_for_priority_work services retry_config
      (round ∷ round ∷ round ∷ [])
      scheduler
      world).serviced
    ≡ 1
unfolding yield_for_priority_work should_yield_to_dms lookup count_priority_at_most yield_loop
    yield_round pop_highest_priority best_from remove heapify handle_queue_task handle_as complete
    set_queue insert dequeued
one_serviced = refl

yield_for_priority_work_progress_example :
    should_yield_to_dms
      (after_groups 2
        (yield_for_priority_work services retry_config
          (round ∷ round ∷ round ∷ [])
          scheduler
          world).scheduler)
      world
    ≡ false
yield_for_priority_work_progress_example =
    yield_for_priority_work_progress services retry_config (round ∷ round ∷ round ∷ []) scheduler
      world world 2 (omega (arith, one_serviced)) (omega arith)

-- Someone waits for a group post, which was popped from an otherwise empty queue.
abbrev awaited : QueueTask
awaited = record (cycle "t9") { task_type = TaskType.group_post; wait_result = true }

abbrev popped_queue : Queue
popped_queue = record (queue_of delaying [] false) {
  pending = ("t9", 0) ∷ [];
  futures = waiting ∷ [];
}

abbrev yielding : Yielding
yielding = record { scheduler = scheduler; world = world_of delaying popped_queue; serviced = 1 }

abbrev putting_round : Round
putting_round = record round { turns = idle_turn 60 ∷ [] }

service-Orphans_example :
    let (y', on) = service services retry_config putting_round popped_queue awaited yielding in
    (on ≡ false) × ((q : Queue) × (lookup "a" y'.world.queues ≡ some q) × Orphans "t9" 0 q)
service-Orphans_example =
    service-Orphans services retry_config putting_round popped_queue awaited yielding (idle_turn 60)
      [] 0 refl (omega arith) refl (omega arith) refl (unfold lookup in refl) refl
