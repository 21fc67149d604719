-- ===== src/Messaging/Task/Laws.antt =====
-- The priority that a constructed task carries (messaging/task_types.py).
use teleautomation_messaging.Prelude.{ℕ, ◌<◌, ◌≡◌, ◌⊎◌, ◌↔◌, String, Bool, arith}
use teleautomation_messaging.Messaging.Task.{
  TaskType, dm_send_media, dm_send_location, run_cycle, TaskPriority, high, normal, low, Payload,
  QueueTask, priority_for_task_type, post_init, new_task,
}

abbrev pub IsDirect : TaskType → Type 0
IsDirect t =
    (t ≡ TaskType.dm_send)
    ⊎ (t ≡ dm_send_media)
    ⊎ (t ≡ dm_send_location)
    ⊎ (t ≡ TaskType.ai_auto_reply)

-- A task that is made with the default priority is a retry exactly when it counts an attempt or is of
-- type retry, is low exactly when it is a first cycle, and is high exactly when it is the first attempt
-- of a direct message, media, location or AI auto-reply.
pub new_task-priority :
    (a : String) (t : TaskType) (p : Payload) (id : String) (n : ℕ) (w : Bool)
    → let task = new_task a t p id n w normal in
      ((task.priority ≡ TaskPriority.retry) ↔ ((0 < n) ⊎ (t ≡ TaskType.retry)))
      × ((task.priority ≡ low) ↔ ((n ≡ 0) × (t ≡ run_cycle)))
      × ((task.priority ≡ high) ↔ ((n ≡ 0) × IsDirect t))
unfolding new_task post_init priority_for_task_type
new_task-priority a t p id n w = ground arith

pub post_init_idem : (t : QueueTask) → post_init (post_init t) ≡ post_init t
unfolding post_init priority_for_task_type
post_init_idem t = ground arith
