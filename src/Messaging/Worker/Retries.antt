-- ===== src/Messaging/Worker/Retries.antt =====
-- What becomes of a task that fails, is retried, and fails again (messaging/retry_manager.py with
-- workers/account_worker.py).
use teleautomation_messaging.Prelude.{
  ◌+◌, ◌≡◌, ◌≢◌, refl, ap, sym, ◌∙◌, ◌⊎◌, String, inl, inr, eq_iff,
}
use teleautomation_messaging.Messaging.Task.{
  TaskType, dm_send_media, dm_send_location, TaskPriority, Payload, QueueTask,
  priority_for_task_type, post_init, new_task,
}
use teleautomation_messaging.Messaging.Future.{value_error, key_error}
use teleautomation_messaging.Messaging.World.{World}
use teleautomation_messaging.Messaging.Retry.{retry_task, unwrapped_type}
use teleautomation_messaging.Messaging.Worker.{Services, raised_error, handle_as, handle_queue_task}

handle-own :
    (s : Services) (slot : String) (w : World) (task : QueueTask)
    → task.account_id ≡ slot
    → handle_queue_task s slot w task ≡ handle_as s slot w task.task_type task.payload
unfolding handle_queue_task
handle-own s slot w task own = rw ((eq_iff task.account_id slot).1 own)

unwrapped_type_lem : (t : TaskType) (p : Payload) → t ≢ TaskType.retry → unwrapped_type t p ≡ t
unwrapped_type_lem TaskType.retry p h = absurd (h refl)
unwrapped_type_lem _ p h = refl

handle-unwraps :
    (s : Services) (slot : String) (w : World) (original : QueueTask) (task_id : String)
    → handle_queue_task s slot w (retry_task slot original task_id)
      ≡ handle_as s slot w (unwrapped_type original.task_type original.payload) original.payload
unfolding retry_task new_task post_init handle_as
handle-unwraps s slot w original task_id = handle-own s slot w _ refl

-- The first retry of a task, of any type but a retry, is handled as the task itself: by the same
-- operation on the same payload, with the highest priority and one attempt more.
pub handle-retry_task :
    (s : Services) (slot : String) (w : World) (original : QueueTask) (task_id : String)
    → original.account_id ≡ slot
    → original.task_type ≢ TaskType.retry
    → let again = retry_task slot original task_id in
      (handle_queue_task s slot w again ≡ handle_queue_task s slot w original)
      × (again.priority ≡ TaskPriority.retry)
      × (again.retry_count ≡ original.retry_count + 1)
unfolding retry_task new_task post_init priority_for_task_type
handle-retry_task s slot w original task_id own fresh = (
  handle-unwraps s slot w original task_id
      ∙ ap (λ t. handle_as s slot w t original.payload)
          (unwrapped_type_lem original.task_type original.payload fresh)
      ∙ sym (handle-own s slot w original own),
  refl,
  refl,
)

twice-wrapped :
    (s : Services) (slot : String) (w : World) (t u : TaskType) (p : Payload)
    → (t ≡ TaskType.dm_send) ⊎ (t ≡ dm_send_media) ⊎ (t ≡ TaskType.ai_auto_reply)
    → handle_as s slot w t (Payload.retry u p) ≡ (w, raised_error (key_error "user_id"))
unfolding handle_as
twice-wrapped s slot w t u p (inl e) = rw e
twice-wrapped s slot w t u p (inr (inl e)) = rw e
twice-wrapped s slot w t u p (inr (inr e)) = rw e

abbrev pub IsToUser : TaskType → Type 0
IsToUser t = (t ≡ TaskType.dm_send) ⊎ (t ≡ dm_send_media) ⊎ (t ≡ TaskType.ai_auto_reply)

IsToUser-unwrapped : (t : TaskType) (p : Payload) → IsToUser t → unwrapped_type t p ≡ t
IsToUser-unwrapped t p (inl e) = rw e
IsToUser-unwrapped t p (inr (inl e)) = rw e
IsToUser-unwrapped t p (inr (inr e)) = rw e

-- A message to a user whose first retry fails too is retried with its payload wrapped a second time:
-- the handler then misses the user and raises a KeyError, whatever the services would do.
pub handle-retry_task-twice :
    (s : Services) (slot : String) (w : World) (original : QueueTask) (id₁ id₂ : String)
    → IsToUser original.task_type
    → handle_queue_task s slot w (retry_task slot (retry_task slot original id₁) id₂)
      ≡ (w, raised_error (key_error "user_id"))
unfolding retry_task new_task post_init
handle-retry_task-twice s slot w original id₁ id₂ to_user =
    handle-unwraps s slot w (retry_task slot original id₁) id₂
    ∙ twice-wrapped s slot w (unwrapped_type original.task_type original.payload) _ original.payload
        (rw (IsToUser-unwrapped original.task_type original.payload to_user) to_user)

-- A location that is sent to a user is never sent: its task, whatever its payload, is of a type that
-- the worker does not know, and raises a ValueError.
pub handle-dm_send_location :
    (s : Services) (w : World) (task : QueueTask)
    → task.task_type ≡ dm_send_location
    → handle_queue_task s task.account_id w task
      ≡ (w, raised_error (value_error "Unknown task type: TaskType.DM_SEND_LOCATION"))
unfolding handle_as
handle-dm_send_location s w task location =
    handle-own s task.account_id w task refl
    ∙ ap (λ t. handle_as s task.account_id w t task.payload) location
