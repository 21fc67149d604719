-- ===== src/Messaging/Backend.antt =====
-- messaging/queue_backend.py: the serialised form of a task. A `Wire` is the JSON object that
-- `json.dumps` writes and `json.loads` reads back; a key that is missing or null is `none`.
use teleautomation_messaging.Prelude.{
  ℕ, zero, suc, ◌≡◌, refl, ap, ◌∙◌, String, Bool, false, Option, none, some, str_eq, if◌then◌else◌,
}
use teleautomation_messaging.Messaging.Task.{
  TaskType, dm_send_media, dm_send_location, run_cycle, TaskPriority, high, normal, low,
  priority_value, Payload, empty, QueueTask, post_init, new_task,
}
use teleautomation_messaging.Messaging.Task.Laws.{post_init_idem}

-- `TaskType.X.value`
abbrev pub type_value : TaskType → String
type_value TaskType.group_post = "group_post"
type_value TaskType.dm_send = "dm_send"
type_value dm_send_media = "dm_send_media"
type_value dm_send_location = "dm_send_location"
type_value TaskType.ai_auto_reply = "ai_auto_reply"
type_value TaskType.join_group = "join_group"
type_value run_cycle = "run_cycle"
type_value TaskType.retry = "retry"

-- `TaskType(text)`; `none` is its ValueError.
unfoldable pub type_of_value : String → Option TaskType
type_of_value s =
    if str_eq s "group_post"
    then some TaskType.group_post
    else if str_eq s "dm_send"
    then some TaskType.dm_send
    else if str_eq s "dm_send_media"
    then some dm_send_media
    else if str_eq s "dm_send_location"
    then some dm_send_location
    else if str_eq s "ai_auto_reply"
    then some TaskType.ai_auto_reply
    else if str_eq s "join_group"
    then some TaskType.join_group
    else if str_eq s "run_cycle"
    then some run_cycle
    else if str_eq s "retry"
    then some TaskType.retry
    else none

-- `TaskPriority(number)`
unfoldable pub priority_of_value : ℕ → Option TaskPriority
priority_of_value zero = some TaskPriority.retry
priority_of_value (suc zero) = some high
priority_of_value (suc (suc zero)) = some normal
priority_of_value (suc (suc (suc zero))) = some low
priority_of_value (suc (suc (suc (suc n)))) = none

pub record Wire : Type 0 where
  pub account_id : Option String
  pub task_type : Option String
  pub payload : Option Payload
  pub task_id : Option String
  pub retry_count : Option ℕ
  pub wait_result : Option Bool
  pub priority : Option ℕ

unfoldable pub serialize : QueueTask → Wire
serialize t = record {
  account_id = some t.account_id;
  task_type = some (type_value t.task_type);
  payload = some t.payload;
  task_id = some t.task_id;
  retry_count = some t.retry_count;
  wait_result = some t.wait_result;
  priority = some (priority_value t.priority);
}

infixl 5 ◌>>=◌
abbrev ◌>>=◌ {ℓ κ} : {A : Type ℓ} {B : Type κ} → Option A → (A → Option B) → Option B
none >>= f = none
some a >>= f = f a

abbrev or_default {ℓ} : {A : Type ℓ} → A → Option A → A
or_default d none = d
or_default d (some a) = a

-- `none` is the KeyError of a required key, or the ValueError of a number or a text that names no
-- member of an enumeration.
unfoldable pub deserialize : Wire → Option QueueTask
deserialize d = do
  account_id ← d.account_id
  type_text ← d.task_type
  task_type ← type_of_value type_text
  priority ← priority_of_value (or_default (priority_value normal) d.priority)
  some (
      new_task account_id task_type (or_default empty d.payload) (or_default "" d.task_id)
        (or_default 0 d.retry_count) (or_default false d.wait_result) priority)

type_of_value-type_value : (t : TaskType) → type_of_value (type_value t) ≡ some t
unfolding type_of_value
type_of_value-type_value TaskType.group_post = refl
type_of_value-type_value _ = refl

priority_of_value-priority_value :
    (p : TaskPriority) → priority_of_value (priority_value p) ≡ some p
unfolding priority_of_value
priority_of_value-priority_value TaskPriority.retry = refl
priority_of_value-priority_value _ = refl

deserialize-serialize : (t : QueueTask) → deserialize (serialize t) ≡ some (post_init t)
unfolding deserialize serialize new_task
deserialize-serialize t =
    rw (type_of_value-type_value t.task_type) (rw (priority_of_value-priority_value t.priority))

-- A task made by the constructor, from whatever arguments, comes back unchanged when its
-- serialised form is read.
pub deserialize-serialize-new_task :
    (a : String) (ty : TaskType) (p : Payload) (id : String) (n : ℕ) (w : Bool) (pr : TaskPriority)
    → deserialize (serialize (new_task a ty p id n w pr)) ≡ some (new_task a ty p id n w pr)
unfolding new_task
deserialize-serialize-new_task a ty p id n w pr =
    deserialize-serialize _ ∙ ap some (post_init_idem _)
