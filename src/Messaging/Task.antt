-- ===== src/Messaging/Task.antt =====
-- messaging/task_types.py: task types, priorities and the queue task.
pub mod Laws
use teleautomation_messaging.Prelude.{
  ℕ, String, Bool, true, false, ◌||◌, Option, none, some, ltb, if◌then◌else◌,
}

pub data TaskType : Type 0 where
  group_post dm_send dm_send_media dm_send_location ai_auto_reply join_group run_cycle retry :
      TaskType

pub data TaskPriority : Type 0 where
  retry high normal low : TaskPriority

-- `TaskPriority.X.value`
abbrev pub priority_value : TaskPriority → ℕ
priority_value TaskPriority.retry = 0
priority_value high = 1
priority_value normal = 2
priority_value low = 3

abbrev pub is_retry_type : TaskType → Bool
is_retry_type TaskType.retry = true
is_retry_type _ = false

priority_of_type : TaskType → TaskPriority
priority_of_type TaskType.retry = TaskPriority.retry
priority_of_type dm_send = high
priority_of_type dm_send_media = high
priority_of_type dm_send_location = high
priority_of_type ai_auto_reply = high
priority_of_type run_cycle = low
priority_of_type group_post = normal
priority_of_type join_group = normal

unfoldable pub priority_for_task_type : TaskType → Bool → TaskPriority
unfolding priority_of_type
priority_for_task_type t is_retry = if is_retry then TaskPriority.retry else priority_of_type t

-- The dictionaries that the router and the retry manager write, one constructor for each set of
-- keys. A float is only carried, by a code of it.
pub data Payload : Type 0 where
  empty : Payload
  group_post : (group : String) (message : Option String) → Payload
  dm_send :
      (user_id : ℕ) (text sent_by : String) (operator_name : Option String) (reply_to : Option ℕ)
      → Payload
  dm_media :
      (user_id : ℕ) (file_path caption filename content_type sent_by : String)
      (operator_name : Option String) (reply_to : Option ℕ)
      → Payload
  dm_location : (user_id latitude longitude : ℕ) (accuracy : Option ℕ) → Payload
  ai_auto_reply :
      (user_id : ℕ) (user_message_id : Option ℕ) (user_text : String) (force : Bool) → Payload
  join_group : (group : String) → Payload
  retry : (original_type : TaskType) (original_payload : Payload) → Payload

-- `payload.get("user_id")`, and the other keys that the program reads.
abbrev pub user_id : Payload → Option ℕ
user_id (Payload.dm_send uid _ _ _ _) = some uid
user_id (dm_media uid _ _ _ _ _ _ _) = some uid
user_id (dm_location uid _ _ _) = some uid
user_id (Payload.ai_auto_reply uid _ _ _) = some uid
user_id _ = none

abbrev pub group : Payload → Option String
group (Payload.group_post g _) = some g
group (Payload.join_group g) = some g
group _ = none

abbrev pub original_type : Payload → Option TaskType
original_type (Payload.retry t _) = some t
original_type _ = none

abbrev pub original_payload : Payload → Option Payload
original_payload (Payload.retry _ p) = some p
original_payload _ = none

pub record QueueTask : Type 0 where
  pub account_id : String
  pub task_type : TaskType
  pub payload : Payload
  pub task_id : String
  pub retry_count : ℕ
  pub wait_result : Bool
  pub priority : TaskPriority

settle : TaskPriority → QueueTask → QueueTask
settle normal t = record t {
  priority = priority_for_task_type t.task_type (ltb 0 t.retry_count || is_retry_type t.task_type);
}
settle _ t = t

-- `__post_init__`, which the dataclass runs after its fields are set.
unfoldable pub post_init : QueueTask → QueueTask
unfolding settle
post_init t = settle t.priority t

-- `QueueTask(...)`, with the task id that `uuid4` gives as an argument.
unfoldable pub new_task :
    (account_id : String) (task_type : TaskType) (payload : Payload) (task_id : String)
    (retry_count : ℕ) (wait_result : Bool) (priority : TaskPriority)
    → QueueTask
new_task account_id task_type payload task_id retry_count wait_result priority = post_init (record {
  account_id = account_id;
  task_type = task_type;
  payload = payload;
  task_id = task_id;
  retry_count = retry_count;
  wait_result = wait_result;
  priority = priority;
})
