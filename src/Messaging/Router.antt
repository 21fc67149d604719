-- ===== src/Messaging/Router.antt =====
-- messaging/message_router.py: every task is validated and put on the queue of its account. Task ids
-- (uuid4) and the turns that `put` waits for are arguments.
pub mod Isolation
pub mod Overflow
pub mod Stored
pub mod Operator
use Prim.Native.String.{◌++◌}
use teleautomation_messaging.Prelude.{
  ℕ, zero, suc, String, Bool, true, false, not, ◌||◌, Option, none, some, List, [], ◌∷◌, insert,
  str_eq, strip, if◌then◌else◌,
}
use teleautomation_messaging.Observability.Metrics.{record_queue_rejected}
use teleautomation_messaging.Events.Types.{queue_overflow, no_data}
use teleautomation_messaging.Messaging.Task.{
  TaskType, dm_send_media, dm_send_location, run_cycle, normal, Payload, empty, dm_media,
  dm_location, QueueTask, new_task,
}
use teleautomation_messaging.Messaging.Future.{Error, value_error, runtime_error, backpressure}
use teleautomation_messaging.Messaging.Queue.{
  Queue, Alert, Turn, PutOutcome, stored, still_waiting, failed, put, wait_for_task,
  cancel_ai_auto_reply_for_user,
}
use teleautomation_messaging.Messaging.World.{
  World, Result, ok, err, pending, publish_event, alert_all, is_account, get_queue, set_queue,
}

abbrev pub invalid_account : String → Error
invalid_account id = value_error ("Invalid account_id: " ++ id)

-- The `except` clause of `route`, which raises the error again.
unfoldable pub refused : Error → String → World → World
refused (backpressure a depth max_size) id w =
    publish_event queue_overflow id no_data
      (record w { metrics = record_queue_rejected id w.metrics })
refused _ id w = w

unfoldable pub after_put :
    QueueTask → World → Queue × List Alert × PutOutcome → World × Result String
after_put task w (q, alerts, outcome) =
    let w' = alert_all task.account_id alerts (set_queue task.account_id q w) in
    elim outcome [
      | stored ↦ (w', ok task.task_id)
      | still_waiting ↦ (w', pending)
      | failed e ↦ (refused e task.account_id w', err e)
    ]

abbrev put_on : QueueTask → List Turn → World → Option Queue → World × Result String
put_on task turns w none = (w, err (invalid_account task.account_id))
put_on task turns w (some q) = after_put task w (put q task w.now turns)

unfoldable pub route : World → QueueTask → List Turn → World × Result String
unfolding refused after_put
route w task turns =
    if is_account w task.account_id
    then (let w' = record w { processors = insert task.account_id true w.processors } in
        put_on task turns w' (get_queue w' task.account_id))
    else (w, err (invalid_account task.account_id))

abbrev future_of : QueueTask → Option Queue → Result ℕ
future_of task none = err (invalid_account task.account_id)
future_of task (some q) = elim (wait_for_task q task) [
  | none ↦ err (runtime_error ("No wait future for task " ++ task.task_id))
  | some i ↦ ok i
]

unfoldable pub await_reply : QueueTask → World × Result String → World × Result ℕ
await_reply task (w, ok id) = (w, future_of task (get_queue w task.account_id))
await_reply task (w, err e) = (w, err e)
await_reply task (w, pending) = (w, pending)

-- `route_and_wait`, up to the future that the caller then awaits.
unfoldable pub route_and_wait : World → QueueTask → List Turn → World × Result ℕ
unfolding await_reply
route_and_wait w task turns =
    let waiting_task = record task { wait_result = true } in
    await_reply waiting_task (route w waiting_task turns)

-- What a caller gets: the id of the queued task, or the future of its reply.
pub data Ticket : Type 0 where
  queued : String → Ticket
  awaits : ℕ → Ticket

map_result {ℓ κ} : {A : Type ℓ} {B : Type κ} → (A → B) → Result A → Result B
map_result f (ok a) = ok (f a)
map_result f (err e) = err e
map_result f pending = pending

-- `if wait: return await self.route_and_wait(task)`, else `route`.
unfoldable pub send_as : Bool → World → QueueTask → List Turn → World × Result Ticket
unfolding map_result
send_as true w task turns = let (w', r) = route_and_wait w task turns in (w', map_result awaits r)
send_as false w task turns = let (w', r) = route w task turns in (w', map_result queued r)

unfoldable pub send : World → QueueTask → List Turn → World × Result Ticket
unfolding send_as
send w task turns = send_as task.wait_result w task turns

unfoldable pub enqueue_group_post :
    World
    → (account_id group : String) (message : Option String) (wait : Bool) (task_id : String)
    → List Turn
    → World × Result Ticket
enqueue_group_post w account_id group message wait task_id = send w (
    new_task account_id TaskType.group_post (Payload.group_post group message) task_id 0 wait
      normal)

abbrev cancel_on : String → ℕ → World → Option Queue → World
cancel_on id uid w none = w
cancel_on id uid w (some q) = set_queue id (cancel_ai_auto_reply_for_user q uid).0 w

-- `str(sent_by or "manual")`
abbrev sender : String → String
sender sent_by = if str_eq sent_by "" then "manual" else sent_by

-- A message of an operator cancels the AI auto-replies that wait for its chat. An account that is not
-- valid raises, which is swallowed.
unfoldable pub cancel_for_operator : String → ℕ → String → World → World
cancel_for_operator id uid sent_by w =
    if str_eq (sender sent_by) "manual" || str_eq (sender sent_by) "ai_approved"
    then cancel_on id uid w (get_queue w id)
    else w

abbrev or_text : Option String → String
or_text none = ""
or_text (some s) = s

-- `(operator_name or "").strip() or None`
operator : Option String → Option String
operator name = let s = strip (or_text name) in if str_eq s "" then none else some s

abbrev positive : Option ℕ → Option ℕ
positive none = none
positive (some zero) = none
positive (some (suc n)) = some (suc n)

unfoldable pub enqueue_dm_send :
    World
    → (account_id : String) (user_id : ℕ) (text : String) (wait : Bool) (sent_by : String)
      (operator_name : Option String) (reply_to : Option ℕ) (task_id : String)
    → List Turn
    → World × Result Ticket
unfolding operator
enqueue_dm_send w account_id user_id text wait sent_by operator_name reply_to task_id =
    send (cancel_for_operator account_id user_id sent_by w) (
      new_task account_id TaskType.dm_send
        (Payload.dm_send user_id text (sender sent_by) (operator operator_name) (positive reply_to))
        task_id 0 wait normal)

unfoldable pub enqueue_dm_send_media :
    World
    → (account_id : String) (user_id : ℕ) (file_path caption filename content_type : String)
      (wait : Bool) (sent_by : String) (operator_name : Option String) (reply_to : Option ℕ)
      (task_id : String)
    → List Turn
    → World × Result Ticket
unfolding operator
enqueue_dm_send_media w account_id user_id file_path caption filename content_type wait sent_by
      operator_name reply_to task_id =
    send (cancel_for_operator account_id user_id sent_by w) (
      new_task account_id dm_send_media
        (dm_media user_id file_path caption filename content_type (sender sent_by)
          (operator operator_name) (positive reply_to))
        task_id 0 wait normal)

unfoldable pub enqueue_ai_auto_reply :
    World
    → (account_id : String) (user_id : ℕ) (user_message_id : Option ℕ) (user_text : String)
      (force wait : Bool) (task_id : String)
    → List Turn
    → World × Result Ticket
enqueue_ai_auto_reply w account_id user_id user_message_id user_text force wait task_id = send w (
    new_task account_id TaskType.ai_auto_reply
      (Payload.ai_auto_reply user_id user_message_id user_text force) task_id 0 wait normal)

unfoldable pub enqueue_dm_send_location :
    World
    → (account_id : String) (user_id latitude longitude : ℕ) (accuracy : Option ℕ) (wait : Bool)
      (task_id : String)
    → List Turn
    → World × Result Ticket
enqueue_dm_send_location w account_id user_id latitude longitude accuracy wait task_id = send w (
    new_task account_id dm_send_location (dm_location user_id latitude longitude accuracy) task_id 0
      wait normal)

unfoldable pub enqueue_join_group :
    World
    → (account_id group : String) (wait : Bool) (task_id : String) → List Turn
    → World × Result Ticket
enqueue_join_group w account_id group wait task_id =
    send w
      (new_task account_id TaskType.join_group (Payload.join_group group) task_id 0 wait normal)

unfoldable pub enqueue_cycle :
    World → (account_id task_id : String) → List Turn → World × Result Ticket
enqueue_cycle w account_id task_id =
    send w (new_task account_id run_cycle empty task_id 0 false normal)
