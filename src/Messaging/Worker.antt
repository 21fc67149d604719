-- ===== src/Messaging/Worker.antt =====
-- workers/account_worker.py, the queue processor of an account: how a task is handled, and what one
-- round of the processor does. The Telegram operations behind a task are a record of functions.
pub mod Retries
use Prim.Native.String.{◌++◌}
use teleautomation_messaging.Prelude.{
  ℕ, String, Bool, true, false, Option, none, some, List, [], ◌∷◌, lookup, str_eq, slice_to,
  if◌then◌else◌,
}
use teleautomation_messaging.Observability.Metrics.{
  record_task_ok, record_task_fail, record_sent, record_failed,
}
use teleautomation_messaging.Events.Types.{
  message_sent, account_error, queue_update, EventData, no_data,
}
use teleautomation_messaging.Messaging.Task.{
  TaskType, dm_send_media, dm_send_location, run_cycle, Payload, dm_media, dm_location, user_id,
  group, QueueTask,
}
use teleautomation_messaging.Messaging.Future.{
  Error, value_error, key_error, Reply, text, cycle_busy,
}
use teleautomation_messaging.Messaging.Queue.{
  Queue, Turn, get_attempt, set_processing, complete_task,
}
use teleautomation_messaging.Messaging.World.{World, is_account, publish_event, set_queue}
use teleautomation_messaging.Messaging.Router.{invalid_account}
use teleautomation_messaging.Messaging.Retry.{
  RetryConfig, Draw, RetryClassification, error_text, classify_task_result, schedule_retry,
  schedule_retry_from_exception,
}

pub data Handled : Type 0 where
  returned : Reply → Handled
  raised_error : Error → Handled

-- The operations of the account's Telegram client, its inbox and its cycle, each with the state that
-- it leaves. `locked` says whether a cycle runs.
pub record Services : Type 0 where
  pub locked : World → Bool
  pub execute_cycle : World → World × Handled
  pub process_group : String → Option String → World → World × Handled
  pub dm_send : ℕ → String → String → Option String → Option ℕ → World → World × Handled
  pub dm_send_media :
      ℕ
      → (file_path caption filename content_type sent_by : String) → Option String
      → Option ℕ
      → World
      → World × Handled
  pub generate_and_send : ℕ → Option ℕ → String → Bool → World → World × Handled
  pub join : String → World → World × Handled

-- A successful send publishes MESSAGE_SENT; one that raises does not.
announce : String → EventData → World × Handled → World × Handled
announce slot info (w, returned r) = (publish_event message_sent slot info w, returned r)
announce slot info (w, raised_error e) = (w, raised_error e)

abbrev or_text : Option String → String
or_text none = ""
or_text (some s) = s

abbrev dm_info : Option ℕ → EventData
dm_info uid = record no_data { user_id = uid; channel = some "dm" }

-- `payload["user_id"]`
no_user : World → World × Handled
no_user w = (w, raised_error (key_error "user_id"))

group_message : Payload → Option String
group_message (Payload.group_post g message) = message
group_message _ = none

-- A direct message, from whatever dictionary: the keys other than `user_id` have defaults.
send_direct : Services → World → Payload → World × Handled
send_direct s w (Payload.dm_send uid body sent_by operator reply_to) =
    s.dm_send uid body sent_by operator reply_to w
send_direct s w (dm_media uid file caption name content_type sent_by operator reply_to) =
    s.dm_send uid "" sent_by operator reply_to w
send_direct s w (dm_location uid latitude longitude accuracy) =
    s.dm_send uid "" "manual" none none w
send_direct s w (Payload.ai_auto_reply uid message_id body force) =
    s.dm_send uid "" "manual" none none w
send_direct s w _ = no_user w

send_media : Services → World → Payload → World × Handled
send_media s w (dm_media uid file caption name content_type sent_by operator reply_to) =
    s.dm_send_media uid file caption name content_type sent_by operator reply_to w
send_media s w (Payload.dm_send uid body sent_by operator reply_to) =
    s.dm_send_media uid "" "" "" "" sent_by operator reply_to w
send_media s w (dm_location uid latitude longitude accuracy) =
    s.dm_send_media uid "" "" "" "" "manual" none none w
send_media s w (Payload.ai_auto_reply uid message_id body force) =
    s.dm_send_media uid "" "" "" "" "manual" none none w
send_media s w _ = no_user w

auto_reply : Services → World → Payload → World × Handled
auto_reply s w (Payload.ai_auto_reply uid message_id body force) =
    s.generate_and_send uid message_id body force w
auto_reply s w (Payload.dm_send uid body sent_by operator reply_to) =
    s.generate_and_send uid none "" false w
auto_reply s w (dm_media uid file caption name content_type sent_by operator reply_to) =
    s.generate_and_send uid none "" false w
auto_reply s w (dm_location uid latitude longitude accuracy) =
    s.generate_and_send uid none "" false w
auto_reply s w _ = no_user w

-- The branches of `_handle_queue_task`; a retry unwraps its task and handles that.
unfoldable pub handle_as : Services → String → World → TaskType → Payload → World × Handled
unfolding announce no_user group_message send_direct send_media auto_reply
handle_as s slot w TaskType.retry (Payload.retry t p) = handle_as s slot w t p
handle_as s slot w TaskType.retry _ = (w, raised_error (key_error "original_type"))
handle_as s slot w run_cycle p = if s.locked w then (w, returned cycle_busy) else s.execute_cycle w
handle_as s slot w TaskType.group_post p =
    announce slot no_data (s.process_group (or_text (group p)) (group_message p) w)
handle_as s slot w TaskType.dm_send p = announce slot (dm_info (user_id p)) (send_direct s w p)
handle_as s slot w dm_send_media p = announce slot (dm_info (user_id p)) (send_media s w p)
handle_as s slot w TaskType.ai_auto_reply p = auto_reply s w p
handle_as s slot w TaskType.join_group p = s.join (or_text (group p)) w
handle_as s slot w dm_send_location p =
    (w, raised_error (value_error "Unknown task type: TaskType.DM_SEND_LOCATION"))

-- `_handle_queue_task`
unfoldable pub handle_queue_task : Services → String → World → QueueTask → World × Handled
handle_queue_task s slot w task =
    if str_eq task.account_id slot then handle_as s slot w task.task_type task.payload else (
      w,
      raised_error (value_error ("Wrong account on queue: " ++ task.account_id ++ " != " ++ slot)),
    )

-- `MessageRouter.dispatch_inline`: the task is handled at once, on the worker of its account.
unfoldable pub dispatch_inline : Services → World → QueueTask → World × Handled
dispatch_inline s w task =
    if is_account w task.account_id
    then handle_queue_task s task.account_id w task
    else (w, raised_error (invalid_account task.account_id))

abbrev change : (Queue → Queue) → String → World → Option Queue → World
change f slot w none = w
change f slot w (some q) = set_queue slot (f q) w

-- An operation of the worker on its own queue.
unfoldable pub on_queue : (Queue → Queue) → String → World → World
on_queue f slot w = change f slot w (lookup slot w.queues)

unfoldable pub complete : String → QueueTask → Reply → Option Error → World → World
complete slot task reply e w =
    if task.wait_result then on_queue (λ q. complete_task q task.task_id reply e) slot w else w

retry_hint : RetryConfig → Draw → String → QueueTask → Option RetryClassification → World → World
retry_hint cfg draw slot task none w = w
retry_hint cfg draw slot task (some clf) w =
    if clf.retryable then (schedule_retry cfg draw w slot task clf).0 else w

-- After a group post that returned a text.
post_result : RetryConfig → Draw → String → QueueTask → String → World → World
post_result cfg draw slot task result w =
    if str_eq result "sent"
    then record w { metrics = record_sent slot w.now w.metrics }
    else retry_hint cfg draw slot task (classify_task_result result)
        (record w { metrics = record_failed slot result w.now w.metrics })

-- The `else` clause of the loop.
after_ok : RetryConfig → Draw → String → QueueTask → TaskType → Reply → World → World
after_ok cfg draw slot task TaskType.group_post (text result) w =
    post_result cfg draw slot task result w
after_ok cfg draw slot task _ _ w = w

finish_task : RetryConfig → Draw → String → QueueTask → World × Handled → World
finish_task cfg draw slot task (w, returned reply) =
    let w' = complete slot task reply none w in
    after_ok cfg draw slot task task.task_type reply
      (record w' { metrics = record_task_ok slot w'.now w'.metrics })
finish_task cfg draw slot task (w, raised_error e) =
    let message = slice_to 200 (error_text e) in
    let w' =
      complete slot task Reply.nothing (some e)
        (record w { metrics = record_task_fail slot message w.now w.metrics }) in
    (schedule_retry_from_exception cfg draw
      (publish_event account_error slot (record no_data { error = some message }) w') slot task e).0

-- One round of `_queue_processor_loop` with a task in hand.
unfoldable pub process_task : Services → RetryConfig → Draw → String → World → QueueTask → World
unfolding finish_task after_ok post_result retry_hint
process_task s cfg draw slot w task =
    let w₁ = on_queue (λ q. set_processing q true) slot w in
    let w₂ = finish_task cfg draw slot task (handle_queue_task s slot w₁ task) in
    publish_event queue_update slot no_data (on_queue (λ q. set_processing q false) slot w₂)

process_popped : Services → RetryConfig → Draw → String → World → Queue × Option QueueTask → World
process_popped s cfg draw slot w (q, none) = w
process_popped s cfg draw slot w (q, some task) =
    process_task s cfg draw slot (set_queue slot q w) task

abbrev process_queue : Services → RetryConfig → Draw → String → World → Option Queue → World
process_queue s cfg draw slot w none = w
process_queue s cfg draw slot w (some q) = process_popped s cfg draw slot w (get_attempt q w.now)

-- One round of `_queue_processor_loop`: an empty queue makes it wait on.
unfoldable pub process_next : Services → RetryConfig → Draw → String → World → World
unfolding process_popped
process_next s cfg draw slot w = process_queue s cfg draw slot w (lookup slot w.queues)
