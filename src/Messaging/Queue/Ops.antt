-- ===== src/Messaging/Queue/Ops.antt =====
-- The stretches of code between two awaits of messaging/account_queue.py, as operations that come in
-- any order.
use teleautomation_messaging.Prelude.{
  ℕ, String, Bool, Option, none, some, List, [], ◌∷◌, str_eq, if◌then◌else◌,
}
use teleautomation_messaging.Messaging.Task.{QueueTask}
use teleautomation_messaging.Messaging.Future.{Error, Reply}
use teleautomation_messaging.Messaging.Queue.{
  Alert, Queue, register, put_attempt, give_up, put_reject, pop_highest_priority, get_attempt,
  set_processing, complete_task, drain, cancel_ai_auto_reply_for_user,
}

pub data QueueOp : Type 0 where
  put_registers put_tries put_tries_once put_times_out : QueueTask → QueueOp
  pops gets : (now : ℕ) → QueueOp
  processes : Bool → QueueOp
  completes : String → Reply → Option Error → QueueOp
  drains : QueueOp
  cancels : (uid : ℕ) → QueueOp

unfoldable pub after_attempt : Queue → Option (Queue × List Alert) → Queue
after_attempt q none = q
after_attempt q (some (q', alerts)) = q'

-- The part of `put` behind its check of the account.
unfoldable pub checked : Queue → QueueTask → Queue → Queue
checked q task q' = if str_eq task.account_id q.account_id then q' else q

unfoldable pub queue_step : Queue → QueueOp → Queue
queue_step q (put_registers task) = checked q task (register q task)
queue_step q (put_tries task) = checked q task (after_attempt q (put_attempt q task))
queue_step q (put_tries_once task) = checked q task (put_reject q task).0
queue_step q (put_times_out task) = checked q task (give_up q task)
queue_step q (pops now) = (pop_highest_priority q now).0
queue_step q (gets now) = (get_attempt q now).0
queue_step q (processes active) = set_processing q active
queue_step q (completes id reply e) = complete_task q id reply e
queue_step q drains = (drain q).0
queue_step q (cancels uid) = (cancel_ai_auto_reply_for_user q uid).0

unfoldable pub queue_run : Queue → List QueueOp → Queue
queue_run q [] = q
queue_run q (op ∷ ops) = queue_run (queue_step q op) ops
