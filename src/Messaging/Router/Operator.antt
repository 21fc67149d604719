-- ===== src/Messaging/Router/Operator.antt =====
-- What a message of an operator does to the AI auto-replies of its chat
-- (messaging/message_router.py, enqueue_dm_send).
use teleautomation_messaging.Prelude.{
  ℕ, ◌+◌, ◌<◌, ◌≡◌, refl, ◌∙◌, sym, String, Bool, true, false, not, Option, some, List, ◌∷◌, lookup,
  lookup-insert, inl, inr, arith, eq_iff, ◌⊎◌, length-keep, count_if-le,
}
use teleautomation_messaging.Messaging.Task.{
  TaskType, priority_value, QueueTask, post_init, new_task,
}
use teleautomation_messaging.Messaging.Heapq.{HeapEntry, heappush}
use teleautomation_messaging.Messaging.Heapq.Holds.{Holds-length, Holds-exists_in, heappush-Holds}
use teleautomation_messaging.Messaging.Queue.{
  Queue, depth, Turn, register, enqueue_unlocked, is_reply_to, has_pending_ai_auto_reply_for_user,
  cancel_ai_auto_reply_for_user,
}
use teleautomation_messaging.Messaging.Queue.Removal.{
  cancel_ai_auto_reply_for_user-heap, cancel-frame,
}
use teleautomation_messaging.Messaging.World.{World, is_account, get_queue, set_queue}
use teleautomation_messaging.Messaging.Router.Isolation.{await_reply-world}
use teleautomation_messaging.Messaging.Router.Stored.{stored_queue, route-room}
use teleautomation_messaging.Messaging.Router.{
  route, route_and_wait, send, send_as, cancel_for_operator, enqueue_dm_send,
}

-- No reply to the user is pending in the queue of the account.
abbrev pub NoReplyPending : String → ℕ → World → Type 0
NoReplyPending id uid w =
    (q : Queue) × (lookup id w.queues ≡ some q) × (has_pending_ai_auto_reply_for_user q uid ≡ false)

-- The entry under which a task is stored.
abbrev new_entry : Queue → QueueTask → HeapEntry
new_entry q task = record {
  priority = priority_value task.priority;
  sequence = q.sequence + 1;
  task = task;
}

stored_queue-heap :
    (q : Queue) (task : QueueTask) → (stored_queue q task).heap ≡ heappush q.heap (new_entry q task)
unfolding enqueue_unlocked register
stored_queue-heap q task = ground arith

stored_queue-no_reply :
    (q : Queue) (task : QueueTask) (uid : ℕ)
    → task.task_type ≡ TaskType.dm_send
    → has_pending_ai_auto_reply_for_user q uid ≡ false
    → has_pending_ai_auto_reply_for_user (stored_queue q task) uid ≡ false
unfolding has_pending_ai_auto_reply_for_user
stored_queue-no_reply q task uid direct clear =
    let e = new_entry q task in
    rw (stored_queue-heap q task, Holds-exists_in (is_reply_to uid) (heappush-Holds q.heap e))
      (ground arith)

send_as-no_reply :
    (wait : Bool) (w : World) (q : Queue) (task : QueueTask) (t : Turn) (turns : List Turn)
    (uid : ℕ)
    → task.task_type ≡ TaskType.dm_send
    → is_account w task.account_id ≡ true
    → lookup task.account_id w.queues ≡ some q
    → task.account_id ≡ q.account_id
    → depth q < q.max_size
    → has_pending_ai_auto_reply_for_user q uid ≡ false
    → NoReplyPending task.account_id uid (send_as wait w task (t ∷ turns)).0
unfolding send_as route_and_wait
send_as-no_reply true w q task t turns uid direct known at own room clear =
    let waiting_task = record task { wait_result = true } in
    let r = route-room w q waiting_task t turns known at own room in
    rw (await_reply-world waiting_task (route w waiting_task (t ∷ turns)))
      (stored_queue q waiting_task, r.1, stored_queue-no_reply q waiting_task uid direct clear)
send_as-no_reply false w q task t turns uid direct known at own room clear =
    let r = route-room w q task t turns known at own room in
    (stored_queue q task, r.1, stored_queue-no_reply q task uid direct clear)

-- The queue after the auto-replies were cancelled.
abbrev cancelled_queue : Queue → ℕ → Queue
cancelled_queue q uid = (cancel_ai_auto_reply_for_user q uid).0

cancelled_queue-fits :
    (q : Queue) (uid : ℕ)
    → depth q < q.max_size
    → depth (cancelled_queue q uid) < (cancelled_queue q uid).max_size
cancelled_queue-fits q uid room = ground (
  arith,
  cancel_ai_auto_reply_for_user-heap q uid,
  cancel-frame q uid,
  Holds-length (cancel_ai_auto_reply_for_user-heap q uid).0,
  length-keep (λ e. not (is_reply_to uid e)) q.heap,
  count_if-le (λ e. not (is_reply_to uid e)) q.heap,
)

cancel_for_operator-set_queue :
    (w : World) (q : Queue) (id : String) (uid : ℕ) (sent_by : String)
    → (sent_by ≡ "manual") ⊎ (sent_by ≡ "ai_approved") ⊎ (sent_by ≡ "")
    → is_account w id ≡ true
    → lookup id w.queues ≡ some q
    → cancel_for_operator id uid sent_by w ≡ set_queue id (cancelled_queue q uid) w
unfolding cancel_for_operator get_queue
cancel_for_operator-set_queue w q id uid sent_by (inl m) known at = rw (m, known, at) refl
cancel_for_operator-set_queue w q id uid sent_by (inr (inl m)) known at = rw (m, known, at) refl
cancel_for_operator-set_queue w q id uid sent_by (inr (inr m)) known at = rw (m, known, at) refl

-- Sent by an operator, a direct message takes the AI auto-replies to its user off the queue before it
-- is queued itself: afterwards none is pending there. The account is known and its queue has room.
pub enqueue_dm_send-no_reply :
    (w : World) (q : Queue) (id : String) (uid : ℕ) (text : String) (wait : Bool) (sent_by : String)
    (operator_name : Option String) (reply_to : Option ℕ) (task_id : String) (t : Turn)
    (turns : List Turn)
    → (sent_by ≡ "manual") ⊎ (sent_by ≡ "ai_approved") ⊎ (sent_by ≡ "")
    → is_account w id ≡ true
    → lookup id w.queues ≡ some q
    → id ≡ q.account_id
    → depth q < q.max_size
    → NoReplyPending id uid
        (enqueue_dm_send w id uid text wait sent_by operator_name reply_to task_id (t ∷ turns)).0
unfolding enqueue_dm_send send new_task post_init
enqueue_dm_send-no_reply w q id uid text wait sent_by operator_name reply_to task_id t turns
      by_operator known at own room =
    rw (cancel_for_operator-set_queue w q id uid sent_by by_operator known at) (
      send_as-no_reply wait (set_queue id (cancelled_queue q uid) w) (cancelled_queue q uid) _ t
        turns uid refl (unfold is_account set_queue in known)
        (unfold set_queue in
          ground (arith, lookup-insert id id (cancelled_queue q uid) w.queues, eq_iff id id))
        (own ∙ sym (cancel-frame q uid).1) (cancelled_queue-fits q uid room)
        (cancel_ai_auto_reply_for_user-heap q uid).2)
