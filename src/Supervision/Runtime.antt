-- ===== src/Supervision/Runtime.antt =====
-- The runtime of one account (services/account_runtime.py), with refresh_info of the worker
-- (workers/account_worker.py). Its lock keeps two of these calls apart; what other coroutines do to
-- the worker while a call waits is an argument.
pub mod Recovery
use teleautomation_messaging.Prelude.{
  ℕ, ◌+◌, String, Bool, true, false, not, ◌&&◌, ◌||◌, Option, none, some, List, [], ◌∷◌, ◌++◌,
  if◌then◌else◌,
}
use teleautomation_messaging.Supervision.Worker.{
  Worker, PostingMode, has_live_task, start, stop, mark_running, mark_stopped,
}

-- `lifecycle` lists the ACCOUNT_STATE events that were published, the last one at the end;
-- `worker_restarts` is the counter of the metrics store.
pub record Runtime : Type 0 where
  pub worker : Worker
  pub queue_processor : Bool
  pub lifecycle : List String
  pub worker_restarts : ℕ

-- What Telegram says of the session: `failed` where the client raises.
pub data Authorization : Type 0 where
  authorized unauthorized failed : Authorization

with_info : Authorization → Bool → Worker → Worker
with_info authorized cached w = record w { account_info = true }
with_info unauthorized cached w = record w { account_info = false }
with_info failed cached w = if cached then record w { account_info = true } else w

-- `refresh_info()`; `stored` says whether the account's information is on disk.
unfoldable pub refresh_info : Bool → Authorization → Bool → Worker → Worker
unfolding with_info
refresh_info exclusive answer stored w =
    if exclusive then w else with_info answer (w.account_info || stored) w

-- What a start reads from outside.
pub record StartContext : Type 0 where
  pub exclusive : Bool
  pub cfg : PostingMode
  pub now : ℕ
  pub answer : Authorization
  pub stored : Bool

-- `event_bus.publish(ACCOUNT_STATE, ...)`
publish_state : String → Runtime → Runtime
publish_state state r = record r { lifecycle = r.lifecycle ++ state ∷ [] }

after_start : Runtime → Worker × Bool → Runtime × Bool
unfolding publish_state
after_start r (w, true) = (publish_state "RUNNING" (record r { worker = mark_running w }), true)
after_start r (w, false) = (record r { worker = w }, false)

-- `ensure_queue_processor`, then the worker's start.
start_worker : StartContext → Bool → Option Bool → Option Bool → Runtime → Runtime × Bool
unfolding after_start
start_worker c one_shot campaign forwarding r =
    after_start (record r { queue_processor = true })
      (start c.exclusive c.cfg c.now one_shot campaign forwarding r.worker)

-- `start`
unfoldable pub start_runtime :
    StartContext → Bool → Bool → Option Bool → Option Bool → Runtime → Runtime × Bool
unfolding start_worker
start_runtime c one_shot skip_refresh campaign forwarding r =
    let w =
      if not skip_refresh || not r.worker.account_info
      then refresh_info c.exclusive c.answer c.stored r.worker
      else r.worker in
    let r' = record r { worker = w } in
    if not w.account_info then (r', false) else start_worker c one_shot campaign forwarding r'

-- `_stop_unlocked`: it waits for the task, if that goes on.
unfoldable pub stop_unlocked : Option Bool → Option Bool → (Worker → Worker) → Runtime → Runtime
unfolding publish_state
stop_unlocked campaign forwarding others r =
    let w = mark_stopped (stop campaign forwarding r.worker) in
    publish_state "STOPPED" (record r { worker = if has_live_task w then others w else w })

-- `restart`: `others` is what happens while it waits for the task, `pause` during the sleep.
unfoldable pub restart :
    StartContext → Bool → (Worker → Worker) → (Worker → Worker) → Runtime → Runtime × Bool
unfolding start_worker stop_unlocked
restart c one_shot others pause r =
    let r' = stop_unlocked none none others r in
    start_worker c one_shot none none (record r' { worker = pause r'.worker })

-- `handle_worker_crash`, for the account of the runtime.
unfoldable pub handle_worker_crash :
    StartContext → (Worker → Worker) → (Worker → Worker) → Runtime → Runtime
unfolding restart
handle_worker_crash c others pause r =
    let r' = record r { worker_restarts = r.worker_restarts + 1 } in
    if r.worker.running then (restart c false others pause r').0 else r'
