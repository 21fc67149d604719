-- ===== src/Supervision/Worker/Steps.antt =====
-- What the run task of an account does to its state, and the operations on it in any order
-- (workers/account_worker.py: _run_campaign_forever, _run_forwarding_forever, _task_done_callback,
-- _restart_after_crash).
use teleautomation_messaging.Prelude.{
  ℕ, zero, suc, ◌==◌, Bool, true, false, not, ◌&&◌, Option, none, some, List, [], ◌∷◌,
  if◌then◌else◌,
}
use teleautomation_messaging.Supervision.RunTasks.{RunTask}
use teleautomation_messaging.Supervision.Worker.{
  Worker, PostingMode, cancel_task, launch_task, start, stop, any_feature, reset_after_logout,
  mark_stopped,
}

-- Changing one task of the store.
unfoldable pub update_at : (RunTask → RunTask) → List RunTask → ℕ → List RunTask
update_at f [] i = []
update_at f (t ∷ ts) zero = f t ∷ ts
update_at f (t ∷ ts) (suc i) = t ∷ update_at f ts i

abbrev pub end_campaign_loop : RunTask → RunTask
end_campaign_loop t = record t { campaign_loop = false }

abbrev pub end_forwarding_loop : RunTask → RunTask
end_forwarding_loop t = record t { forwarding_loop = false }

abbrev pub finish_run : RunTask → RunTask
finish_run t = record t { finished = true }

-- `_maybe_release_session`
unfoldable pub maybe_release_session : Worker → Worker
maybe_release_session w = if any_feature w then w else record w { running = false }

-- What follows the campaign loop, in the task `i`.
unfoldable pub leave_campaign : ℕ → Worker → Worker
unfolding maybe_release_session mark_stopped update_at
leave_campaign i w =
    let w' = if w.one_shot then mark_stopped (record w { one_shot = false }) else w in
    maybe_release_session (record w' {
      campaign_status = "stopped";
      campaign_next_cycle_in = 0;
      heavy_rate_limit = false;
      tasks = update_at end_campaign_loop w'.tasks i;
    })

-- The head of the campaign loop: its test, and the checks before a cycle.
unfoldable pub campaign_tests : ℕ → Bool → PostingMode → ℕ → Worker → Worker
unfolding leave_campaign
campaign_tests i exclusive cfg now w =
    if not (w.running && w.campaign_running)
    then leave_campaign i w
    else if exclusive
    then leave_campaign i
        (record w { running = false; campaign_running = false; forwarding_running = false })
    else if not cfg.campaign_enabled
    then leave_campaign i (record w { campaign_running = false })
    else record w { last_activity_at = now }

-- What follows the forwarding loop.
unfoldable pub leave_forwarding : ℕ → Worker → Worker
unfolding update_at
leave_forwarding i w = record w {
  forwarding_status = "stopped";
  forwarding_next_cycle_in = 0;
  tasks = update_at end_forwarding_loop w.tasks i;
}

-- `_run_forwarding_forever` before its loop: forwarding by hand needs no loop.
unfoldable pub forwarding_begins : ℕ → PostingMode → Worker → Worker
unfolding update_at
forwarding_begins i cfg w =
    if cfg.manual_dispatch
    then record w { forwarding_running = false; tasks = update_at end_forwarding_loop w.tasks i }
    else w

-- The head of the forwarding loop, up to a tick. `st.last_activity_at` of the proxy
-- (workers/feature_runtime.py) is the field with the prefix of the feature.
unfoldable pub forwarding_tests : ℕ → Bool → PostingMode → ℕ → Worker → Worker
unfolding leave_forwarding
forwarding_tests i exclusive cfg now w =
    if not (w.running && w.forwarding_running)
    then leave_forwarding i w
    else if exclusive
    then leave_forwarding i (record w { running = false; forwarding_running = false })
    else if not cfg.forwarding_enabled
    then leave_forwarding i (record w { forwarding_running = false })
    else if not cfg.is_configured
    then w
    else record w { forwarding_last_activity_at = now }

-- After a tick: a one-shot worker stops forwarding.
unfoldable pub forwarding_ticked : ℕ → Worker → Worker
unfolding leave_forwarding
forwarding_ticked i w =
    if not w.forwarding_running
    then leave_forwarding i w
    else if w.one_shot
    then leave_forwarding i (record w { forwarding_running = false })
    else w

-- How a task ends.
pub data TaskEnd : Type 0 where
  returned was_cancelled crashed : TaskEnd

unfoldable pub end_task : ℕ → Worker → Worker
unfolding update_at
end_task i w = record w { tasks = update_at finish_run w.tasks i }

is_task : Option ℕ → ℕ → Bool
is_task none i = false
is_task (some j) i = j == i

-- `_task_done_callback` of the task `i`: whether a restart is scheduled.
unfoldable pub schedules_restart : ℕ → TaskEnd → Worker → Bool
unfolding is_task
schedules_restart i was_cancelled w = false
schedules_restart i returned w = is_task w.task i && w.running
schedules_restart i crashed w = is_task w.task i && w.running

-- `_restart_after_crash`, after its countdown.
unfoldable pub restart_after_crash : Worker → Worker
restart_after_crash w = if w.running then launch_task w else w

pub data WorkerOp : Type 0 where
  starts_run :
      (exclusive : Bool) (cfg : PostingMode) (now : ℕ) (one_shot : Bool)
      (campaign forwarding : Option Bool)
      → WorkerOp
  stops : (campaign forwarding : Option Bool) → WorkerOp
  resets cancels launches restarts : WorkerOp
  tests_campaign : (i : ℕ) (exclusive : Bool) (cfg : PostingMode) (now : ℕ) → WorkerOp
  begins_forwarding : (i : ℕ) (cfg : PostingMode) → WorkerOp
  tests_forwarding : (i : ℕ) (exclusive : Bool) (cfg : PostingMode) (now : ℕ) → WorkerOp
  ticks ends : (i : ℕ) → WorkerOp

unfoldable pub worker_step : Worker → WorkerOp → Worker
worker_step w (starts_run exclusive cfg now one_shot campaign forwarding) =
    (start exclusive cfg now one_shot campaign forwarding w).0
worker_step w (stops campaign forwarding) = stop campaign forwarding w
worker_step w resets = reset_after_logout w
worker_step w cancels = cancel_task w
worker_step w launches = launch_task w
worker_step w restarts = restart_after_crash w
worker_step w (tests_campaign i exclusive cfg now) = campaign_tests i exclusive cfg now w
worker_step w (begins_forwarding i cfg) = forwarding_begins i cfg w
worker_step w (tests_forwarding i exclusive cfg now) = forwarding_tests i exclusive cfg now w
worker_step w (ticks i) = forwarding_ticked i w
worker_step w (ends i) = end_task i w

unfoldable pub worker_run : Worker → List WorkerOp → Worker
worker_run w [] = w
worker_run w (op ∷ ops) = worker_run (worker_step w op) ops
