-- ===== src/Supervision/RunTasks.antt =====
-- The asyncio tasks that an account has launched (workers/account_worker.py, _has_live_task,
-- _cancel_task and _launch_task): objects on a store, where a task is named by its index.
use teleautomation_messaging.Prelude.{
  ℕ, zero, suc, Bool, true, false, not, Option, none, some, List, [], ◌∷◌, if◌then◌else◌,
}

-- A task of `_run_forever`: whether each of its two loops goes on, whether it was asked to stop, and
-- whether it is done.
pub record RunTask : Type 0 where
  pub campaign_loop : Bool
  pub forwarding_loop : Bool
  pub cancel_requested : Bool
  pub finished : Bool

-- `not task.done()`; an index that names no task is done.
unfoldable pub unfinished_at : List RunTask → ℕ → Bool
unfinished_at [] i = false
unfinished_at (t ∷ ts) zero = not t.finished
unfinished_at (t ∷ ts) (suc i) = unfinished_at ts i

-- `task is not None and not task.done()`
unfoldable pub live_task : Option ℕ → List RunTask → Bool
unfolding unfinished_at
live_task none ts = false
live_task (some i) ts = unfinished_at ts i

-- `task.cancel()`, of a task that is not done.
unfoldable pub cancel_at : List RunTask → ℕ → List RunTask
cancel_at [] i = []
cancel_at (t ∷ ts) zero = (if t.finished then t else record t { cancel_requested = true }) ∷ ts
cancel_at (t ∷ ts) (suc i) = t ∷ cancel_at ts i

unfoldable pub cancel_named : Option ℕ → List RunTask → List RunTask
unfolding cancel_at
cancel_named none ts = ts
cancel_named (some i) ts = cancel_at ts i

-- `asyncio.create_task(self._run_forever())`
abbrev pub fresh_task : RunTask
fresh_task = record {
  campaign_loop = true;
  forwarding_loop = true;
  cancel_requested = false;
  finished = false;
}
