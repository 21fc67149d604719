-- ===== src/Tests/Supervising.antt =====
-- The run tasks of accounts (workers/account_worker.py, services/account_runtime.py,
-- core/worker_watchdog.py).
use teleautomation_messaging.Prelude.{
  ◌≡◌, ◌≤◌, refl, inr, ◌||◌, true, false, none, some, [], ◌∷◌, ◌++◌, count_if, arith,
}
use teleautomation_messaging.Supervision.RunTasks.{RunTask}
use teleautomation_messaging.Supervision.Worker.{
  Worker, PostingMode, new_worker, has_live_task, cancel_task, launch_task, start,
}
use teleautomation_messaging.Supervision.Worker.Steps.{
  worker_run, worker_step, starts_run, ends, launches, campaign_tests, forwarding_tests,
  forwarding_ticked,
}
use teleautomation_messaging.Supervision.Worker.Active.{is_active}
use teleautomation_messaging.Supervision.Worker.Sole.{IsSole, worker_run-IsSole}
use teleautomation_messaging.Supervision.Worker.Starting.{Starts, start-Starts, one_shot-forwarding}
use teleautomation_messaging.Supervision.Runtime.{
  Runtime, StartContext, authorized, stop_unlocked, handle_worker_crash,
}
use teleautomation_messaging.Supervision.Runtime.Recovery.{
  IsRecovered, handle_worker_crash-IsRecovered, stop_unlocked-persisted,
}
use teleautomation_messaging.Supervision.Watchdog.{Registry, is_stuck, check}
use teleautomation_messaging.Supervision.Watchdog.Forwarding.{check-forwarding}

abbrev both : PostingMode
both = record {
  campaign_enabled = true;
  forwarding_enabled = true;
  manual_dispatch = false;
  is_configured = true;
}

abbrev plain : RunTask
plain = record {
  campaign_loop = true;
  forwarding_loop = true;
  cancel_requested = false;
  finished = false;
}

-- A worker whose task goes on.
abbrev working : Worker
working = record new_worker {
  running = true;
  campaign_running = true;
  forwarding_running = true;
  account_info = true;
  last_activity_at = 10;
  persisted = true;
  task = some 0;
  tasks = plain ∷ [];
}

-- The same, after its task has crashed.
abbrev crashed_worker : Worker
crashed_worker = record working { tasks = record plain { finished = true } ∷ [] }

worker_run-IsSole_example :
    let w =
      worker_run new_worker
        (starts_run false both 1 false none none ∷ ends 0 ∷ launches ∷ launches ∷ []) in
    IsSole w × (count_if is_active w.tasks ≤ 1)
worker_run-IsSole_example =
    worker_run-IsSole (starts_run false both 1 false none none ∷ ends 0 ∷ launches ∷ launches ∷ [])

-- The first of the two launches is asked to stop by the second.
launched_twice :
    (worker_run new_worker (launches ∷ launches ∷ [])).tasks
    ≡ record plain { cancel_requested = true } ∷ plain ∷ []
unfolding worker_run worker_step launch_task
launched_twice = refl

start-Starts_example :
    Starts false true true new_worker (start false both 5 false none none new_worker)
start-Starts_example = start-Starts false both 5 false none none new_worker

-- Only forwarding runs; the campaign loop of the task has ended.
abbrev forwarding_worker : Worker
forwarding_worker = record working {
  campaign_running = false;
  tasks = record plain { campaign_loop = false } ∷ [];
}

one_shot-forwarding_example :
    let w₁ = (start false both 5 true none (some true) new_worker).0 in
    let w₂ = campaign_tests 0 false both 6 w₁ in
    (w₁.one_shot ≡ true)
    × (w₂.running ≡ true)
    × (w₂.forwarding_running ≡ true)
    × (w₂.persisted ≡ false)
    × (forwarding_ticked 0 w₂ ≡ w₂)
one_shot-forwarding_example = one_shot-forwarding both both 5 6 0 false new_worker refl refl

abbrev runtime_of : Worker → Runtime
runtime_of w = record {
  worker = w;
  queue_processor = true;
  lifecycle = "RUNNING" ∷ [];
  worker_restarts = 0;
}

abbrev context : StartContext
context = record { exclusive = false; cfg = both; now = 9; answer = authorized; stored = true }

handle_worker_crash-IsRecovered_example :
    IsRecovered (handle_worker_crash context (λ w. w) (λ w. w) (runtime_of crashed_worker))
handle_worker_crash-IsRecovered_example =
    (handle_worker_crash-IsRecovered context (λ w. w) (λ w. w) (runtime_of crashed_worker) refl
        refl).1
      refl

stop_unlocked-persisted_example :
    let r' = stop_unlocked none (some false) (λ w. w) (runtime_of working) in
    (r'.worker.running ≡ true)
    × (r'.worker.campaign_running || r'.worker.forwarding_running ≡ true)
    × (r'.worker.persisted ≡ false)
    × (r'.lifecycle ≡ ("RUNNING" ∷ []) ++ "STOPPED" ∷ [])
stop_unlocked-persisted_example =
    stop_unlocked-persisted none (some false) (λ w. w) (runtime_of working) (inr (refl, refl, refl))
      (λ w. (refl, refl, refl, refl)) refl

abbrev registry : Registry
registry = record {
  accounts = "a" ∷ "b" ∷ [];
  workers = ("a", crashed_worker) ∷ [];
  exclusive = λ slot. false;
}

check-forwarding_example :
    let w₁ = check false 2700 9000 (λ w. w) forwarding_worker in
    let w₂ = forwarding_tests 1 false both 9001 w₁ in
    (w₁ ≡ launch_task (cancel_task forwarding_worker))
    × (w₂.forwarding_last_activity_at ≡ 9001)
    × (check false 2700 9045 (λ w. w) w₂ ≡ launch_task (cancel_task w₂))
unfolding has_live_task is_stuck
check-forwarding_example =
    check-forwarding 2700 9000 9045 9001 1 both forwarding_worker refl refl refl refl refl refl
      (omega arith)
