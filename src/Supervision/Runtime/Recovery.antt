-- ===== src/Supervision/Runtime/Recovery.antt =====
-- Restarts of an account, and stops of one of its features (services/account_runtime.py).
use teleautomation_messaging.Prelude.{
  ◌+◌, ◌≡◌, refl, String, Bool, true, false, ◌||◌, Option, none, List, [], ◌∷◌, ◌++◌, arith,
  Bool-cases, inl, inr,
}
use teleautomation_messaging.Supervision.Worker.{
  Worker, has_live_task, start, stop, mark_running, mark_stopped,
}
use teleautomation_messaging.Supervision.Worker.Starting.{Runs, start-Starts}
use teleautomation_messaging.Supervision.Worker.Stopping.{StopsOne, stop-one_feature}
use teleautomation_messaging.Supervision.Runtime.{
  Runtime, StartContext, publish_state, after_start, start_worker, stop_unlocked, restart,
  handle_worker_crash,
}

-- The account runs again: its worker runs with a task that is not done, a reload will resume it, and
-- the last event said so.
pub record IsRecovered (r : Runtime) : Type 0 where
  pub running : r.worker.running ≡ true
  pub live : has_live_task r.worker ≡ true
  pub persisted : r.worker.persisted ≡ true
  pub queue_processor : r.queue_processor ≡ true
  pub told : (before : List String) × (r.lifecycle ≡ before ++ "RUNNING" ∷ [])

after_start-IsRecovered :
    (campaign forwarding : Bool) (r : Runtime) (s : Worker × Bool)
    → r.queue_processor ≡ true
    → s.1 ≡ true
    → Runs campaign forwarding s.0
    → IsRecovered (after_start r s).0 × ((after_start r s).1 ≡ true)
unfolding after_start mark_running has_live_task publish_state
after_start-IsRecovered campaign forwarding r (w, false) q e v = cc
after_start-IsRecovered campaign forwarding r (w, true) q e v = (
  record {
    running = v.running;
    live = unfold has_live_task in v.live;
    persisted = refl;
    queue_processor = q;
    told = (r.lifecycle, refl);
  },
  refl,
)

start_worker-IsRecovered :
    (c : StartContext) (one_shot : Bool) (r : Runtime)
    → c.exclusive ≡ false
    → c.cfg.campaign_enabled || c.cfg.forwarding_enabled ≡ true
    → IsRecovered (start_worker c one_shot none none r).0
      × ((start_worker c one_shot none none r).1 ≡ true)
unfolding start_worker
start_worker-IsRecovered c one_shot r free feature =
    let s = start-Starts c.exclusive c.cfg c.now one_shot none none r.worker in
    let yes' : (start c.exclusive c.cfg c.now one_shot none none r.worker).1 ≡ true =
      ground arith in
    after_start-IsRecovered c.cfg.campaign_enabled c.cfg.forwarding_enabled
      (record r { queue_processor = true }) _ refl yes' (s.1 yes')

start_worker-restarts :
    (c : StartContext) (one_shot : Bool) (campaign forwarding : Option Bool) (r : Runtime)
    → (start_worker c one_shot campaign forwarding r).0.worker_restarts ≡ r.worker_restarts
unfolding start_worker after_start publish_state
start_worker-restarts c one_shot campaign forwarding r = ground arith

restart-IsRecovered :
    (c : StartContext) (one_shot : Bool) (others pause : Worker → Worker) (r : Runtime)
    → c.exclusive ≡ false
    → c.cfg.campaign_enabled || c.cfg.forwarding_enabled ≡ true
    → IsRecovered (restart c one_shot others pause r).0
      × ((restart c one_shot others pause r).0.worker_restarts ≡ r.worker_restarts)
unfolding restart
restart-IsRecovered c one_shot others pause r free feature =
    let r₁ = stop_unlocked none none others r in
    let r₂ = record r₁ { worker = pause r₁.worker } in
    (
      (start_worker-IsRecovered c one_shot r₂ free feature).0,
      unfold stop_unlocked in start_worker-restarts c one_shot none none r₂,
    )

-- After a crash of its run task an account that ran is started again: whatever other coroutines did
-- meanwhile, its worker runs with a task that is not done, its queue is served, a reload of the
-- process will resume it, and the crash is counted. No login holds the account, and its
-- configuration has a feature switched on. A crash of a worker that no longer runs is only counted.
pub handle_worker_crash-IsRecovered :
    (c : StartContext) (others pause : Worker → Worker) (r : Runtime)
    → c.exclusive ≡ false
    → c.cfg.campaign_enabled || c.cfg.forwarding_enabled ≡ true
    → let r' = handle_worker_crash c others pause r in
      (r'.worker_restarts ≡ r.worker_restarts + 1)
      × (r.worker.running ≡ true → IsRecovered r')
      × (r.worker.running ≡ false → (r'.worker ≡ r.worker) × (r'.lifecycle ≡ r.lifecycle))
unfolding handle_worker_crash stop
handle_worker_crash-IsRecovered c others pause r free feature =
    let r' = record r { worker_restarts = r.worker_restarts + 1 } in
    let recovered = restart-IsRecovered c false others pause r' free feature in
    elim (Bool-cases r.worker.running) [
      | inl on ↦ rw (on, handle_worker_crash) (recovered.1, λ h. recovered.0, λ h. cc)
      | inr off ↦ rw (off, handle_worker_crash) (refl, λ h. cc, λ h. (refl, refl))
    ]

-- Stopping one feature of a worker that runs, while its other feature goes on, takes the account out
-- of the file of running workers, and says that it has stopped, while its worker runs on. The other
-- coroutines that act while it waits for the task leave the account's mark in the file, its flags
-- and whether it runs.
pub stop_unlocked-persisted :
    (campaign forwarding : Option Bool) (others : Worker → Worker) (r : Runtime)
    → StopsOne campaign forwarding r.worker
    → ((w : Worker)
        → ((others w).running ≡ w.running)
          × ((others w).campaign_running ≡ w.campaign_running)
          × ((others w).forwarding_running ≡ w.forwarding_running)
          × ((others w).persisted ≡ w.persisted))
    → r.worker.running ≡ true
    → let r' = stop_unlocked campaign forwarding others r in
      (r'.worker.running ≡ true)
      × (r'.worker.campaign_running || r'.worker.forwarding_running ≡ true)
      × (r'.worker.persisted ≡ false)
      × (r'.lifecycle ≡ r.lifecycle ++ "STOPPED" ∷ [])
unfolding stop_unlocked mark_stopped has_live_task publish_state
stop_unlocked-persisted campaign forwarding others r one calm on = ground (
  arith,
  stop-one_feature campaign forwarding r.worker one on,
  calm (mark_stopped (stop campaign forwarding r.worker)),
)
