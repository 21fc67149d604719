-- ===== src/Supervision/Watchdog/Forwarding.antt =====
-- The watchdog over an account that only forwards (core/worker_watchdog.py, and
-- _run_forwarding_forever of workers/account_worker.py).
use teleautomation_messaging.Prelude.{ℕ, ◌≤◌, ◌≡◌, refl, true, false, arith}
use teleautomation_messaging.Supervision.Worker.{
  Worker, PostingMode, has_live_task, cancel_task, launch_task,
}
use teleautomation_messaging.Supervision.Worker.Steps.{forwarding_tests}
use teleautomation_messaging.Supervision.Worker.Starting.{launch_task-live}
use teleautomation_messaging.Supervision.Watchdog.{is_stuck, unstick, check}

abbrev pub alone : Worker → Worker
alone w = w

check-stuck :
    (stale now : ℕ) (w : Worker)
    → w.running ≡ true
    → has_live_task w ≡ true
    → is_stuck stale now w ≡ true
    → check false stale now alone w ≡ launch_task (cancel_task w)
unfolding check unstick cancel_task
check-stuck stale now w on live stuck = ground arith

-- Relaunching the task and starting a tick change neither the flags nor the sign of life that the
-- watchdog reads.
relaunched-stuck :
    (stale now now' later i : ℕ) (cfg : PostingMode) (w : Worker)
    → w.running ≡ true
    → w.forwarding_running ≡ true
    → is_stuck stale now w ≡ true
    → cfg.forwarding_enabled ≡ true
    → cfg.is_configured ≡ true
    → now ≤ now'
    → let w' = forwarding_tests i false cfg later (launch_task (cancel_task w)) in
      (w'.running ≡ true)
      × (w'.forwarding_last_activity_at ≡ later)
      × (w'.tasks ≡ (launch_task (cancel_task w)).tasks)
      × (w'.task ≡ (launch_task (cancel_task w)).task)
      × (is_stuck stale now' w' ≡ true)
unfolding forwarding_tests launch_task cancel_task is_stuck
relaunched-stuck stale now now' later i cfg w on forwarding stuck enabled set le = ground arith

-- The forwarding loop notes its ticks where the watchdog does not look. Once a worker that forwards
-- counts as stuck, because of an old campaign, its task is stopped and launched anew in every round of
-- the watchdog, although a tick has started since the round before.
pub check-forwarding :
    (stale now now' later i : ℕ) (cfg : PostingMode) (w : Worker)
    → w.running ≡ true
    → w.forwarding_running ≡ true
    → has_live_task w ≡ true
    → is_stuck stale now w ≡ true
    → cfg.forwarding_enabled ≡ true
    → cfg.is_configured ≡ true
    → now ≤ now'
    → let w₁ = check false stale now alone w in
      let w₂ = forwarding_tests i false cfg later w₁ in
      (w₁ ≡ launch_task (cancel_task w))
      × (w₂.forwarding_last_activity_at ≡ later)
      × (check false stale now' alone w₂ ≡ launch_task (cancel_task w₂))
check-forwarding stale now now' later i cfg w on forwarding live stuck enabled set le =
    let e = check-stuck stale now w on live stuck in
    let r = relaunched-stuck stale now now' later i cfg w on forwarding stuck enabled set le in
    let w₂ = forwarding_tests i false cfg later (launch_task (cancel_task w)) in
    let again : has_live_task w₂ ≡ true =
      unfold has_live_task in
      rw (r.2, r.3) (unfold has_live_task in launch_task-live (cancel_task w)) in
    rw e (refl, r.1, check-stuck stale now' w₂ r.0 again r.4)
