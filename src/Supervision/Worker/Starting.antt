-- ===== src/Supervision/Worker/Starting.antt =====
-- What a start of the worker does, and what it leaves undone (workers/account_worker.py: start,
-- _run_campaign_forever).
use teleautomation_messaging.Prelude.{
  ℕ, ◌≡◌, refl, sym, Bool, true, false, not, ◌&&◌, ◌||◌, Option, none, some, List, [], ◌∷◌, ◌++◌,
  if◌then◌else◌, length, arith,
}
use teleautomation_messaging.Supervision.RunTasks.{RunTask, fresh_task, unfinished_at, live_task}
use teleautomation_messaging.Supervision.Worker.{
  Worker, PostingMode, has_live_task, launch_task, cancel_task, start, start_fresh,
  apply_start_flags, any_feature, clear_flood_pause_state, set_flag,
}
use teleautomation_messaging.Supervision.Worker.Steps.{
  campaign_tests, leave_campaign, forwarding_ticked,
}

unfinished_at-append :
    (ts : List RunTask) (t : RunTask)
    → t.finished ≡ false
    → unfinished_at (ts ++ t ∷ []) (length ts) ≡ true
unfolding unfinished_at
unfinished_at-append [] t h = ground arith
unfinished_at-append (x ∷ ts) t h = unfinished_at-append ts t h

pub launch_task-live : (w : Worker) → has_live_task (launch_task w) ≡ true
unfolding has_live_task live_task launch_task
launch_task-live w = unfinished_at-append (cancel_task w).tasks fresh_task refl

-- Whether a feature is on after a start: as its own argument says; without one as before, if the
-- other feature has an argument; without any as the configuration says.
abbrev pub wanted : Bool → Option Bool → Option Bool → Bool → Bool
wanted enabled (some on) other before = on
wanted enabled none (some on) before = before
wanted enabled none none before = enabled

-- The worker runs with these features, and its state names a task that goes on.
pub record Runs (campaign forwarding : Bool) (w : Worker) : Type 0 where
  pub running : w.running ≡ true
  pub campaign_running : w.campaign_running ≡ campaign
  pub forwarding_running : w.forwarding_running ≡ forwarding
  pub live : has_live_task w ≡ true

start_fresh-Runs :
    (now : ℕ) (one_shot : Bool) (w : Worker)
    → Runs w.campaign_running w.forwarding_running (start_fresh now one_shot w)
unfolding start_fresh
start_fresh-Runs now one_shot w = record {
  running = unfold launch_task in refl;
  campaign_running = unfold launch_task clear_flood_pause_state cancel_task in ground arith;
  forwarding_running = unfold launch_task clear_flood_pause_state cancel_task in ground arith;
  live = launch_task-live _;
}

-- What a start promises of its result, where the features should be on as `campaign` and `forwarding`
-- say.
abbrev pub Starts : Bool → Bool → Bool → Worker → Worker × Bool → Type 0
Starts exclusive campaign forwarding w r =
    (r.1 ≡ (not exclusive && (campaign || forwarding)))
    × (r.1 ≡ true → Runs campaign forwarding r.0)
    × (exclusive ≡ true → r.0 ≡ w)

either-Starts :
    (flags fresh w : Worker) (feature again : Bool)
    → any_feature flags ≡ feature
    → (again ≡ true → Runs flags.campaign_running flags.forwarding_running flags)
    → Runs flags.campaign_running flags.forwarding_running fresh
    → Starts false flags.campaign_running flags.forwarding_running w
        (if not feature then (flags, false) else if again then (flags, true) else (fresh, true))
either-Starts flags fresh w false again e old new = (sym e, λ h. cc, λ h. cc)
either-Starts flags fresh w true true e old new = (sym e, λ h. old refl, λ h. cc)
either-Starts flags fresh w true false e old new = (sym e, λ h. new, λ h. cc)

apply_start_flags-wanted :
    (cfg : PostingMode) (campaign forwarding : Option Bool) (w : Worker)
    → let w' = apply_start_flags cfg campaign forwarding w in
      (w'.campaign_running ≡ wanted cfg.campaign_enabled campaign forwarding w.campaign_running)
      × (w'.forwarding_running
          ≡ wanted cfg.forwarding_enabled forwarding campaign w.forwarding_running)
unfolding apply_start_flags set_flag
apply_start_flags-wanted cfg none none w = (refl, refl)
apply_start_flags-wanted cfg none (some b) w = (refl, refl)
apply_start_flags-wanted cfg (some a) none w = (refl, refl)
apply_start_flags-wanted cfg (some a) (some b) w = (refl, refl)

-- A start succeeds exactly when no login holds the account and a feature is to be on: by its own
-- argument; if only the other feature has an argument, by what was on before; and with no argument
-- at all, by the configuration. Then the worker runs with exactly these features, and its state names
-- a task that is not done. A start during a login changes nothing.
pub start-Starts :
    (exclusive : Bool) (cfg : PostingMode) (now : ℕ) (one_shot : Bool)
    (campaign forwarding : Option Bool) (w : Worker)
    → Starts exclusive
        (wanted cfg.campaign_enabled campaign forwarding w.campaign_running)
        (wanted cfg.forwarding_enabled forwarding campaign w.forwarding_running)
        w
        (start exclusive cfg now one_shot campaign forwarding w)
unfolding start
start-Starts true cfg now one_shot campaign forwarding w = (refl, λ h. cc, λ h. refl)
start-Starts false cfg now one_shot campaign forwarding w =
    let flags = apply_start_flags cfg campaign forwarding w in
    let (c, f) = apply_start_flags-wanted cfg campaign forwarding w in
    rw⁻¹ (c, f)
      (either-Starts flags (start_fresh now one_shot flags) w (any_feature flags)
        (flags.running && has_live_task flags) refl
        (λ h. record {
          running = ground arith;
          campaign_running = refl;
          forwarding_running = refl;
          live = ground arith;
        })
        (start_fresh-Runs now one_shot flags))

-- A campaign that is started while a run task goes on reports success and sets its flag, but launches
-- no task: the campaign loop of the old task, which ended if the campaign was off, stays ended.
pub start-no_new_task :
    (cfg : PostingMode) (now : ℕ) (one_shot : Bool) (w : Worker)
    → w.running ≡ true
    → has_live_task w ≡ true
    → let r = start false cfg now one_shot (some true) none w in
      (r.1 ≡ true) × (r.0.campaign_running ≡ true) × (r.0.task ≡ w.task) × (r.0.tasks ≡ w.tasks)
unfolding start apply_start_flags set_flag has_live_task
start-no_new_task cfg now one_shot w on live = ground arith

-- A worker that is started once for forwarding only. The campaign loop, which is off, clears the
-- one-shot mark and takes the account out of the file of running workers, so that no tick ends the
-- forwarding loop.
pub one_shot-forwarding :
    (cfg cfg' : PostingMode) (now now' i : ℕ) (exclusive : Bool) (w : Worker)
    → w.campaign_running ≡ false
    → w.running && has_live_task w ≡ false
    → let w₁ = (start false cfg now true none (some true) w).0 in
      let w₂ = campaign_tests i exclusive cfg' now' w₁ in
      (w₁.one_shot ≡ true)
      × (w₂.running ≡ true)
      × (w₂.forwarding_running ≡ true)
      × (w₂.persisted ≡ false)
      × (forwarding_ticked i w₂ ≡ w₂)
unfolding start apply_start_flags set_flag has_live_task start_fresh launch_task cancel_task
    clear_flood_pause_state campaign_tests leave_campaign forwarding_ticked
one_shot-forwarding cfg cfg' now now' i exclusive w off idle = ground arith
