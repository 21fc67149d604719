-- ===== src/Supervision/Worker.antt =====
-- Starting and stopping the run task of an account (workers/account_worker.py, on the state of
-- workers/account_state.py). Tasks of asyncio are objects on a store; a task is done when the event
-- loop says so, some time after it was asked to stop. Logs, notifications, the release of the
-- Telegram session and the file of join restrictions are not modelled.
pub mod Steps
pub mod Active
pub mod Sole
pub mod Starting
pub mod Stopping
use teleautomation_messaging.Prelude.{
  ℕ, zero, suc, ◌+◌, ◌==◌, String, Bool, true, false, not, ◌&&◌, ◌||◌, Option, none, some, List, [],
  ◌∷◌, ◌++◌, str_eq, if◌then◌else◌, length,
}
use teleautomation_messaging.Supervision.RunTasks.{RunTask, live_task, cancel_named, fresh_task}

-- The part of AccountState that starting and stopping touch, with `_one_shot` of the worker. Account
-- information is only present or absent. `persisted` says whether the slot stands in the file of
-- running workers (core/worker_persistence.py).
pub record Worker : Type 0 where
  pub running : Bool
  pub campaign_running : Bool
  pub forwarding_running : Bool
  pub one_shot : Bool
  pub account_info : Bool
  pub heavy_rate_limit : Bool
  pub status : String
  pub campaign_status : String
  pub forwarding_status : String
  pub campaign_next_cycle_in : ℕ
  pub forwarding_next_cycle_in : ℕ
  pub last_activity_at : ℕ
  pub forwarding_last_activity_at : ℕ
  pub worker_started_at : ℕ
  pub persisted : Bool
  pub task : Option ℕ
  pub tasks : List RunTask

-- `AccountState(slot)`
abbrev pub new_worker : Worker
new_worker = record {
  running = false;
  campaign_running = false;
  forwarding_running = false;
  one_shot = false;
  account_info = false;
  heavy_rate_limit = false;
  status = "stopped";
  campaign_status = "stopped";
  forwarding_status = "stopped";
  campaign_next_cycle_in = 0;
  forwarding_next_cycle_in = 0;
  last_activity_at = 0;
  forwarding_last_activity_at = 0;
  worker_started_at = 0;
  persisted = false;
  task = none;
  tasks = [];
}

-- `mark_running` and `mark_stopped` of core/worker_persistence.py, for a configured slot.
unfoldable pub mark_running : Worker → Worker
mark_running w = record w { persisted = true }

unfoldable pub mark_stopped : Worker → Worker
mark_stopped w = record w { persisted = false }

-- `load_posting_mode(slot)`, as far as it is read here.
pub record PostingMode : Type 0 where
  pub campaign_enabled : Bool
  pub forwarding_enabled : Bool
  pub manual_dispatch : Bool
  pub is_configured : Bool

unfoldable pub has_live_task : Worker → Bool
unfolding live_task
has_live_task w = live_task w.task w.tasks

-- `_cancel_task`
unfoldable pub cancel_task : Worker → Worker
unfolding cancel_named
cancel_task w = record w { tasks = cancel_named w.task w.tasks }

-- `_launch_task`
unfoldable pub launch_task : Worker → Worker
unfolding cancel_task
launch_task w =
    let w' = cancel_task w in
    record w' { task = some (length w'.tasks); tasks = w'.tasks ++ fresh_task ∷ [] }

-- A flag that an argument of None leaves alone.
unfoldable pub set_flag : Option Bool → Bool → Bool
set_flag none old = old
set_flag (some new) old = new

abbrev is_given : Option Bool → Bool
is_given none = false
is_given (some b) = true

-- `_apply_start_flags`
unfoldable pub apply_start_flags : PostingMode → Option Bool → Option Bool → Worker → Worker
unfolding set_flag
apply_start_flags cfg campaign forwarding w =
    if not (is_given campaign || is_given forwarding)
    then record w {
      campaign_running = cfg.campaign_enabled;
      forwarding_running = cfg.forwarding_enabled;
    }
    else record w {
      campaign_running = set_flag campaign w.campaign_running;
      forwarding_running = set_flag forwarding w.forwarding_running;
    }

abbrev pub any_feature : Worker → Bool
any_feature w = w.campaign_running || w.forwarding_running

-- `_clear_flood_pause_state(heavy=True)`
unfoldable pub clear_flood_pause_state : Worker → Worker
clear_flood_pause_state w =
    let w' = record w {
      campaign_next_cycle_in = 0;
      forwarding_next_cycle_in = 0;
      heavy_rate_limit = false;
    } in
    if w.running && str_eq w.status "flood_wait"
    then record w' {
      status = "active";
      campaign_status = if w.campaign_running then "active" else w.campaign_status;
      forwarding_status = if w.forwarding_running then "active" else w.forwarding_status;
    }
    else w'

start_fresh : ℕ → Bool → Worker → Worker
start_fresh now one_shot w =
    let w' = clear_flood_pause_state (record (cancel_task w) { one_shot = one_shot }) in
    launch_task (record w' { running = true; worker_started_at = now })

-- `start`, with `is_login_exclusive`, the posting mode and the clock as arguments.
unfoldable pub start :
    Bool → PostingMode → ℕ → Bool → Option Bool → Option Bool → Worker → Worker × Bool
unfolding start_fresh
start exclusive cfg now one_shot campaign forwarding w =
    let w' = apply_start_flags cfg campaign forwarding w in
    if exclusive
    then (w, false)
    else if not (any_feature w')
    then (w', false)
    else if w'.running && has_live_task w'
    then (w', true)
    else (start_fresh now one_shot w', true)

-- A flag that only an argument of False clears.
unfoldable pub clear_flag : Option Bool → Bool → Bool
clear_flag (some false) old = false
clear_flag _ old = old

clear_flags : Option Bool → Option Bool → Worker → Worker
unfolding clear_flag
clear_flags campaign forwarding w =
    if not (is_given campaign || is_given forwarding)
    then record w { campaign_running = false; forwarding_running = false; running = false }
    else let c = clear_flag campaign w.campaign_running in
      let f = clear_flag forwarding w.forwarding_running in
      record w {
        campaign_running = c;
        forwarding_running = f;
        running = if c || f then w.running else false;
      }

abbrev stopped_flood : String → String
stopped_flood status = if str_eq status "flood_wait" then "stopped" else status

quieten : Option Bool → Option Bool → Worker → Worker
unfolding clear_flags
quieten campaign forwarding w =
    let w' = clear_flags campaign forwarding w in
    record w' {
      one_shot = false;
      campaign_next_cycle_in = 0;
      forwarding_next_cycle_in = 0;
      heavy_rate_limit = false;
      campaign_status = stopped_flood w'.campaign_status;
      forwarding_status = stopped_flood w'.forwarding_status;
    }

-- `stop`: the task of a worker that no longer runs is asked to stop.
unfoldable pub stop : Option Bool → Option Bool → Worker → Worker
unfolding quieten cancel_task
stop campaign forwarding w =
    let w' = quieten campaign forwarding w in if w'.running then w' else cancel_task w'

-- `reset_after_logout`
unfoldable pub reset_after_logout : Worker → Worker
reset_after_logout w = record (stop none none w) {
  account_info = false;
  campaign_status = "stopped";
  forwarding_status = "stopped";
  campaign_next_cycle_in = 0;
  forwarding_next_cycle_in = 0;
  worker_started_at = 0;
  heavy_rate_limit = false;
  running = false;
  campaign_running = false;
  forwarding_running = false;
  task = none;
}
