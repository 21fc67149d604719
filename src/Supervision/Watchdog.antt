-- ===== src/Supervision/Watchdog.antt =====
-- The watchdog over the run tasks of all accounts (core/worker_watchdog.py).
pub mod Attends
pub mod Forwarding
use teleautomation_messaging.Prelude.{
  ℕ, ◌+◌, ◌-◌, String, Bool, true, false, not, ◌&&◌, ◌||◌, Option, none, some, List, [], ◌∷◌, ltb,
  str_eq, if◌then◌else◌, Dict, lookup, insert,
}
use teleautomation_messaging.Supervision.Worker.{
  Worker, new_worker, has_live_task, cancel_task, launch_task, mark_running,
}

-- `accounts` is ACCOUNTS, and `exclusive` the accounts that a login holds.
pub record Registry : Type 0 where
  pub accounts : List String
  pub workers : Dict Worker
  pub exclusive : String → Bool

or_new : Option Worker → Worker
or_new none = new_worker
or_new (some w) = w

-- `get_worker`, which makes the runtime of an account when it is first asked for.
unfoldable pub get_worker : Registry → String → Worker
unfolding or_new
get_worker r slot = or_new (lookup slot r.workers)

-- No sign of life for longer than `stale`; a long pause for a flood does not count.
unfoldable pub is_stuck : ℕ → ℕ → Worker → Bool
is_stuck stale now w =
    not (w.heavy_rate_limit || str_eq w.status "flood_wait")
    && (ltb 0 w.last_activity_at && ltb stale (now - w.last_activity_at))

-- The restart of a task that is missing: an account that is not logged in is left alone.
revive : Worker → Worker
revive w = if w.account_info then launch_task (mark_running w) else w

-- The restart of a task that is stuck: `others` is what happens during the sleep.
unstick : (Worker → Worker) → Worker → Worker
unstick others w = let w' = others (cancel_task w) in if w'.running then launch_task w' else w'

-- One account in `_check_all`.
unfoldable pub check : Bool → ℕ → ℕ → (Worker → Worker) → Worker → Worker
unfolding revive unstick
check exclusive stale now others w =
    if not w.running
    then w
    else if exclusive
    then w
    else if not (has_live_task w)
    then revive w
    else if is_stuck stale now w
    then unstick others w
    else w

-- Whether the round sleeps for the account, between stopping its stuck task and the restart.
unfoldable pub pauses : Bool → ℕ → ℕ → Worker → Bool
pauses exclusive stale now w =
    w.running && (not exclusive && (has_live_task w && is_stuck stale now w))

-- What else happens while the round sleeps for an account: to other accounts, and to the logins.
abbrev pub Elsewhere : Type 0
Elsewhere = String → Registry → Registry

unfoldable pub meanwhile : ℕ → ℕ → Elsewhere → String → Registry → Registry
unfolding get_worker
meanwhile stale now elsewhere slot r =
    if pauses (r.exclusive slot) stale now (get_worker r slot) then elsewhere slot r else r

-- `_check_all`, over the accounts that are left.
unfoldable pub check_slots :
    ℕ → ℕ → (Worker → Worker) → Elsewhere → List String → Registry → Registry
unfolding get_worker meanwhile
check_slots stale now others elsewhere [] r = r
check_slots stale now others elsewhere (slot ∷ slots) r =
    let w = check (r.exclusive slot) stale now others (get_worker r slot) in
    let r' = meanwhile stale now elsewhere slot r in
    check_slots stale now others elsewhere slots (record r' { workers = insert slot w r'.workers })

unfoldable pub check_all : ℕ → ℕ → (Worker → Worker) → Elsewhere → Registry → Registry
unfolding check_slots
check_all stale now others elsewhere r = check_slots stale now others elsewhere r.accounts r
