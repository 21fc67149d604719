-- ===== src/Supervision/Watchdog/Attends.antt =====
-- What a round of the watchdog leaves (core/worker_watchdog.py).
use teleautomation_messaging.Prelude.{ℕ, ◌≡◌, ◌⊎◌, String, Bool, true, false, insert}
use teleautomation_messaging.Supervision.Worker.{Worker, has_live_task}
use teleautomation_messaging.Supervision.Watchdog.{
  Registry, get_worker, check, Elsewhere, meanwhile,
}

-- The worker needs no help, or must not get it.
abbrev pub IsAttended : Bool → Worker → Type 0
IsAttended exclusive w =
    (w.running ≡ false) ⊎ (exclusive ≡ true) ⊎ (has_live_task w ≡ true) ⊎ (w.account_info ≡ false)

-- An account that must be left alone.
abbrev pub IsLeftAlone : Bool → Worker → Type 0
IsLeftAlone exclusive w = (w.running ≡ false) ⊎ (exclusive ≡ true)

abbrev pub AttendedIn : String → Registry → Type 0
AttendedIn s r = IsAttended (r.exclusive s) (get_worker r s)

abbrev pub LeftAloneIn : String → Registry → Type 0
LeftAloneIn s r = IsLeftAlone (r.exclusive s) (get_worker r s)

-- While the round sleeps, no other account is left running without a task.
abbrev pub KeepsAttended : Elsewhere → Type 0
KeepsAttended elsewhere =
    (slot s : String) (r : Registry) → AttendedIn s r → AttendedIn s (elsewhere slot r)

-- While the round sleeps, an account that must be left alone stays so, and its worker as it is.
abbrev pub LeavesAlone : Elsewhere → Type 0
LeavesAlone elsewhere =
    (slot s : String) (r : Registry)
    → LeftAloneIn s r
    → (get_worker (elsewhere slot r) s ≡ get_worker r s)
      × ((elsewhere slot r).exclusive s ≡ r.exclusive s)

module _ (stale now : ℕ) (others : Worker → Worker) (elsewhere : Elsewhere) where
  -- The registry after the account `slot` was checked.
  abbrev after_check : String → Registry → Registry
  after_check slot r =
      let r' = meanwhile stale now elsewhere slot r in
      record r' {
        workers =
            insert slot (check (r.exclusive slot) stale now others (get_worker r slot)) r'.workers;
      }
