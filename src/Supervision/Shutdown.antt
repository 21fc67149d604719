-- ===== src/Supervision/Shutdown.antt =====
-- Accounts that rest for a week because they do not post (core/account_shutdown.py). The dictionary
-- is the "accounts" of account_shutdown.json; timestamps are whole seconds, and the configured
-- threshold and duration are arguments.
pub mod Unique
pub mod Listed
pub mod Idle
use teleautomation_messaging.Prelude.{
  ℕ, ◌+◌, ◌-◌, ◌==◌, String, Bool, true, false, not, ◌&&◌, ◌||◌, Option, none, some, List, [], ◌∷◌,
  ltb, leb, max, if◌then◌else◌, str_eq, keep, Dict, lookup, insert, erase,
}

pub record Shutdown : Type 0 where
  pub shutdown_at : ℕ
  pub resume_at : ℕ
  pub reason : String
  pub was_running : Bool
  pub last_send_at : Option ℕ

-- `_entry`
unfoldable pub shutdown_entry : ℕ → Shutdown → Shutdown
shutdown_entry duration raw =
    if raw.resume_at == 0 && ltb 0 raw.shutdown_at
    then record raw { resume_at = raw.shutdown_at + duration }
    else raw

-- `now >= resume_at`
unfoldable pub is_over : ℕ → ℕ → Shutdown → Bool
unfolding shutdown_entry
is_over duration now raw = leb (shutdown_entry duration raw).resume_at now

-- `list_shutdowns`
unfoldable pub list_shutdowns : ℕ → Bool → ℕ → Dict Shutdown → Dict Shutdown
unfolding is_over
list_shutdowns duration active_only now [] = []
list_shutdowns duration active_only now ((slot, raw) ∷ accounts) =
    let rest = list_shutdowns duration active_only now accounts in
    if active_only && is_over duration now raw
    then rest
    else (slot, shutdown_entry duration raw) ∷ rest

info_of : ℕ → ℕ → Option Shutdown → Option Shutdown
unfolding is_over
info_of duration now none = none
info_of duration now (some raw) =
    if is_over duration now raw then none else some (shutdown_entry duration raw)

-- `get_shutdown_info`
unfoldable pub get_shutdown_info : ℕ → ℕ → String → Dict Shutdown → Option Shutdown
unfolding info_of
get_shutdown_info duration now slot accounts =
    if str_eq slot "" then none else info_of duration now (lookup slot accounts)

abbrev is_there : Option Shutdown → Bool
is_there none = false
is_there (some info) = true

unfoldable pub is_shutdown_active : ℕ → ℕ → String → Dict Shutdown → Bool
unfolding get_shutdown_info
is_shutdown_active duration now slot accounts =
    is_there (get_shutdown_info duration now slot accounts)

remaining : ℕ → Option Shutdown → ℕ
remaining now none = 0
remaining now (some info) = info.resume_at - now

-- `seconds_until_resume`
unfoldable pub seconds_until_resume : ℕ → ℕ → String → Dict Shutdown → ℕ
unfolding remaining
seconds_until_resume duration now slot accounts =
    remaining now (get_shutdown_info duration now slot accounts)

-- `put_on_shutdown_list`; `none` is the ValueError for an empty slot.
unfoldable pub put_on_shutdown_list :
    ℕ → ℕ → String → String → Bool → Option ℕ → Dict Shutdown → Option (Dict Shutdown)
put_on_shutdown_list duration now slot reason was_running last_send_at accounts =
    if str_eq slot ""
    then none
    else some (
        insert slot
          (record {
            shutdown_at = now;
            resume_at = now + duration;
            reason = reason;
            was_running = was_running;
            last_send_at = last_send_at;
          })
          accounts)

abbrev is_key : Option Shutdown → Bool
is_key none = false
is_key (some raw) = true

-- `clear_shutdown`
unfoldable pub clear_shutdown : String → Dict Shutdown → Dict Shutdown × Bool
clear_shutdown slot accounts =
    if str_eq slot ""
    then (accounts, false)
    else if is_key (lookup slot accounts)
    then (erase slot accounts, true)
    else (accounts, false)

abbrev slots_of : Dict Shutdown → List String
slots_of [] = []
slots_of ((slot, raw) ∷ accounts) = slot ∷ slots_of accounts

-- `clear_all_shutdowns`
unfoldable pub clear_all_shutdowns : Dict Shutdown → Dict Shutdown × List String
clear_all_shutdowns accounts = ([], slots_of accounts)

-- `purge_expired`: the entries that stay, and the slots whose time is over.
unfoldable pub purge_expired : ℕ → ℕ → Dict Shutdown → Dict Shutdown × List String
unfolding is_over
purge_expired duration now accounts = (
  keep (λ e. not (is_over duration now e.1)) accounts,
  slots_of (keep (λ e. is_over duration now e.1) accounts),
)

-- A change of the list at its time.
pub data ShutdownOp : Type 0 where
  puts :
      (now : ℕ) (slot reason : String) (was_running : Bool) (last_send_at : Option ℕ) → ShutdownOp
  lifts : (slot : String) → ShutdownOp
  lifts_all : ShutdownOp
  purges : (now : ℕ) → ShutdownOp

-- The list after a call that may have raised.
abbrev or_same : Dict Shutdown → Option (Dict Shutdown) → Dict Shutdown
or_same accounts none = accounts
or_same accounts (some accounts') = accounts'

unfoldable pub shutdown_step : ℕ → ShutdownOp → Dict Shutdown → Dict Shutdown
shutdown_step duration (puts now slot reason was_running last_send_at) accounts =
    or_same accounts
      (put_on_shutdown_list duration now slot reason was_running last_send_at accounts)
shutdown_step duration (lifts slot) accounts = (clear_shutdown slot accounts).0
shutdown_step duration lifts_all accounts = (clear_all_shutdowns accounts).0
shutdown_step duration (purges now) accounts = (purge_expired duration now accounts).0

unfoldable pub shutdown_run : ℕ → List ShutdownOp → Dict Shutdown → Dict Shutdown
shutdown_run duration [] accounts = accounts
shutdown_run duration (op ∷ ops) accounts =
    shutdown_run duration ops (shutdown_step duration op accounts)
