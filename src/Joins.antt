-- ===== src/Joins.antt =====
-- Joining groups without a ban: the limits of an account (core/join_cycle.py, with the profiles of
-- core/account_profile.py). A state is one account's join_state.json. Times are in microseconds; the
-- ISO texts of the file keep whole seconds of them, and waits are in seconds. `today` gives the day
-- of a time. Messages are not modelled.
pub mod Path
pub mod Counts
pub mod Limits
pub mod Room
pub mod Attempts
pub mod Runs
pub mod Unrecorded
pub mod Backoff
pub mod Waiting
use teleautomation_messaging.Prelude.{
  ℕ, zero, suc, ◌+◌, ◌-◌, ◌*◌, ◌/◌, ◌%◌, String, Bool, true, false, not, ◌&&◌, ◌||◌, Option, none,
  some, List, [], ◌∷◌, ◌++◌, ltb, leb, ◌==◌, str_eq, if◌then◌else◌, length, keep, min, max, Dict,
  lookup, insert,
}

abbrev pub one_second : ℕ
one_second = 1000000

-- `_iso`, read again by `_parse_iso`: the fraction of a second is lost.
abbrev pub whole : ℕ → ℕ
whole t = t / one_second * one_second

-- core/config.py, with the limits that a profile may lower.
pub record JoinConfig : Type 0 where
  pub daily_limit : ℕ
  pub recent_max : ℕ
  pub window : ℕ
  pub min_interval : ℕ
  pub cooldown : ℕ
  pub count_threshold : ℕ
  pub failure_cap : ℕ
  pub backoff_max : ℕ
  pub today : ℕ → ℕ

-- `get_join_daily_limit` and `get_join_recent_max` of core/account_profile.py.
unfoldable pub get_join_daily_limit : ℕ → String → ℕ
get_join_daily_limit default slot =
    if str_eq slot "account7" then 12 else if str_eq slot "account8" then 8 else default

unfoldable pub get_join_recent_max : ℕ → String → ℕ
get_join_recent_max default slot =
    if str_eq slot "account7" then 3 else if str_eq slot "account8" then 2 else default

pub record JoinState : Type 0 where
  pub daily_date : ℕ
  pub daily_new_joins : ℕ
  pub recent_new_join_ts : List ℕ
  pub last_new_join_at : Option ℕ
  pub last_attempt_at : Option ℕ
  pub restriction_until : Option ℕ
  pub group_failures : Dict ℕ

-- `_default_state`
unfoldable pub default_state : JoinConfig → ℕ → JoinState
default_state cfg now = record {
  daily_date = cfg.today now;
  daily_new_joins = 0;
  recent_new_join_ts = [];
  last_new_join_at = none;
  last_attempt_at = none;
  restriction_until = none;
  group_failures = [];
}

-- `ts and now - ts < window`
abbrev pub within : ℕ → ℕ → ℕ → Bool
within window now ts = ltb 0 ts && ltb now (ts + window)

-- `_prune_recent`
unfoldable pub prune_recent : JoinConfig → ℕ → JoinState → JoinState
prune_recent cfg now s = record s {
  recent_new_join_ts = keep (within cfg.window now) s.recent_new_join_ts;
}

-- `_reset_daily_if_needed`
unfoldable pub reset_daily_if_needed : JoinConfig → ℕ → JoinState → JoinState
reset_daily_if_needed cfg now s =
    if s.daily_date == cfg.today now
    then s
    else record s { daily_date = cfg.today now; daily_new_joins = 0 }

abbrev pub time_or_zero : Option ℕ → ℕ
time_or_zero none = 0
time_or_zero (some t) = t

-- `restr and now < restr`
abbrev pub is_restricted : ℕ → Option ℕ → Bool
is_restricted now until = ltb now (time_or_zero until)

-- `last_join and now - last_join < min_iv`
abbrev pub is_too_soon : ℕ → ℕ → Option ℕ → Bool
is_too_soon now min_iv last = ltb 0 (time_or_zero last) && ltb now (time_or_zero last + min_iv)

oldest : ℕ → List ℕ → ℕ
oldest t [] = t
oldest t (x ∷ xs) = oldest (min t x) xs

oldest_of : ℕ → List ℕ → ℕ
unfolding oldest
oldest_of now [] = now
oldest_of now (t ∷ ts) = oldest t ts

unfoldable pub failures_of : String → Dict ℕ → ℕ
failures_of group d = time_or_zero (lookup group d)

-- The gap that a new join needs: wider for an account in many groups.
unfoldable pub min_interval_for : JoinConfig → ℕ → ℕ
min_interval_for cfg total =
    if ltb cfg.count_threshold total then max cfg.min_interval cfg.cooldown else cfg.min_interval

-- `JoinDecision`: `refused` has the wait and the reason.
pub data Decision : Type 0 where
  allowed : Decision
  refused : (wait_seconds : ℕ) (reason : String) → Decision

-- The checks of `evaluate_join`, in their order; `total` is `get_joined_total(slot)`.
unfoldable pub decide : JoinConfig → ℕ → ℕ → String → JoinState → Decision
unfolding oldest_of failures_of min_interval_for
decide cfg total now group s =
    if is_restricted now s.restriction_until
    then refused ((time_or_zero s.restriction_until - now) / one_second) "account_restricted"
    else if leb cfg.failure_cap (failures_of group s.group_failures)
    then refused cfg.backoff_max "group_backoff"
    else if leb cfg.daily_limit s.daily_new_joins
    then refused 3600 "daily_limit"
    else if leb cfg.recent_max (length s.recent_new_join_ts)
    then refused (max 1 ((cfg.window + oldest_of now s.recent_new_join_ts - now) / one_second + 1))
        "recent_burst"
    else if is_too_soon now (min_interval_for cfg total) s.last_new_join_at
    then refused
        ((min_interval_for cfg total + time_or_zero s.last_new_join_at - now) / one_second + 1)
        "min_interval"
    else allowed

-- `evaluate_join`: the state that it saves, and its decision.
unfoldable pub evaluate_join : JoinConfig → ℕ → ℕ → String → JoinState → JoinState × Decision
evaluate_join cfg total now group s =
    let s' = prune_recent cfg now (reset_daily_if_needed cfg now s) in
    (s', decide cfg total now group s')

unfoldable pub record_join_attempt : ℕ → JoinState → JoinState
record_join_attempt now s = record s { last_attempt_at = some (whole now) }

unfoldable pub record_join_success : JoinConfig → ℕ → JoinState → JoinState
record_join_success cfg now s =
    let s' = prune_recent cfg now (reset_daily_if_needed cfg now s) in
    record s' {
      last_new_join_at = some (whole now);
      last_attempt_at = some (whole now);
      daily_new_joins = s'.daily_new_joins + 1;
      recent_new_join_ts = s'.recent_new_join_ts ++ now ∷ [];
    }

-- The tiers of the back-off after so many failures.
abbrev pub backoff_tier : ℕ → ℕ × ℕ
backoff_tier n =
    if leb n 1
    then (600, 1800)
    else if n == 2
    then (1800, 7200)
    else if n == 3
    then (7200, 43200)
    else (43200, 86400)

-- `record_join_failure`, with the random draw as an argument.
unfoldable pub record_join_failure : ℕ → ℕ → String → JoinState → JoinState × ℕ
unfolding failures_of
record_join_failure draw now group s =
    let n = failures_of group s.group_failures + 1 in
    let (lo, hi) = backoff_tier n in
    (
      record s {
        group_failures = insert group n s.group_failures;
        last_attempt_at = some (whole now);
      },
      lo + draw % (hi - lo + 1),
    )

unfoldable pub set_join_restriction : ℕ → JoinState → JoinState
set_join_restriction until s = record s { restriction_until = some (whole until) }

unfoldable pub clear_join_restriction : JoinState → JoinState
clear_join_restriction s = record s { restriction_until = none }

-- `restriction_remaining_seconds`
unfoldable pub restriction_remaining_seconds : ℕ → JoinState → ℕ
restriction_remaining_seconds now s =
    if is_restricted now s.restriction_until
    then max 1 ((time_or_zero s.restriction_until - now) / one_second)
    else 0
