-- ===== src/Tests/Joining.antt =====
-- An account that joins groups (core/join_cycle.py, features/group_operation.py).
use teleautomation_messaging.Prelude.{
  ℕ, ◌+◌, ◌/◌, ◌≡◌, ◌≢◌, ◌≤◌, refl, true, false, List, [], ◌∷◌, count_if, arith, inr, some, ◌==◌,
  lookup, String,
}
use teleautomation_messaging.Joins.{
  JoinConfig, JoinState, allowed, evaluate_join, default_state, within, decide, prune_recent,
  reset_daily_if_needed, clear_join_restriction, set_join_restriction, record_join_success,
  record_join_attempt, failures_of, min_interval_for,
}
use teleautomation_messaging.Joins.Path.{
  Attempt, joined_new, ok, cant_write, JoinOp, attempts, restricts, clears, join_run,
  execute_join_path, is_new_join, join_step,
}
use teleautomation_messaging.Joins.Counts.{IsSpaced}
use teleautomation_messaging.Joins.Limits.{IsMonotone}
use teleautomation_messaging.Joins.Runs.{join_run-limits}
use teleautomation_messaging.Joins.Unrecorded.{execute_join_path-unrecorded}
use teleautomation_messaging.Joins.Backoff.{join_run-gives_up}
use teleautomation_messaging.Joins.Waiting.{is_for, evaluate_join-waits}

-- The day in India.
abbrev ist_day : ℕ → ℕ
ist_day t = (t + 19800000000) / 86400000000

abbrev account7 : JoinConfig
account7 = record {
  daily_limit = 12;
  recent_max = 3;
  window = 7200000000;
  min_interval = 7200000000;
  cooldown = 7200000000;
  count_threshold = 100;
  failure_cap = 4;
  backoff_max = 86400;
  today = ist_day;
}

ist_day-IsMonotone : IsMonotone ist_day
ist_day-IsMonotone a b le = omega arith

abbrev attempt : ℕ → Attempt
attempt at = record {
  target = "g";
  total = 5;
  at = at;
  done_at = at + 20000000;
  join_result = joined_new;
  send_after = true;
  post_answer = ok;
  draw = 0;
}

abbrev ops : List JoinOp
ops =
    attempts (attempt 1000000000)
    ∷ attempts (attempt 5000000000)
    ∷ restricts 9000000000
    ∷ attempts (attempt 8500000000)
    ∷ clears
    ∷ attempts (attempt 8600000000)
    ∷ []

-- The second attempt is too soon, the third meets the restriction.
ops_test : (join_run account7 ops (default_state account7 0, [])).1 ≡ 8620000000 ∷ 1020000000 ∷ []
unfolding join_run default_state join_step execute_join_path evaluate_join decide prune_recent
    reset_daily_if_needed clear_join_restriction set_join_restriction lookup record_join_success
    record_join_attempt
ops_test = refl

join_run-limits_example :
    let joins = (join_run account7 ops (default_state account7 0, [])).1 in
    ((day : ℕ) → count_if (λ h. ist_day h == day) joins ≤ 12)
    × ((t : ℕ) → 8620000000 ≤ t → count_if (within 7200000000 t) joins ≤ 3)
    × IsSpaced 7200000000 joins
join_run-limits_example =
    join_run-limits account7 0 ops ist_day-IsMonotone
      (
        omega arith,
        omega arith,
        omega arith,
        (
          omega arith,
          omega arith,
          omega arith,
          (omega arith, omega arith, omega arith, (omega arith, omega arith, omega arith, tt)),
        ),
      )
      (refl, (refl, (refl, (refl, tt))))

abbrev muted : Attempt
muted = record (attempt 1000000000) { post_answer = cant_write }

execute_join_path-unrecorded_example :
    let r = execute_join_path account7 muted (default_state account7 0) in
    (is_new_join muted r.1 ≡ true)
    × ((total now : ℕ) (group : String)
        → ist_day now ≡ ist_day 1000000000
        → 1000000000 ≤ now
        → (evaluate_join account7 total now group r.0).1
          ≡ (evaluate_join account7 total now group (default_state account7 0)).1)
unfolding evaluate_join default_state decide prune_recent reset_daily_if_needed lookup
execute_join_path-unrecorded_example =
    execute_join_path-unrecorded account7 muted (default_state account7 0) refl refl refl refl

abbrev given_up : JoinState
given_up = record (default_state account7 0) { group_failures = ("g", 4) ∷ [] }

join_run-gives_up_example :
    (evaluate_join account7 5 999999000000 "g" (join_run account7 ops (given_up, [])).0).1 ≢ allowed
unfolding failures_of lookup
join_run-gives_up_example =
    join_run-gives_up account7 ops given_up [] 5 999999000000 "g" (omega arith)

abbrev joined_once : JoinState
joined_once = record (default_state account7 0) {
  daily_new_joins = 1;
  recent_new_join_ts = 1020000000 ∷ [];
  last_new_join_at = some 1020000000;
}

evaluate_join-waits_example :
    let s' = (evaluate_join account7 5 5000000000 "g" joined_once).0 in
    is_for "min_interval" (evaluate_join account7 5 8221000000 "h" s').1 ≡ false
unfolding evaluate_join default_state decide prune_recent reset_daily_if_needed lookup failures_of
    min_interval_for
evaluate_join-waits_example =
    evaluate_join-waits account7 5 5000 8221000000 "g" "h" "min_interval" joined_once
      (inr (inr refl)) (omega arith) (omega arith) refl (omega arith)
