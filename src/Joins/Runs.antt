-- ===== src/Joins/Runs.antt =====
-- Every run of joins keeps the limits of the account (core/join_cycle.py,
-- features/group_operation.py).
use teleautomation_messaging.Prelude.{
  ℕ, ◌≤◌, ◌≡◌, refl, true, List, [], ◌∷◌, ◌==◌, count_if, count_if-le, arith,
}
use teleautomation_messaging.Joins.{
  JoinConfig, JoinState, one_second, within, set_join_restriction, clear_join_restriction,
  default_state,
}
use teleautomation_messaging.Joins.Path.{
  is_recorded, execute_join_path, JoinOp, attempts, restricts, clears, join_step, join_run,
}
use teleautomation_messaging.Joins.Counts.{IsSpaced}
use teleautomation_messaging.Joins.Limits.{IsMonotone, IsLimited, same-IsLimited}
use teleautomation_messaging.Joins.Attempts.{joins_after, attempt-Keeps}

-- Each attempt starts after the one before it has ended, and ends after it started.
abbrev pub InOrder : ℕ → List JoinOp → Type 0
InOrder now [] = Unit
InOrder now (attempts a ∷ ops) =
    (now ≤ a.at) × (a.at ≤ a.done_at) × (one_second ≤ a.at) × InOrder a.done_at ops
InOrder now (restricts until ∷ ops) = InOrder now ops
InOrder now (clears ∷ ops) = InOrder now ops

-- The post in a new group succeeds, or none is made.
abbrev pub AllRecorded : List JoinOp → Type 0
AllRecorded [] = Unit
AllRecorded (attempts a ∷ ops) = (is_recorded a ≡ true) × AllRecorded ops
AllRecorded (restricts until ∷ ops) = AllRecorded ops
AllRecorded (clears ∷ ops) = AllRecorded ops

-- The time at which the last attempt has ended.
abbrev pub ended_at : ℕ → List JoinOp → ℕ
ended_at now [] = now
ended_at now (attempts a ∷ ops) = ended_at a.done_at ops
ended_at now (restricts until ∷ ops) = ended_at now ops
ended_at now (clears ∷ ops) = ended_at now ops

join_run-IsLimited :
    (cfg : JoinConfig) (mono : IsMonotone cfg.today) (now : ℕ) (ops : List JoinOp) (s : JoinState)
    (joins : List ℕ)
    → InOrder now ops
    → AllRecorded ops
    → IsLimited cfg now s joins
    → let r = join_run cfg ops (s, joins) in IsLimited cfg (ended_at now ops) r.0 r.1
unfolding join_run join_step set_join_restriction clear_join_restriction
join_run-IsLimited cfg mono now [] s joins o h v = v
join_run-IsLimited cfg mono now (attempts a ∷ ops) s joins o h v =
    let r = execute_join_path cfg a s in
    join_run-IsLimited cfg mono a.done_at ops r.0 (joins_after a r.1 joins) o.3 h.1
      (attempt-Keeps cfg mono now a s joins h.0 o.0 o.1 o.2 v)
join_run-IsLimited cfg mono now (restricts until ∷ ops) s joins o h v =
    join_run-IsLimited cfg mono now ops (set_join_restriction until s) joins o h
      (same-IsLimited cfg now s _ joins (refl, refl, refl, refl) v)
join_run-IsLimited cfg mono now (clears ∷ ops) s joins o h v =
    join_run-IsLimited cfg mono now ops (clear_join_restriction s) joins o h
      (same-IsLimited cfg now s _ joins (refl, refl, refl, refl) v)

-- However an account that starts afresh tries to join groups by _execute_join_path, one attempt after
-- the other, and however its restriction is set and lifted: on no day does it join more new groups
-- than its daily limit, at no time after the last attempt do more than the permitted number of joins
-- lie in the window, and any two joins lie at least the minimal interval apart, counted from the
-- whole second in which the earlier one is recorded. A join has the time at which its call ends.
-- Conditions: days do not go back, attempts follow in time and not in the clock's first second, and
-- the post in a new group succeeds or none is made.
pub join_run-limits :
    (cfg : JoinConfig) (start : ℕ) (ops : List JoinOp)
    → IsMonotone cfg.today
    → InOrder start ops
    → AllRecorded ops
    → let joins = (join_run cfg ops (default_state cfg start, [])).1 in
      ((day : ℕ) → count_if (λ h. cfg.today h == day) joins ≤ cfg.daily_limit)
      × ((t : ℕ) → ended_at start ops ≤ t → count_if (within cfg.window t) joins ≤ cfg.recent_max)
      × IsSpaced cfg.min_interval joins
join_run-limits cfg start ops mono o h =
    let first : IsLimited cfg start (default_state cfg start) [] =
      unfold default_state in
      record {
        daily = omega arith;
        in_window = omega arith;
        seen = λ t le. refl;
        last = refl;
        after_zero = tt;
        spaced = tt;
        date = omega arith;
        days = tt;
        counted = refl;
        each_day = λ d. omega arith;
      } in
    let r = join_run cfg ops (default_state cfg start, []) in
    let v = join_run-IsLimited cfg mono start ops (default_state cfg start) [] o h first in
    (
      v.each_day,
      λ t le. omega (
        arith,
        v.seen t le,
        count_if-le (within cfg.window t) r.0.recent_new_join_ts,
        v.in_window,
      ),
      v.spaced,
    )
