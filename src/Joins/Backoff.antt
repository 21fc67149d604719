-- ===== src/Joins/Backoff.antt =====
-- A group that could not be joined (core/join_cycle.py, record_join_failure).
use teleautomation_messaging.Prelude.{
  ℕ, ◌≤◌, ◌≡◌, ◌≢◌, refl, String, List, [], ◌∷◌, arith, Dict, ◌+◌, insert, lookup-insert, eq_iff,
}
use teleautomation_messaging.Joins.{
  JoinConfig, JoinState, Decision, allowed, refused, decide, evaluate_join, prune_recent,
  failures_of, reset_daily_if_needed, record_join_attempt, record_join_success, record_join_failure,
  set_join_restriction, clear_join_restriction,
}
use teleautomation_messaging.Joins.Path.{
  JoinResult, joined_new, already_in, not_joined, PostResult, ok, cant_write, not_posted, Attempt,
  after_evaluate, after_join, after_post, execute_join_path, JoinOp, attempts, restricts, clears,
  join_step, join_run,
}

failures_of-insert :
    (key other : String) (d : Dict ℕ)
    → failures_of other d ≤ failures_of other (insert key (failures_of key d + 1) d)
unfolding failures_of
failures_of-insert key other d =
    rw (lookup-insert key other (failures_of key d + 1) d) (ground (arith, eq_iff key other))

reset-failures :
    (cfg : JoinConfig) (now : ℕ) (s : JoinState)
    → (reset_daily_if_needed cfg now s).group_failures ≡ s.group_failures
unfolding reset_daily_if_needed
reset-failures cfg now s = ground arith

module _ (cfg : JoinConfig) (group : String) where
  abbrev fails : JoinState → ℕ
  fails s = failures_of group s.group_failures

  evaluate-fails :
      (total now : ℕ) (other : String) (s : JoinState)
      → fails (evaluate_join cfg total now other s).0 ≡ fails s
  unfolding evaluate_join prune_recent
  evaluate-fails total now other s = rw (reset-failures cfg now s) refl

  success-fails : (now : ℕ) (s : JoinState) → fails (record_join_success cfg now s) ≡ fails s
  unfolding record_join_success prune_recent
  success-fails now s = rw (reset-failures cfg now s) refl

  failure-fails :
      (draw now : ℕ) (other : String) (s : JoinState)
      → fails s ≤ fails (record_join_failure draw now other s).0
  unfolding record_join_failure
  failure-fails draw now other s = failures_of-insert other group s.group_failures

  after_post-fails :
      (a : Attempt) (post : PostResult) (s : JoinState)
      → fails (after_post cfg a post s).0 ≡ fails s
  unfolding after_post
  after_post-fails a ok s = success-fails a.done_at s
  after_post-fails a cant_write s = refl
  after_post-fails a (not_posted result) s = refl

  after_join-fails :
      (a : Attempt) (j : JoinResult) (s : JoinState) → fails s ≤ fails (after_join cfg a j s).0
  unfolding after_join
  after_join-fails a joined_new s =
      ground (arith, after_post-fails a a.post_answer s, success-fails a.done_at s)
  after_join-fails a already_in s = ground arith
  after_join-fails a (not_joined result) s = failure-fails a.draw a.done_at a.target s

  after_evaluate-fails :
      (a : Attempt) (s : JoinState) (d : Decision) → fails s ≤ fails (after_evaluate cfg a (s, d)).0
  unfolding after_evaluate
  after_evaluate-fails a s allowed =
      unfold record_join_attempt in after_join-fails a a.join_result (record_join_attempt a.at s)
  after_evaluate-fails a s (refused wait reason) = omega arith

  join_step-fails :
      (op : JoinOp) (s : JoinState) (joins : List ℕ)
      → fails s ≤ fails (join_step cfg op (s, joins)).0
  unfolding join_step execute_join_path set_join_restriction clear_join_restriction
  join_step-fails (attempts a) s joins = omega (
    arith,
    evaluate-fails a.total a.at a.target s,
    after_evaluate-fails a (evaluate_join cfg a.total a.at a.target s).0
        (evaluate_join cfg a.total a.at a.target s).1,
  )
  join_step-fails (restricts until) s joins = omega arith
  join_step-fails clears s joins = omega arith

  join_run-fails :
      (ops : List JoinOp) (s : JoinState) (joins : List ℕ)
      → fails s ≤ fails (join_run cfg ops (s, joins)).0
  unfolding join_run
  join_run-fails [] s joins = omega arith
  join_run-fails (op ∷ ops) s joins =
      let r = join_step cfg op (s, joins) in
      omega (arith, join_step-fails op s joins, join_run-fails ops r.0 r.1)

  decide-fails :
      (total now : ℕ) (s : JoinState)
      → cfg.failure_cap ≤ fails s
      → decide cfg total now group s ≢ allowed
  unfolding decide
  decide-fails total now s le e = ground arith

-- A group that has failed as often as the cap says is never tried again: after any operations on the
-- account, whatever their times, and at every later time, evaluate_join refuses it.
pub join_run-gives_up :
    (cfg : JoinConfig) (ops : List JoinOp) (s : JoinState) (joins : List ℕ) (total now : ℕ)
    (group : String)
    → cfg.failure_cap ≤ failures_of group s.group_failures
    → (evaluate_join cfg total now group (join_run cfg ops (s, joins)).0).1 ≢ allowed
join_run-gives_up cfg ops s joins total now group le =
    let s' = (join_run cfg ops (s, joins)).0 in
    unfold evaluate_join in
    decide-fails cfg group total now (evaluate_join cfg total now group s').0 (
      omega
        (arith, evaluate-fails cfg group total now group s', join_run-fails cfg group ops s joins))
