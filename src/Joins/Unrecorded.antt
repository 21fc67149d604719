-- ===== src/Joins/Unrecorded.antt =====
-- A new group in which the account cannot post (features/group_operation.py, _execute_join_path).
use teleautomation_messaging.Prelude.{
  ℕ, ◌≤◌, ◌≡◌, refl, true, false, String, List, [], ◌∷◌, keep, arith,
}
use teleautomation_messaging.Joins.{
  JoinConfig, JoinState, allowed, within, decide, evaluate_join, prune_recent,
  reset_daily_if_needed, record_join_attempt,
}
use teleautomation_messaging.Joins.Path.{
  JoinResult, joined_new, already_in, not_joined, PostResult, ok, cant_write, not_posted, Attempt,
  is_posted, is_new_join, after_evaluate, after_join, after_post, execute_join_path,
}

-- What a window keeps is what it keeps of an earlier window.
pub keep-keep-within :
    (w at now : ℕ) (xs : List ℕ)
    → at ≤ now
    → keep (within w now) (keep (within w at) xs) ≡ keep (within w now) xs
keep-keep-within w at now [] h = refl
keep-keep-within w at now (x ∷ xs) h = ground (arith, keep-keep-within w at now xs h)

-- The state that evaluate_join leaves, with the attempt noted.
unfoldable attempted : JoinConfig → ℕ → JoinState → JoinState
attempted cfg at s = record_join_attempt at (prune_recent cfg at (reset_daily_if_needed cfg at s))

reset-attempted :
    (cfg : JoinConfig) (at now : ℕ) (s : JoinState)
    → cfg.today now ≡ cfg.today at
    → reset_daily_if_needed cfg now (attempted cfg at s) ≡ attempted cfg at s
unfolding attempted reset_daily_if_needed record_join_attempt prune_recent
reset-attempted cfg at now s e = ground arith

decide-same :
    (cfg : JoinConfig) (total now : ℕ) (group : String) (s s' : JoinState)
    → s'.restriction_until ≡ s.restriction_until
    → s'.group_failures ≡ s.group_failures
    → s'.daily_new_joins ≡ s.daily_new_joins
    → s'.recent_new_join_ts ≡ s.recent_new_join_ts
    → s'.last_new_join_at ≡ s.last_new_join_at
    → decide cfg total now group s' ≡ decide cfg total now group s
unfolding decide
decide-same cfg total now group s s' r f d n l = rw (r, f, d, n, l) refl

reset-same_day :
    (cfg : JoinConfig) (at now : ℕ) (s : JoinState)
    → cfg.today now ≡ cfg.today at
    → reset_daily_if_needed cfg now s ≡ reset_daily_if_needed cfg at s
unfolding reset_daily_if_needed
reset-same_day cfg at now s e = rw e refl

reset-recent :
    (cfg : JoinConfig) (at : ℕ) (s : JoinState)
    → (reset_daily_if_needed cfg at s).recent_new_join_ts ≡ s.recent_new_join_ts
unfolding reset_daily_if_needed
reset-recent cfg at s = ground arith

evaluate-attempted :
    (cfg : JoinConfig) (total at now : ℕ) (group : String) (s : JoinState)
    → cfg.today now ≡ cfg.today at
    → at ≤ now
    → (evaluate_join cfg total now group (attempted cfg at s)).1
      ≡ (evaluate_join cfg total now group s).1
unfolding evaluate_join attempted record_join_attempt prune_recent
evaluate-attempted cfg total at now group s e le =
    rw (reset-attempted cfg at now s e, reset-same_day cfg at now s e)
      (decide-same cfg total now group (prune_recent cfg now (reset_daily_if_needed cfg at s))
        (prune_recent cfg now (attempted cfg at s)) refl refl refl
        (keep-keep-within cfg.window at now (reset_daily_if_needed cfg at s).recent_new_join_ts le)
        refl)

unposted :
    (cfg : JoinConfig) (a : Attempt) (post : PostResult) (s : JoinState)
    → a.join_result ≡ joined_new
    → is_posted post ≡ false
    → ((after_post cfg a post s).0 ≡ s) × (is_new_join a (after_post cfg a post s).1 ≡ true)
unfolding after_post
unposted cfg a ok s j h = cc
unposted cfg a cant_write s j h = (refl, rw j refl)
unposted cfg a (not_posted result) s j h = (refl, rw j refl)

unposted_join :
    (cfg : JoinConfig) (a : Attempt) (result : JoinResult) (s : JoinState)
    → a.join_result ≡ joined_new
    → result ≡ joined_new
    → a.send_after ≡ true
    → is_posted a.post_answer ≡ false
    → let r = after_join cfg a result s in (r.0 ≡ s) × (is_new_join a r.1 ≡ true)
unfolding after_join
unposted_join cfg a joined_new s j k send h = rw send (unposted cfg a a.post_answer s j h)
unposted_join cfg a already_in s j k send h = cc
unposted_join cfg a (not_joined result) s j k send h = cc

unposted_path :
    (cfg : JoinConfig) (a : Attempt) (s : JoinState)
    → (evaluate_join cfg a.total a.at a.target s).1 ≡ allowed
    → a.join_result ≡ joined_new
    → a.send_after ≡ true
    → is_posted a.post_answer ≡ false
    → let r = execute_join_path cfg a s in (r.0 ≡ attempted cfg a.at s) × (is_new_join a r.1 ≡ true)
unfolding execute_join_path after_evaluate attempted evaluate_join
unposted_path cfg a s e j send h =
    let w = unposted_join cfg a a.join_result (attempted cfg a.at s) j j send h in rw e w

-- When the account has joined a new group but may not post there, or the post fails, the join counts
-- nowhere: at any later time of the same day, evaluate_join answers for every group as if the
-- account had not joined.
pub execute_join_path-unrecorded :
    (cfg : JoinConfig) (a : Attempt) (s : JoinState)
    → (evaluate_join cfg a.total a.at a.target s).1 ≡ allowed
    → a.join_result ≡ joined_new
    → a.send_after ≡ true
    → is_posted a.post_answer ≡ false
    → let r = execute_join_path cfg a s in
      (is_new_join a r.1 ≡ true)
      × ((total now : ℕ) (group : String)
          → cfg.today now ≡ cfg.today a.at
          → a.at ≤ now
          → (evaluate_join cfg total now group r.0).1 ≡ (evaluate_join cfg total now group s).1)
execute_join_path-unrecorded cfg a s e j send post =
    let (same, new) = unposted_path cfg a s e j send post in
    (new, λ total now group day le. rw same (evaluate-attempted cfg total a.at now group s day le))
