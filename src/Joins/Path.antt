-- ===== src/Joins/Path.antt =====
-- Joining a group and posting in it (features/group_operation.py, _execute_join_path). What Telegram
-- answers to the join and to the post is given with each attempt; delays and log events are not
-- modelled.
use teleautomation_messaging.Prelude.{
  ℕ, String, Bool, true, false, not, ◌||◌, List, [], ◌∷◌, if◌then◌else◌,
}
use teleautomation_messaging.Joins.{
  JoinConfig, JoinState, Decision, allowed, refused, evaluate_join, record_join_attempt,
  record_join_success, record_join_failure, set_join_restriction, clear_join_restriction,
}

pub data JoinResult : Type 0 where
  joined_new already_in : JoinResult
  not_joined : (result : String) → JoinResult

pub data PostResult : Type 0 where
  ok cant_write : PostResult
  not_posted : (result : String) → PostResult

-- One call: when it evaluates, when Telegram has answered, and what it answers.
pub record Attempt : Type 0 where
  pub target : String
  pub total : ℕ
  pub at : ℕ
  pub done_at : ℕ
  pub join_result : JoinResult
  pub send_after : Bool
  pub post_answer : PostResult
  pub draw : ℕ

-- What the call returns.
pub data OpResult : Type 0 where
  join_limited joined_sent blocked : OpResult
  failed : (result : String) → OpResult
  pre_joined : (new_join : Bool) → OpResult

unfoldable pub after_post : JoinConfig → Attempt → PostResult → JoinState → JoinState × OpResult
after_post cfg a ok s = (record_join_success cfg a.done_at s, joined_sent)
after_post cfg a cant_write s = (s, blocked)
after_post cfg a (not_posted result) s = (s, failed result)

unfoldable pub after_old_post : PostResult → OpResult
after_old_post ok = joined_sent
after_old_post cant_write = blocked
after_old_post (not_posted result) = failed result

unfoldable pub after_join : JoinConfig → Attempt → JoinResult → JoinState → JoinState × OpResult
unfolding after_post after_old_post
after_join cfg a joined_new s =
    if a.send_after
    then after_post cfg a a.post_answer s
    else (record_join_success cfg a.done_at s, pre_joined true)
after_join cfg a already_in s =
    if a.send_after then (s, after_old_post a.post_answer) else (s, pre_joined false)
after_join cfg a (not_joined result) s =
    ((record_join_failure a.draw a.done_at a.target s).0, failed result)

unfoldable pub after_evaluate : JoinConfig → Attempt → JoinState × Decision → JoinState × OpResult
unfolding after_join
after_evaluate cfg a (s, allowed) = after_join cfg a a.join_result (record_join_attempt a.at s)
after_evaluate cfg a (s, refused wait reason) = (s, join_limited)

-- `_execute_join_path`
unfoldable pub execute_join_path : JoinConfig → Attempt → JoinState → JoinState × OpResult
unfolding after_evaluate
execute_join_path cfg a s = after_evaluate cfg a (evaluate_join cfg a.total a.at a.target s)

abbrev pub is_new : JoinResult → Bool
is_new joined_new = true
is_new already_in = false
is_new (not_joined result) = false

-- Whether Telegram let the account into a new group.
abbrev pub is_new_join : Attempt → OpResult → Bool
is_new_join a join_limited = false
is_new_join a _ = is_new a.join_result

abbrev pub is_posted : PostResult → Bool
is_posted ok = true
is_posted cant_write = false
is_posted (not_posted result) = false

-- A new group is either not posted in, or the post succeeds.
abbrev pub is_recorded : Attempt → Bool
is_recorded a = not (is_new a.join_result) || not a.send_after || is_posted a.post_answer

pub data JoinOp : Type 0 where
  attempts : Attempt → JoinOp
  restricts : (until : ℕ) → JoinOp
  clears : JoinOp

unfoldable pub join_step : JoinConfig → JoinOp → JoinState × List ℕ → JoinState × List ℕ
join_step cfg (attempts a) (s, joins) =
    let (s', r) = execute_join_path cfg a s in
    (s', if is_new_join a r then a.done_at ∷ joins else joins)
join_step cfg (restricts until) (s, joins) = (set_join_restriction until s, joins)
join_step cfg clears (s, joins) = (clear_join_restriction s, joins)

-- The state after the operations, and the times at which the calls that joined a new group ended, the
-- last one first.
unfoldable pub join_run : JoinConfig → List JoinOp → JoinState × List ℕ → JoinState × List ℕ
join_run cfg [] r = r
join_run cfg (op ∷ ops) r = join_run cfg ops (join_step cfg op r)
