-- ===== src/Joins/Attempts.antt =====
-- One attempt to join keeps the limits of the account (features/group_operation.py,
-- _execute_join_path).
use teleautomation_messaging.Prelude.{
  ℕ, ◌≤◌, ◌≡◌, refl, String, Bool, true, false, not, ◌||◌, List, ◌∷◌, if◌then◌else◌, arith,
}
use teleautomation_messaging.Joins.{
  JoinConfig, JoinState, one_second, evaluate_join, Decision, allowed, refused, record_join_attempt,
  record_join_success, record_join_failure,
}
use teleautomation_messaging.Joins.Path.{
  JoinResult, joined_new, already_in, not_joined, PostResult, ok, cant_write, not_posted, Attempt,
  OpResult, after_evaluate, after_join, after_post, after_old_post, pre_joined, join_limited,
  joined_sent, blocked, failed, is_posted, is_recorded, execute_join_path, is_new, is_new_join,
}
use teleautomation_messaging.Joins.Limits.{
  IsMonotone, IsLimited, reset-IsLimited, prune-IsLimited, later-IsLimited, SameJoins,
  same-IsLimited,
}
use teleautomation_messaging.Joins.Room.{HasRoom, decide-HasRoom, success-IsLimited}

-- The times of the joins after an attempt.
abbrev pub joins_after : Attempt → OpResult → List ℕ → List ℕ
joins_after a r joins = if is_new_join a r then a.done_at ∷ joins else joins

joins_same :
    (a : Attempt) (r : OpResult) (joins : List ℕ)
    → is_new a.join_result ≡ false
    → joins_after a r joins ≡ joins
joins_same a join_limited joins e = refl
joins_same a joined_sent joins e = ground arith
joins_same a blocked joins e = ground arith
joins_same a (failed result) joins e = ground arith
joins_same a (pre_joined new) joins e = ground arith

record_join_failure-SameJoins :
    (cfg : JoinConfig) (draw now : ℕ) (group : String) (s : JoinState)
    → SameJoins cfg s (record_join_failure draw now group s).0
unfolding record_join_failure
record_join_failure-SameJoins cfg draw now group s = (refl, refl, refl, refl)

module _ (cfg : JoinConfig) (mono : IsMonotone cfg.today) where
  evaluate-IsLimited :
      (now at total : ℕ) (group : String) (s : JoinState) (joins : List ℕ)
      → now ≤ at
      → IsLimited cfg now s joins
      → IsLimited cfg at (evaluate_join cfg total at group s).0 joins
  unfolding evaluate_join
  evaluate-IsLimited now at total group s joins le v =
      prune-IsLimited cfg at _ joins (reset-IsLimited cfg now at s joins mono le v)

  abbrev pub Keeps : Attempt → List ℕ → JoinState × OpResult → Type 0
  Keeps a joins (s, r) = IsLimited cfg a.done_at s (joins_after a r joins)

  after_new_join :
      (a : Attempt) (s : JoinState) (joins : List ℕ) (send : Bool) (post : PostResult)
      → IsLimited cfg a.done_at (record_join_success cfg a.done_at s) (a.done_at ∷ joins)
      → a.join_result ≡ joined_new
      → not send || is_posted post ≡ true
      → Keeps a joins (
          if send
          then after_post cfg a post s
          else (record_join_success cfg a.done_at s, pre_joined true))
  unfolding after_post
  after_new_join a s joins false post v e h = rw e v
  after_new_join a s joins true ok v e h = rw e v
  after_new_join a s joins true cant_write v e h = cc
  after_new_join a s joins true (not_posted result) v e h = cc

  no_join-Keeps :
      (a : Attempt) (r : OpResult) (s : JoinState) (joins : List ℕ)
      → is_new a.join_result ≡ false
      → IsLimited cfg a.done_at s joins
      → Keeps a joins (s, r)
  no_join-Keeps a r s joins e v = rw (joins_same a r joins e) v

  either-Keeps :
      (a : Attempt) (joins : List ℕ) (b : Bool) (x y : JoinState × OpResult)
      → Keeps a joins x
      → Keeps a joins y
      → Keeps a joins (if b then x else y)
  either-Keeps a joins true x y h k = h
  either-Keeps a joins false x y h k = k

  after_join-Keeps :
      (a : Attempt) (j : JoinResult) (s : JoinState) (joins : List ℕ)
      → a.join_result ≡ j
      → is_recorded a ≡ true
      → a.at ≤ a.done_at
      → one_second ≤ a.at
      → HasRoom cfg a.at s
      → IsLimited cfg a.at s joins
      → Keeps a joins (after_join cfg a j s)
  unfolding after_join
  after_join-Keeps a joined_new s joins e h le pos room v =
      after_new_join a s joins a.send_after a.post_answer
        (success-IsLimited cfg a.at a.done_at s joins mono le pos room v) e (ground arith)
  after_join-Keeps a already_in s joins e h le pos room v =
      let w = later-IsLimited cfg a.at a.done_at s joins mono le v in
      let old : is_new a.join_result ≡ false = rw e refl in
      either-Keeps a joins a.send_after (s, after_old_post a.post_answer) (s, pre_joined false)
        (no_join-Keeps a (after_old_post a.post_answer) s joins old w)
        (no_join-Keeps a (pre_joined false) s joins old w)
  after_join-Keeps a (not_joined result) s joins e h le pos room v =
      let w = later-IsLimited cfg a.at a.done_at s joins mono le v in
      let old : is_new a.join_result ≡ false = rw e refl in
      let s' = (record_join_failure a.draw a.done_at a.target s).0 in
      no_join-Keeps a (failed result) s' joins old (
        same-IsLimited cfg a.done_at s s' joins
          (record_join_failure-SameJoins cfg a.draw a.done_at a.target s) w)

  after_evaluate-Keeps :
      (a : Attempt) (s : JoinState) (d : Decision) (joins : List ℕ)
      → is_recorded a ≡ true
      → a.at ≤ a.done_at
      → one_second ≤ a.at
      → (d ≡ allowed → HasRoom cfg a.at s)
      → IsLimited cfg a.at s joins
      → Keeps a joins (after_evaluate cfg a (s, d))
  unfolding after_evaluate
  after_evaluate-Keeps a s allowed joins h le pos room v =
      let r = room refl in
      let s' = record_join_attempt a.at s in
      after_join-Keeps a a.join_result s' joins refl h le pos
        (unfold record_join_attempt in
          (record { daily = r.daily; in_window = r.in_window; apart = r.apart }))
        (unfold record_join_attempt in
          same-IsLimited cfg a.at s s' joins (refl, refl, refl, refl) v)
  after_evaluate-Keeps a s (refused wait reason) joins h le pos room v =
      later-IsLimited cfg a.at a.done_at s joins mono le v

  pub attempt-Keeps :
      (now : ℕ) (a : Attempt) (s : JoinState) (joins : List ℕ)
      → is_recorded a ≡ true
      → now ≤ a.at
      → a.at ≤ a.done_at
      → one_second ≤ a.at
      → IsLimited cfg now s joins
      → Keeps a joins (execute_join_path cfg a s)
  unfolding execute_join_path
  attempt-Keeps now a s joins h before le pos v =
      let w = evaluate-IsLimited now a.at a.total a.target s joins before v in
      let s' = (evaluate_join cfg a.total a.at a.target s).0 in
      after_evaluate-Keeps a s' (evaluate_join cfg a.total a.at a.target s).1 joins h le pos
        (unfold evaluate_join in decide-HasRoom cfg a.total a.at a.target s') w
