-- ===== src/Joins/Waiting.antt =====
-- The wait that a refused join is told (core/join_cycle.py, evaluate_join).
use teleautomation_messaging.Prelude.{
  ℕ, subst, if◌then◌else◌, ◌*◌, ◌/◌, ◌+◌, ◌-◌, ◌≤◌, ◌<◌, ◌≡◌, ◌⊎◌, inl, inr, Bool, true, false,
  String, List, [], ◌∷◌, arith, length, keep, min, max, Bool-cases, length-keep, count_if-le,
  str_eq,
}
use teleautomation_messaging.Joins.{
  JoinConfig, JoinState, one_second, Decision, allowed, refused, decide, evaluate_join,
  prune_recent, reset_daily_if_needed, is_restricted, is_too_soon, min_interval_for, oldest,
  oldest_of, time_or_zero, within,
}

-- Once the oldest entry has left the window, an entry less is kept.
fewer-within :
    (w now t : ℕ) (xs : List ℕ)
    → oldest t xs + w ≤ now
    → length (keep (within w now) (t ∷ xs)) ≤ length xs
unfolding oldest
fewer-within w now t [] h = ground arith
fewer-within w now t (x ∷ xs) h = ground (arith, fewer-within w now (min t x) xs h)

fewer-oldest_of :
    (w now t : ℕ) (xs : List ℕ)
    → 0 < length xs
    → oldest_of now xs + w ≤ t
    → length (keep (within w t) xs) < length xs
unfolding oldest_of
fewer-oldest_of w now t [] pos h = omega arith
fewer-oldest_of w now t (x ∷ xs) pos h = omega (arith, fewer-within w t x xs h)

-- Whether a join is refused for the reason.
abbrev pub is_for : String → Decision → Bool
is_for reason allowed = false
is_for reason (refused w r) = str_eq r reason

abbrev pub wait_of : Decision → ℕ
wait_of allowed = 0
wait_of (refused w r) = w

module _ (cfg : JoinConfig) (total now : ℕ) (group : String) (s : JoinState) where
  decide-restricted :
      is_for "account_restricted" (decide cfg total now group s) ≡ true
      → (is_restricted now s.restriction_until ≡ true)
        × (wait_of (decide cfg total now group s)
            ≡ (time_or_zero s.restriction_until - now) / one_second)
  unfolding decide
  decide-restricted e = ground arith

  decide-burst :
      is_for "recent_burst" (decide cfg total now group s) ≡ true
      → (cfg.recent_max ≤ length s.recent_new_join_ts)
        × (wait_of (decide cfg total now group s)
            ≡ max 1 ((cfg.window + oldest_of now s.recent_new_join_ts - now) / one_second + 1))
  unfolding decide
  decide-burst e = ground arith

  decide-interval :
      is_for "min_interval" (decide cfg total now group s) ≡ true
      → let gap = min_interval_for cfg total in
        (is_too_soon now gap s.last_new_join_at ≡ true)
        × (wait_of (decide cfg total now group s)
            ≡ (gap + time_or_zero s.last_new_join_at - now) / one_second + 1)
  unfolding decide
  decide-interval e = ground arith

reset-fields :
    (cfg : JoinConfig) (now : ℕ) (s : JoinState)
    → let s' = prune_recent cfg now (reset_daily_if_needed cfg now s) in
      (s'.restriction_until ≡ s.restriction_until)
      × (s'.last_new_join_at ≡ s.last_new_join_at)
      × (s'.recent_new_join_ts ≡ keep (within cfg.window now) s.recent_new_join_ts)
unfolding prune_recent reset_daily_if_needed
reset-fields cfg now s = (ground arith, ground arith, ground arith)

module _ (cfg : JoinConfig) (total now t : ℕ) (group other : String) (s : JoinState) where
  abbrev later : JoinState
  later = prune_recent cfg t (reset_daily_if_needed cfg t s)

  waits-restricted :
      is_for "account_restricted" (decide cfg total now group s) ≡ true
      → now + one_second * (wait_of (decide cfg total now group s) + 1) ≤ t
      → is_for "account_restricted" (decide cfg total t other later) ≡ false
  waits-restricted e le =
      elim (Bool-cases (is_for "account_restricted" (decide cfg total t other later))) [
        | inl f ↦
            let (was, wait) = decide-restricted cfg total now group s e in
            let (still, _) = decide-restricted cfg total t other later f in
            let (same, _, _) = reset-fields cfg t s in
            let still' : is_restricted t s.restriction_until ≡ true = rw⁻¹ same still in
            ground arith
        | inr f ↦ f
      ]

  waits-interval :
      is_for "min_interval" (decide cfg total now group s) ≡ true
      → now + one_second * wait_of (decide cfg total now group s) ≤ t
      → is_for "min_interval" (decide cfg total t other later) ≡ false
  waits-interval e le = elim (Bool-cases (is_for "min_interval" (decide cfg total t other later))) [
    | inl f ↦
        let (was, wait) = decide-interval cfg total now group s e in
        let (still, _) = decide-interval cfg total t other later f in
        let (_, same, _) = reset-fields cfg t s in
        let still' : is_too_soon t (min_interval_for cfg total) s.last_new_join_at ≡ true =
          rw⁻¹ same still in
        ground arith
    | inr f ↦ f
  ]

  waits-burst :
      0 < cfg.recent_max
      → length s.recent_new_join_ts ≤ cfg.recent_max
      → is_for "recent_burst" (decide cfg total now group s) ≡ true
      → now + one_second * wait_of (decide cfg total now group s) ≤ t
      → is_for "recent_burst" (decide cfg total t other later) ≡ false
  waits-burst pos most e le =
      elim (Bool-cases (is_for "recent_burst" (decide cfg total t other later))) [
        | inl f ↦
            let (full, wait) = decide-burst cfg total now group s e in
            let (still, _) = decide-burst cfg total t other later f in
            let (_, _, same) = reset-fields cfg t s in
            let still' : cfg.recent_max ≤ length (keep (within cfg.window t) s.recent_new_join_ts) =
              rw⁻¹ same still in
            let fewer =
              fewer-oldest_of cfg.window now t s.recent_new_join_ts (omega arith) (omega arith) in
            ground (arith, fewer, still')
        | inr f ↦ f
      ]

-- The reasons whose wait is computed; a day's limit is told an hour, a failing group a day.
abbrev pub IsTimed : String → Type 0
IsTimed reason =
    (reason ≡ "account_restricted") ⊎ (reason ≡ "recent_burst") ⊎ (reason ≡ "min_interval")

-- How many seconds are enough, of the wait that is told.
abbrev pub enough : String → ℕ → ℕ
enough reason wait = if str_eq reason "account_restricted" then wait + 1 else wait

timed-waits :
    (cfg : JoinConfig) (total now t : ℕ) (group other reason : String) (s : JoinState)
    → IsTimed reason
    → 0 < cfg.recent_max
    → length s.recent_new_join_ts ≤ cfg.recent_max
    → is_for reason (decide cfg total now group s) ≡ true
    → now + one_second * enough reason (wait_of (decide cfg total now group s)) ≤ t
    → is_for reason (decide cfg total t other (later cfg total now t group other s)) ≡ false
timed-waits cfg total now t group other reason s (inl r) pos most e le =
    let Enough : String → Type 0 =
      λ k. now + one_second * enough k (wait_of (decide cfg total now group s)) ≤ t in
    rw r (waits-restricted cfg total now t group other s (rw⁻¹ r e) (subst Enough r le))
timed-waits cfg total now t group other reason s (inr (inl r)) pos most e le =
    let Enough : String → Type 0 =
      λ k. now + one_second * enough k (wait_of (decide cfg total now group s)) ≤ t in
    rw r (waits-burst cfg total now t group other s pos most (rw⁻¹ r e) (subst Enough r le))
timed-waits cfg total now t group other reason s (inr (inr r)) pos most e le =
    let Enough : String → Type 0 =
      λ k. now + one_second * enough k (wait_of (decide cfg total now group s)) ≤ t in
    rw r (waits-interval cfg total now t group other s (rw⁻¹ r e) (subst Enough r le))

evaluate-most :
    (cfg : JoinConfig) (now : ℕ) (s : JoinState)
    → length s.recent_new_join_ts ≤ cfg.recent_max
    → length (prune_recent cfg now (reset_daily_if_needed cfg now s)).recent_new_join_ts
      ≤ cfg.recent_max
evaluate-most cfg now s most =
    let (_, _, same) = reset-fields cfg now s in
    rw same (
      omega (
        arith,
        most,
        length-keep (within cfg.window now) s.recent_new_join_ts,
        count_if-le (within cfg.window now) s.recent_new_join_ts,
      ))

-- A join refused for a burst of joins or for the minimal interval is told a wait that suffices: after
-- so many seconds, or later, no group is refused for that reason on the state that the first call
-- saved. Of a restriction the wait is cut off to whole seconds, and one second more suffices.
-- Conditions: the window may hold a join, the state has no more recent joins than permitted, and the
-- account is in as many groups.
pub evaluate_join-waits :
    (cfg : JoinConfig) (total now t : ℕ) (group other reason : String) (s : JoinState)
    → IsTimed reason
    → 0 < cfg.recent_max
    → length s.recent_new_join_ts ≤ cfg.recent_max
    → let (s', d) = evaluate_join cfg total now group s in
      is_for reason d ≡ true
      → now + one_second * enough reason (wait_of d) ≤ t
      → is_for reason (evaluate_join cfg total t other s').1 ≡ false
unfolding evaluate_join
evaluate_join-waits cfg total now t group other reason s timed pos most e le =
    timed-waits cfg total now t group other reason
      (prune_recent cfg now (reset_daily_if_needed cfg now s)) timed pos
      (evaluate-most cfg now s most) e le
