-- ===== src/Messaging/Retry/Schedule.antt =====
-- When a failed task gets a retry (messaging/retry_manager.py, schedule_retry).
use teleautomation_messaging.Prelude.{
  ◌≡◌, ◌∙◌, ap, refl, String, Bool, true, false, not, List, [], ◌∷◌, ◌++◌, lookup, lookup-insert,
  exists_in, ltb, leb, str_eq, if◌then◌else◌, Bool-cases, inl, inr, arith, eq_iff,
}
use teleautomation_messaging.Events.Types.{retry_exhausted, no_data}
use teleautomation_messaging.Messaging.Task.{QueueTask}
use teleautomation_messaging.Messaging.World.{World, SleepingRetry, publish_event-SameQueues, alert}
use teleautomation_messaging.Messaging.Retry.{
  RetryConfig, Draw, RetryClassification, compute_delay, pruned, storm_ok, storm_backoff,
  is_tracked, track_or_skip, accept, exhausted, schedule_retry, or_empty, count_flood, record_time,
  track,
}

-- What a call of `schedule_retry` did with a task that was or was not to be retried.
pub record Decides (w : World) (id : String) (original : QueueTask) (accepted : Bool)
    (r : World × Bool) : Type 0 where
  pub answer : r.1 ≡ accepted
  pub refused : accepted ≡ false → r.0.sleeping ≡ w.sleeping
  pub sleeps :
      accepted ≡ true
      → (job : SleepingRetry) × (r.0.sleeping ≡ w.sleeping ++ job ∷ [])
        × (job.account_id ≡ id)
        × (job.original ≡ original)
  pub tracked : accepted ≡ true → is_tracked r.0 id original.task_id ≡ true

exists_in-append_last : (t : String) (xs : List String) → exists_in (str_eq t) (xs ++ t ∷ []) ≡ true
exists_in-append_last t [] = ground (arith, eq_iff t t)
exists_in-append_last t (x ∷ xs) = ground (arith, exists_in-append_last t xs)

accept-Decides :
    (cfg : RetryConfig) (draw : Draw) (id : String) (original : QueueTask)
    (clf : RetryClassification) (w : World)
    → Decides w id original true (accept cfg draw id original clf w, true)
unfolding accept record_time track count_flood alert is_tracked
accept-Decides cfg draw id original clf w = record {
  answer = refl;
  refused = λ e. cc;
  sleeps = λ _. (
    record {
      account_id = id;
      original = original;
      delay = compute_delay cfg draw clf.flood_seconds clf.network original.retry_count;
    },
    ground arith,
    refl,
    refl,
  );
  tracked = λ _. ground (
    arith,
    lookup-insert id id (or_empty (lookup id w.scheduled) ++ original.task_id ∷ []) w.scheduled,
    eq_iff id id,
    exists_in-append_last original.task_id (or_empty (lookup id w.scheduled)),
  );
}

-- The decision: the task may be retried, has attempts left, and no retry of it sleeps already.
abbrev pub accepts : RetryConfig → World → String → QueueTask → RetryClassification → Bool
accepts cfg w id original clf =
    if clf.retryable
    then (if ltb original.retry_count cfg.max_attempts
        then not (is_tracked w id original.task_id)
        else false)
    else false

track_or_skip-Decides :
    (cfg : RetryConfig) (draw : Draw) (id : String) (original : QueueTask)
    (clf : RetryClassification) (w : World)
    → Decides w id original
        (not (is_tracked w id original.task_id))
        (track_or_skip cfg draw id original clf w)
unfolding track_or_skip
track_or_skip-Decides cfg draw id original clf w =
    elim (Bool-cases (is_tracked w id original.task_id)) [
      | inl seen ↦
          rw (seen, track_or_skip)
            (record { answer = refl; refused = λ _. refl; sleeps = λ e. cc; tracked = λ e. cc })
      | inr new ↦ rw (new, track_or_skip) (accept-Decides cfg draw id original clf w)
    ]

Decides-frame :
    (w w' : World) (id : String) (original : QueueTask) (b : Bool) (r : World × Bool)
    → w'.sleeping ≡ w.sleeping
    → Decides w' id original b r
    → Decides w id original b r
Decides-frame w w' id original b r e d = record {
  answer = d.answer;
  refused = λ h. d.refused h ∙ e;
  sleeps =
      λ h. let (job, grown, a, o) = d.sleeps h in (job, grown ∙ ap (λ s. s ++ job ∷ []) e, a, o);
  tracked = d.tracked;
}

refuses-Decides :
    (w w' : World) (id : String) (original : QueueTask)
    → w'.sleeping ≡ w.sleeping
    → Decides w id original false (w', false)
refuses-Decides w w' id original e = record {
  answer = refl;
  refused = λ _. e;
  sleeps = λ h. cc;
  tracked = λ h. cc;
}

-- `schedule_retry` accepts a task exactly when it may be retried, has attempts left, and no retry of
-- it sleeps already. Then one coroutine more sleeps, for this task and this account, and the task is
-- tracked; otherwise the coroutines that sleep are the same as before. Whether
-- the storm window of the account is full does not matter for that.
pub schedule_retry-Decides :
    (cfg : RetryConfig) (draw : Draw) (w : World) (id : String) (original : QueueTask)
    (clf : RetryClassification)
    → Decides w id original
        (accepts cfg w id original clf)
        (schedule_retry cfg draw w id original clf)
unfolding schedule_retry alert exhausted pruned is_tracked
schedule_retry-Decides cfg draw w id original clf = elim (Bool-cases clf.retryable) [
  | inr fatal ↦ rw (fatal, schedule_retry) (refuses-Decides w _ id original refl)
  | inl may ↦ elim (Bool-cases (leb cfg.max_attempts original.retry_count)) [
    | inl spent ↦
        let no_more : ltb original.retry_count cfg.max_attempts ≡ false = ground arith in
        rw (may, schedule_retry)
          (rw (spent, no_more)
            (refuses-Decides w _ id original
              (publish_event-SameQueues retry_exhausted id no_data _).sleeping))
    | inr left ↦
        let more : ltb original.retry_count cfg.max_attempts ≡ true = ground arith in
        rw (may, schedule_retry)
          (rw (left, more)
            elim (Bool-cases (storm_ok cfg (pruned cfg w) id)) [
              | inl calm ↦ rw calm (
                  Decides-frame w _ id original _ _ refl
                    (track_or_skip-Decides cfg draw id original clf _))
              | inr storm ↦ rw storm (
                  Decides-frame w _ id original _ _ refl
                    (track_or_skip-Decides cfg draw id original (storm_backoff cfg original) _))
            ])
  ]
]
