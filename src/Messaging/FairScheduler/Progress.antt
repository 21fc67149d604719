-- ===== src/Messaging/FairScheduler/Progress.antt =====
-- A cycle makes progress between its pauses (messaging/fair_scheduler.py).
use teleautomation_messaging.Prelude.{
  ℕ, zero, suc, ◌+◌, ◌≤◌, ◌<◌, ◌≡◌, refl, sym, ◌∙◌, Bool, true, false, Bool-cases, inl, inr, Option,
  none, some, List, [], ◌∷◌, All, lookup, max, arith,
}
use teleautomation_messaging.Messaging.Task.{QueueTask}
use teleautomation_messaging.Messaging.Queue.{Queue, pop_highest_priority}
use teleautomation_messaging.Messaging.World.{World}
use teleautomation_messaging.Messaging.Retry.{RetryConfig}
use teleautomation_messaging.Messaging.Worker.{Services}
use teleautomation_messaging.Messaging.FairScheduler.{
  CycleFairScheduler, should_yield_to_dms, on_group_completed, Round, Yielding, service,
  popped_round, queue_round, yield_round, yield_loop, yield_for_priority_work,
}

-- What a round leaves of the state before it.
pub record RoundBounds (r : Round) (y : Yielding) (res : Yielding × Bool) : Type 0 where
  pub serviced : res.0.serviced ≤ y.serviced + 1
  pub grows : y.serviced ≤ res.0.serviced
  pub went : res.1 ≡ true → res.0.serviced ≡ y.serviced + 1
  pub total : res.0.scheduler.total_yield_ms ≤ y.scheduler.total_yield_ms + r.elapsed
  pub idle : res.0.serviced ≡ y.serviced → res.0.scheduler ≡ y.scheduler
  pub groups : res.0.scheduler.groups_since_yield ≡ y.scheduler.groups_since_yield
  pub budget : res.0.scheduler.max_yield_ms ≡ y.scheduler.max_yield_ms
  pub minimum : res.0.scheduler.min_groups ≡ y.scheduler.min_groups

service-RoundBounds :
    (sv : Services) (cfg : RetryConfig) (r : Round) (q : Queue) (task : QueueTask) (y : Yielding)
    → RoundBounds r y (service sv cfg r q task y)
unfolding service
service-RoundBounds sv cfg r q task y = ground arith

still-RoundBounds : (r : Round) (y : Yielding) → RoundBounds r y (y, false)
still-RoundBounds r y = ground arith

popped_round-RoundBounds :
    (sv : Services) (cfg : RetryConfig) (r : Round) (p : Queue × Option QueueTask) (y : Yielding)
    → RoundBounds r y (popped_round sv cfg r p y)
unfolding popped_round
popped_round-RoundBounds sv cfg r (q, none) y = still-RoundBounds r y
popped_round-RoundBounds sv cfg r (q, some task) y = service-RoundBounds sv cfg r q task y

queue_round-RoundBounds :
    (sv : Services) (cfg : RetryConfig) (r : Round) (o : Option Queue) (y : Yielding)
    → RoundBounds r y (queue_round sv cfg r o y)
unfolding queue_round
queue_round-RoundBounds sv cfg r none y = still-RoundBounds r y
queue_round-RoundBounds sv cfg r (some q) y =
    popped_round-RoundBounds sv cfg r (pop_highest_priority q y.world.now) y

yield_round-RoundBounds :
    (sv : Services) (cfg : RetryConfig) (r : Round) (y : Yielding)
    → RoundBounds r y (yield_round sv cfg r y)
unfolding yield_round
yield_round-RoundBounds sv cfg r y =
    queue_round-RoundBounds sv cfg r (lookup y.scheduler.account_id y.world.queues) y

-- What the loop leaves, of a state with no more than `n` rounds behind it.
pub record LoopBounds (limit : ℕ) (y z : Yielding) : Type 0 where
  pub serviced : z.serviced ≤ max 2 y.serviced
  pub grows : y.serviced ≤ z.serviced
  pub total :
      z.scheduler.total_yield_ms ≤ max y.scheduler.total_yield_ms (y.scheduler.max_yield_ms + limit)
  pub groups : z.scheduler.groups_since_yield ≡ y.scheduler.groups_since_yield
  pub budget : z.scheduler.max_yield_ms ≡ y.scheduler.max_yield_ms
  pub minimum : z.scheduler.min_groups ≡ y.scheduler.min_groups

yield_loop-LoopBounds :
    (sv : Services) (cfg : RetryConfig) (limit : ℕ) (rs : List Round) (y : Yielding)
    → All (λ r. r.elapsed ≤ limit) rs
    → LoopBounds limit y (yield_loop sv cfg rs y)
unfolding yield_loop
yield_loop-LoopBounds sv cfg limit [] y h = ground arith
yield_loop-LoopBounds sv cfg limit (r ∷ rs) y h = ground (
  arith,
  yield_round-RoundBounds sv cfg r y,
  yield_loop-LoopBounds sv cfg limit rs (yield_round sv cfg r y).0 h.1,
)

yield_loop-done :
    (sv : Services) (cfg : RetryConfig) (rs : List Round) (y : Yielding)
    → 2 ≤ y.serviced
    → yield_loop sv cfg rs y ≡ y
unfolding yield_loop
yield_loop-done sv cfg [] y h = refl
yield_loop-done sv cfg (r ∷ rs) y h = ground arith

-- What is to come matters only if the round lets the loop go on.
yield_loop-same :
    (sv : Services) (cfg : RetryConfig) (r : Round) (rs rs' : List Round) (y : Yielding)
    → ((yield_round sv cfg r y).1 ≡ true
        → yield_loop sv cfg rs (yield_round sv cfg r y).0
          ≡ yield_loop sv cfg rs' (yield_round sv cfg r y).0)
    → yield_loop sv cfg (r ∷ rs) y ≡ yield_loop sv cfg (r ∷ rs') y
unfolding yield_loop
yield_loop-same sv cfg r rs rs' y h = elim (Bool-cases (yield_round sv cfg r y).1) [
  | inl goes ↦ rw (h goes) refl
  | inr ends ↦ rw ends refl
]

yield_loop-two :
    (sv : Services) (cfg : RetryConfig) (r₁ r₂ : Round) (rs : List Round) (y : Yielding)
    → yield_loop sv cfg (r₁ ∷ r₂ ∷ rs) y ≡ yield_loop sv cfg (r₁ ∷ r₂ ∷ []) y
yield_loop-two sv cfg r₁ r₂ rs y =
    let y₁ = (yield_round sv cfg r₁ y).0 in
    let y₂ = (yield_round sv cfg r₂ y₁).0 in
    let first = yield_round-RoundBounds sv cfg r₁ y in
    let second = yield_round-RoundBounds sv cfg r₂ y₁ in
    yield_loop-same sv cfg r₁ (r₂ ∷ rs) (r₂ ∷ []) y (λ on.
      yield_loop-same sv cfg r₂ rs [] y₁ (λ on'.
        yield_loop-done sv cfg rs y₂ (omega (arith, first.went on, second.went on'))
        ∙ sym (yield_loop-done sv cfg [] y₂ (omega (arith, first.went on, second.went on')))))

-- However many rounds the environment grants, a pause services at most two tasks, decides nothing by
-- what comes after two rounds, and runs over its budget by no more than one task takes.
pub yield_for_priority_work_bounds :
    (sv : Services) (cfg : RetryConfig) (rs : List Round) (s : CycleFairScheduler) (w : World)
    (limit : ℕ)
    → All (λ r. r.elapsed ≤ limit) rs
    → let y = yield_for_priority_work sv cfg rs s w in
      (y.serviced ≤ 2)
      × (y.scheduler.total_yield_ms ≤ max s.total_yield_ms (s.max_yield_ms + limit))
      × ((r₁ r₂ : Round) (more : List Round)
          → rs ≡ r₁ ∷ r₂ ∷ more
          → y ≡ yield_for_priority_work sv cfg (r₁ ∷ r₂ ∷ []) s w)
unfolding yield_for_priority_work
yield_for_priority_work_bounds sv cfg rs s w limit h =
    let y : Yielding = record { scheduler = s; world = w; serviced = 0 } in
    let v = yield_loop-LoopBounds sv cfg limit rs y h in
    (
      ground (arith, v),
      ground (arith, v),
      λ r₁ r₂ more e. rw (e, yield_loop-two sv cfg r₁ r₂ more y) refl,
    )

-- The scheduler after `n` groups more.
abbrev pub after_groups : ℕ → CycleFairScheduler → CycleFairScheduler
after_groups zero s = s
after_groups (suc n) s = on_group_completed (after_groups n s)

after_groups-frame :
    (n : ℕ) (s : CycleFairScheduler)
    → ((after_groups n s).groups_since_yield ≡ s.groups_since_yield + n)
      × ((after_groups n s).min_groups ≡ s.min_groups)
unfolding on_group_completed
after_groups-frame zero s = omega arith
after_groups-frame (suc n) s = omega (arith, after_groups-frame n s)

should_yield_to_dms-few :
    (s : CycleFairScheduler) (w : World)
    → s.groups_since_yield < s.min_groups
    → should_yield_to_dms s w ≡ false
unfolding should_yield_to_dms
should_yield_to_dms-few s w few = ground arith

abbrev longest : List Round → ℕ
longest [] = 0
longest (r ∷ rs) = max r.elapsed (longest rs)

All-elapsed_mono :
    (m n : ℕ) (rs : List Round) → m ≤ n → All (λ r. r.elapsed ≤ m) rs → All (λ r. r.elapsed ≤ n) rs
All-elapsed_mono m n [] le h = tt
All-elapsed_mono m n (r ∷ rs) le h = (omega arith, All-elapsed_mono m n rs le h.1)

longest-All : (rs : List Round) → All (λ r. r.elapsed ≤ longest rs) rs
longest-All [] = tt
longest-All (r ∷ rs) = (
  omega arith,
  All-elapsed_mono (longest rs) (longest (r ∷ rs)) rs (omega arith) (longest-All rs),
)

-- After a pause that serviced a task the cycle posts to its minimum number of groups before it pauses
-- again, whatever waits in the queue by then.
pub yield_for_priority_work_progress :
    (sv : Services) (cfg : RetryConfig) (rs : List Round) (s : CycleFairScheduler) (w later : World)
    (n : ℕ)
    → 0 < (yield_for_priority_work sv cfg rs s w).serviced
    → n < s.min_groups
    → should_yield_to_dms (after_groups n (yield_for_priority_work sv cfg rs s w).scheduler) later
      ≡ false
unfolding yield_for_priority_work
yield_for_priority_work_progress sv cfg rs s w later n some_work few =
    let y : Yielding = record { scheduler = s; world = w; serviced = 0 } in
    should_yield_to_dms-few _ later (
      ground (
        arith,
        yield_loop-LoopBounds sv cfg (longest rs) rs y (longest-All rs),
        after_groups-frame n (yield_for_priority_work sv cfg rs s w).scheduler,
      ))
