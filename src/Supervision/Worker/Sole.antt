-- ===== src/Supervision/Worker/Sole.antt =====
-- An account has one run task at a time (workers/account_worker.py).
use teleautomation_messaging.Prelude.{
  ℕ, ◌≤◌, ◌≡◌, ◌⊎◌, refl, ap, sym, ◌∙◌, Bool, true, false, Option, none, some, List, [], ◌∷◌,
  if◌then◌else◌, count_if, arith, inl, inr,
}
use teleautomation_messaging.Supervision.RunTasks.{RunTask, fresh_task, cancel_named}
use teleautomation_messaging.Supervision.Worker.{
  Worker, PostingMode, new_worker, cancel_task, launch_task, start, start_fresh, apply_start_flags,
  clear_flood_pause_state, stop, quieten, reset_after_logout,
}
use teleautomation_messaging.Supervision.Worker.Steps.{
  update_at, end_campaign_loop, end_forwarding_loop, finish_run, leave_campaign, campaign_tests,
  leave_forwarding, forwarding_begins, forwarding_tests, forwarding_ticked, end_task,
  restart_after_crash, WorkerOp, starts_run, stops, resets, cancels, launches, restarts,
  tests_campaign, begins_forwarding, tests_forwarding, ticks, ends, worker_step, worker_run,
}
use teleautomation_messaging.Supervision.Worker.Active.{
  is_active, active_at, IsSoleIn, cancel_named-none, active_at-append, active_at-update_at,
  unique-count,
}

pub record IsSole (w : Worker) : Type 0 where
  pub sole : IsSoleIn w.task w.tasks

-- The same task and store, with other fields.
same-IsSole : (w w' : Worker) → w'.task ≡ w.task → w'.tasks ≡ w.tasks → IsSole w → IsSole w'
same-IsSole w w' e f s = record { sole = rw (e, f) s.sole }

updated-IsSole :
    (w w' : Worker) (f : RunTask → RunTask) (i : ℕ)
    → w'.task ≡ w.task
    → w'.tasks ≡ update_at f w.tasks i
    → ((t : RunTask) → is_active (f t) ≡ true → is_active t ≡ true)
    → IsSole w
    → IsSole w'
updated-IsSole w w' f i e g k s = record {
  sole = λ j h. e ∙ s.sole j (active_at-update_at f w.tasks i j k (rw g at h));
}

if-IsSole : (b : Bool) (x y : Worker) → IsSole x → IsSole y → IsSole (if b then x else y)
if-IsSole true x y h k = h
if-IsSole false x y h k = k

cancelled-none : (w : Worker) → IsSole w → (j : ℕ) → active_at (cancel_task w).tasks j ≡ false
unfolding cancel_task
cancelled-none w s = cancel_named-none w.task w.tasks s.sole

cancel_task-IsSole : (w : Worker) → IsSole w → IsSole (cancel_task w)
unfolding cancel_task
cancel_task-IsSole w s = record {
  sole = λ j h. ground (arith, cancel_named-none w.task w.tasks s.sole j);
}

launch_task-IsSole : (w : Worker) → IsSole w → IsSole (launch_task w)
unfolding launch_task cancel_task
launch_task-IsSole w s = record {
  sole = λ j h. elim (active_at-append (cancel_named w.task w.tasks) fresh_task j h) [
    | inl old ↦ ground (arith, cancel_named-none w.task w.tasks s.sole j)
    | inr e ↦ ap some e
  ];
}

some-eq : (i j : ℕ) → ◌≡◌ {A = Option ℕ} (some i) (some j) → i ≡ j
some-eq i j e = cc

pub IsSole-count : (w : Worker) → IsSole w → count_if is_active w.tasks ≤ 1
IsSole-count w s = unique-count w.tasks (λ i j h k. some-eq i j (sym (s.sole i h) ∙ s.sole j k))

clear_flood-fields :
    (w : Worker)
    → ((clear_flood_pause_state w).task ≡ w.task) × ((clear_flood_pause_state w).tasks ≡ w.tasks)
unfolding clear_flood_pause_state
clear_flood-fields w = ground arith

start_fresh-IsSole :
    (now : ℕ) (one_shot : Bool) (w : Worker) → IsSole w → IsSole (start_fresh now one_shot w)
unfolding start_fresh
start_fresh-IsSole now one_shot w s =
    let w₁ = cancel_task w in
    let w₂ = record w₁ { one_shot = one_shot } in
    let f = clear_flood-fields w₂ in
    let c = cancel_task-IsSole w s in launch_task-IsSole _ (same-IsSole w₁ _ f.0 f.1 c)

start-IsSole :
    (exclusive : Bool) (cfg : PostingMode) (now : ℕ) (one_shot : Bool)
    (campaign forwarding : Option Bool) (w : Worker)
    → IsSole w
    → IsSole (start exclusive cfg now one_shot campaign forwarding w).0
unfolding start
start-IsSole exclusive cfg now one_shot campaign forwarding w s =
    let w' = apply_start_flags cfg campaign forwarding w in
    let flags : IsSole w' =
      same-IsSole w w' (unfold apply_start_flags in ground arith)
        (unfold apply_start_flags in ground arith) s in
    ground (arith, flags, start_fresh-IsSole now one_shot w' flags)

quieten-fields :
    (campaign forwarding : Option Bool) (w : Worker)
    → ((quieten campaign forwarding w).task ≡ w.task)
      × ((quieten campaign forwarding w).tasks ≡ w.tasks)
unfolding quieten
quieten-fields campaign forwarding w = ground arith

stop-IsSole :
    (campaign forwarding : Option Bool) (w : Worker)
    → IsSole w
    → IsSole (stop campaign forwarding w)
unfolding stop
stop-IsSole campaign forwarding w s =
    let q = quieten campaign forwarding w in
    let f = quieten-fields campaign forwarding w in
    let same = same-IsSole w q f.0 f.1 s in
    if-IsSole q.running q (cancel_task q) same (cancel_task-IsSole q same)

-- A stop that takes no feature is a stop of the whole worker.
stop-cancels : (w : Worker) → stop none none w ≡ cancel_task (quieten none none w)
unfolding stop quieten
stop-cancels w = refl

reset-IsSole : (w : Worker) → IsSole w → IsSole (reset_after_logout w)
unfolding reset_after_logout
reset-IsSole w s =
    let q = quieten none none w in
    let f = quieten-fields none none w in
    let same = same-IsSole w q f.0 f.1 s in
    record { sole = λ j h. ground (arith, stop-cancels w, cancelled-none q same j) }

end_campaign-active : (t : RunTask) → is_active (end_campaign_loop t) ≡ true → is_active t ≡ true
end_campaign-active t h = h

end_forwarding-active :
    (t : RunTask) → is_active (end_forwarding_loop t) ≡ true → is_active t ≡ true
end_forwarding-active t h = h

finish_run-active : (t : RunTask) → is_active (finish_run t) ≡ true → is_active t ≡ true
finish_run-active t h = cc

-- One task of the store may have changed.
abbrev MayUpdate : (RunTask → RunTask) → ℕ → Worker → Worker → Type 0
MayUpdate f i w w' = (w'.tasks ≡ w.tasks) ⊎ (w'.tasks ≡ update_at f w.tasks i)

MayUpdate-IsSole :
    (w w' : Worker) (f : RunTask → RunTask) (i : ℕ)
    → ((t : RunTask) → is_active (f t) ≡ true → is_active t ≡ true)
    → (w'.task ≡ w.task) × MayUpdate f i w w'
    → IsSole w
    → IsSole w'
MayUpdate-IsSole w w' f i k (e, inl same) s = same-IsSole w w' e same s
MayUpdate-IsSole w w' f i k (e, inr new) s = updated-IsSole w w' f i e new k s

campaign_tests-fields :
    (i : ℕ) (exclusive : Bool) (cfg : PostingMode) (now : ℕ) (w : Worker)
    → ((campaign_tests i exclusive cfg now w).task ≡ w.task)
      × MayUpdate end_campaign_loop i w (campaign_tests i exclusive cfg now w)
unfolding campaign_tests leave_campaign
campaign_tests-fields i exclusive cfg now w = ground arith

forwarding_begins-fields :
    (i : ℕ) (cfg : PostingMode) (w : Worker)
    → ((forwarding_begins i cfg w).task ≡ w.task)
      × MayUpdate end_forwarding_loop i w (forwarding_begins i cfg w)
unfolding forwarding_begins
forwarding_begins-fields i cfg w = ground arith

forwarding_tests-fields :
    (i : ℕ) (exclusive : Bool) (cfg : PostingMode) (now : ℕ) (w : Worker)
    → ((forwarding_tests i exclusive cfg now w).task ≡ w.task)
      × MayUpdate end_forwarding_loop i w (forwarding_tests i exclusive cfg now w)
unfolding forwarding_tests leave_forwarding
forwarding_tests-fields i exclusive cfg now w = ground arith

forwarding_ticked-fields :
    (i : ℕ) (w : Worker)
    → ((forwarding_ticked i w).task ≡ w.task)
      × MayUpdate end_forwarding_loop i w (forwarding_ticked i w)
unfolding forwarding_ticked leave_forwarding
forwarding_ticked-fields i w = ground arith

step-IsSole : (w : Worker) (op : WorkerOp) → IsSole w → IsSole (worker_step w op)
unfolding worker_step
step-IsSole w (starts_run exclusive cfg now one_shot campaign forwarding) s =
    start-IsSole exclusive cfg now one_shot campaign forwarding w s
step-IsSole w (stops campaign forwarding) s = stop-IsSole campaign forwarding w s
step-IsSole w resets s = reset-IsSole w s
step-IsSole w cancels s = cancel_task-IsSole w s
step-IsSole w launches s = launch_task-IsSole w s
step-IsSole w restarts s =
    unfold restart_after_crash in if-IsSole w.running (launch_task w) w (launch_task-IsSole w s) s
step-IsSole w (tests_campaign i exclusive cfg now) s =
    MayUpdate-IsSole w _ end_campaign_loop i end_campaign-active
      (campaign_tests-fields i exclusive cfg now w) s
step-IsSole w (begins_forwarding i cfg) s =
    MayUpdate-IsSole w _ end_forwarding_loop i end_forwarding-active
      (forwarding_begins-fields i cfg w) s
step-IsSole w (tests_forwarding i exclusive cfg now) s =
    MayUpdate-IsSole w _ end_forwarding_loop i end_forwarding-active
      (forwarding_tests-fields i exclusive cfg now w) s
step-IsSole w (ticks i) s =
    MayUpdate-IsSole w _ end_forwarding_loop i end_forwarding-active (forwarding_ticked-fields i w)
      s
step-IsSole w (ends i) s =
    unfold end_task in updated-IsSole w _ finish_run i refl refl finish_run-active s

run-IsSole : (w : Worker) (ops : List WorkerOp) → IsSole w → IsSole (worker_run w ops)
unfolding worker_run
run-IsSole w [] s = s
run-IsSole w (op ∷ ops) s = run-IsSole (worker_step w op) ops (step-IsSole w op s)

-- Whatever starts, stops, restarts, crashes and launches of the watchdog an account sees, in whatever
-- order, at most one of its run tasks goes on without having been asked to stop, and that is the task
-- its state names.
pub worker_run-IsSole :
    (ops : List WorkerOp)
    → IsSole (worker_run new_worker ops)
      × (count_if is_active (worker_run new_worker ops).tasks ≤ 1)
worker_run-IsSole ops =
    let start : IsSole new_worker = record { sole = λ j h. unfold active_at in absurd (cc) } in
    let s = run-IsSole new_worker ops start in (s, IsSole-count (worker_run new_worker ops) s)
