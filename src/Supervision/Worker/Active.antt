-- ===== src/Supervision/Worker/Active.antt =====
-- The tasks on the store that go on (workers/account_worker.py, _launch_task and _cancel_task).
use teleautomation_messaging.Prelude.{
  ℕ, zero, suc, ◌≤◌, ◌≡◌, ◌⊎◌, refl, ap, Bool, true, false, not, ◌&&◌, Option, none, some, List, [],
  ◌∷◌, ◌++◌, ◌==◌, if◌then◌else◌, length, count_if, arith, inl, inr, Bool-cases,
}
use teleautomation_messaging.Supervision.RunTasks.{RunTask, cancel_at, cancel_named}
use teleautomation_messaging.Supervision.Worker.Steps.{update_at}

-- A task that goes on and was not asked to stop.
abbrev pub is_active : RunTask → Bool
is_active t = not t.finished && not t.cancel_requested

unfoldable pub active_at : List RunTask → ℕ → Bool
active_at [] i = false
active_at (t ∷ ts) zero = is_active t
active_at (t ∷ ts) (suc i) = active_at ts i

-- Every task but the one that the state names is done or was asked to stop.
abbrev pub IsSoleIn : Option ℕ → List RunTask → Type 0
IsSoleIn task ts = (i : ℕ) → active_at ts i ≡ true → task ≡ some i

pub active_at-cancel_at :
    (ts : List RunTask) (i j : ℕ)
    → active_at (cancel_at ts i) j ≡ (if i == j then false else active_at ts j)
unfolding active_at cancel_at
active_at-cancel_at [] i j = ground arith
active_at-cancel_at (t ∷ ts) zero zero = ground arith
active_at-cancel_at (t ∷ ts) zero (suc j) = ground arith
active_at-cancel_at (t ∷ ts) (suc i) zero = ground arith
active_at-cancel_at (t ∷ ts) (suc i) (suc j) = ground (arith, active_at-cancel_at ts i j)

-- After the cancellation none is active.
pub cancel_named-none :
    (task : Option ℕ) (ts : List RunTask)
    → IsSoleIn task ts
    → (j : ℕ) → active_at (cancel_named task ts) j ≡ false
unfolding cancel_named
cancel_named-none none ts s j = ground (arith, s j)
cancel_named-none (some i) ts s j = ground (arith, s j, active_at-cancel_at ts i j)

pub active_at-append :
    (ts : List RunTask) (t : RunTask) (j : ℕ)
    → active_at (ts ++ t ∷ []) j ≡ true
    → (active_at ts j ≡ true) ⊎ (length ts ≡ j)
unfolding active_at
active_at-append [] t zero h = inr refl
active_at-append [] t (suc j) h = inl h
active_at-append (x ∷ ts) t zero h = inl h
active_at-append (x ∷ ts) t (suc j) h = elim (active_at-append ts t j h) [
  | inl e ↦ inl e
  | inr e ↦ inr (ap suc e)
]

pub active_at-update_at :
    (f : RunTask → RunTask) (ts : List RunTask) (i j : ℕ)
    → ((t : RunTask) → is_active (f t) ≡ true → is_active t ≡ true)
    → active_at (update_at f ts i) j ≡ true
    → active_at ts j ≡ true
unfolding active_at update_at
active_at-update_at f [] i j k h = h
active_at-update_at f (t ∷ ts) zero zero k h = k t h
active_at-update_at f (t ∷ ts) zero (suc j) k h = h
active_at-update_at f (t ∷ ts) (suc i) zero k h = h
active_at-update_at f (t ∷ ts) (suc i) (suc j) k h = active_at-update_at f ts i j k h

none-count : (ts : List RunTask) → ((j : ℕ) → active_at ts j ≡ false) → count_if is_active ts ≡ 0
unfolding active_at
none-count [] h = refl
none-count (t ∷ ts) h = ground (arith, h 0, none-count ts (λ j. h (suc j)))

pub unique-count :
    (ts : List RunTask)
    → ((i j : ℕ) → active_at ts i ≡ true → active_at ts j ≡ true → i ≡ j)
    → count_if is_active ts ≤ 1
unfolding active_at
unique-count [] u = omega arith
unique-count (t ∷ ts) u = elim (Bool-cases (is_active t)) [
  | inl on ↦
      let others : (j : ℕ) → active_at ts j ≡ false = λ j. elim (Bool-cases (active_at ts j)) [
        | inl k ↦ absurd (omega (arith, u 0 (suc j) on k))
        | inr e ↦ e
      ] in
      ground (arith, none-count ts others)
  | inr off ↦ ground (arith, unique-count ts (λ i j h k. omega (arith, u (suc i) (suc j) h k)))
]
