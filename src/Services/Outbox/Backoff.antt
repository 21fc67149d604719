-- ===== src/Services/Outbox/Backoff.antt =====
-- An event that fails waits before it is sent again, and is given up in the end
-- (services/cross_project_outbox.py, due and mark_failed).
use native.Mathlib.Nat.{pow-le-pow_right}
use teleautomation_messaging.Prelude.{
  ℕ, suc, ◌+◌, ◌-◌, ◌*◌, ◌^◌, ◌≤◌, ◌<◌, ◌≡◌, ◌⊎◌, min, max, refl, String, some, List, [], ◌∷◌, leb,
  length, All, Bool-cases, inl, inr, arith, eq_iff,
}
use teleautomation_messaging.Services.Outbox.{
  pending, dead, Row, find, max_attempts, second, backoff, due_from, due, change_first, failed_row,
  mark_failed,
}

-- A row that may be sent now.
abbrev pub IsDue : String → ℕ → Row → Type 0
IsDue event_type now r =
    (r.event_type ≡ event_type) × (r.status ≡ pending) × (r.next_attempt_at ≤ now)

due_from-IsDue :
    (event_type : String) (limit now n : ℕ) (rows : List Row)
    → All (IsDue event_type now) (due_from event_type limit now n rows)
      × (length (due_from event_type limit now n rows) ≤ max 1 (limit - n))
unfolding due_from
due_from-IsDue event_type limit now n [] = (tt, omega arith)
due_from-IsDue event_type limit now n (r ∷ rows) = ground (
  arith,
  eq_iff r.event_type event_type,
  due_from-IsDue event_type limit now n rows,
  due_from-IsDue event_type limit now (suc n) rows,
)

-- The rows that are handed out for delivery are of the type asked for, wait for delivery, and are due;
-- they are no more than the limit, or one where the limit is zero.
pub due-IsDue :
    (event_type : String) (limit now : ℕ) (rows : List Row)
    → All (IsDue event_type now) (due event_type limit now rows)
      × (length (due event_type limit now rows) ≤ max 1 limit)
unfolding due
due-IsDue event_type limit now rows =
    let r = due_from-IsDue event_type limit now 0 rows in (r.0, omega (arith, r.1))

pub find-change_first :
    (f : Row → Row) (key : String) (rows : List Row) (r : Row)
    → ((x : Row) → (f x).idempotency_key ≡ x.idempotency_key)
    → find key rows ≡ some r
    → find key (change_first f key rows) ≡ some (f r)
unfolding find change_first
find-change_first f key [] r same h = cc
find-change_first f key (x ∷ rows) r same h =
    ground (arith, same x, find-change_first f key rows r same)

-- The first wait is two seconds.
backoff_bounds : (attempts : ℕ) → 0 < attempts → (2 ≤ backoff attempts) × (backoff attempts ≤ 3600)
backoff_bounds attempts some_failed =
    let grows : 2 ^ 1 ≤ 2 ^ min attempts 11 =
      pow-le-pow_right {n = 2} (omega arith) {i = 1} {j = min attempts 11} (omega arith) in
    omega (arith, grows)

pub failed_row_bounds :
    (error : String) (now : ℕ) (r : Row)
    → let r' = failed_row error now r in
      ((12 ≤ r'.attempts) × (r'.status ≡ dead))
      ⊎ ((r'.attempts < 12)
          × (r'.status ≡ r.status)
          × (now + 2 * second ≤ r'.next_attempt_at)
          × (r'.next_attempt_at ≤ now + 3600 * second))
failed_row_bounds error now r = elim (Bool-cases (leb max_attempts (r.attempts + 1))) [
  | inl spent ↦ rw spent (inl (ground arith, refl))
  | inr left ↦ rw left (
      inr (
        ground arith,
        refl,
        omega (arith, backoff_bounds (r.attempts + 1) (omega arith)),
        omega (arith, backoff_bounds (r.attempts + 1) (omega arith)),
      ))
]

-- What a failure makes of the row with the key: it counts an attempt; at the twelfth it is given up,
-- before that it keeps its status and is not due again until the back-off has passed, which is from
-- two seconds up to an hour.
pub mark_failed-row :
    (key error : String) (now : ℕ) (rows : List Row) (r : Row)
    → find key rows ≡ some r
    → (r' : Row) × (find key (mark_failed key error now rows) ≡ some r')
      × (r'.attempts ≡ r.attempts + 1)
      × (((12 ≤ r'.attempts) × (r'.status ≡ dead))
          ⊎ ((r'.attempts < 12)
              × (r'.status ≡ r.status)
              × (now + 2 * second ≤ r'.next_attempt_at)
              × (r'.next_attempt_at ≤ now + 3600 * second)))
unfolding mark_failed
mark_failed-row key error now rows r h = (
  failed_row error now r,
  find-change_first (failed_row error now) key rows r (λ x. ground arith) h,
  ground arith,
  failed_row_bounds error now r,
)
