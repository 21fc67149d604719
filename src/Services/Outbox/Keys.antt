-- ===== src/Services/Outbox/Keys.antt =====
-- Each key names one row of the outbox (services/cross_project_outbox.py).
use teleautomation_messaging.Prelude.{
  ℕ, zero, suc, ◌-◌, ◌<◌, ◌≡◌, ◌⊎◌, refl, String, false, Option, none, some, List, [], ◌∷◌, ◌++◌,
  str_eq, drop, length, strip, All, All-append, Bool-cases, inl, inr, arith, eq_iff,
}
use teleautomation_messaging.Services.Outbox.{
  is_pending, Row, max_attempts, kept_rows, has_key, find, new_row, append_row, enqueue,
  change_first, delivered_row, mark_delivered, failed_row, mark_failed, OutboxOp, enqueues,
  delivers, fails, outbox_step, outbox_run,
}

-- No row has the key.
abbrev pub Lacks : String → List Row → Type 0
Lacks key rows = All (λ r. has_key key r ≡ false) rows

-- A row that waits for delivery has attempts left.
abbrev pub HasAttempts : Row → Type 0
HasAttempts r = (is_pending r.status ≡ false) ⊎ (r.attempts < max_attempts)

-- No two rows have the same key, and a row that waits for delivery has attempts left.
abbrev pub IsValid : List Row → Type 0
IsValid [] = Unit
IsValid (r ∷ rows) = Lacks r.idempotency_key rows × HasAttempts r × IsValid rows

pub find-Lacks : (key : String) (rows : List Row) → find key rows ≡ none → Lacks key rows
unfolding find
find-Lacks key [] h = tt
find-Lacks key (r ∷ rows) h = elim (Bool-cases (has_key key r)) [
  | inl e ↦ ground arith
  | inr e ↦ (e, find-Lacks key rows (ground arith))
]

pub drop-Lacks : (key : String) (n : ℕ) (rows : List Row) → Lacks key rows → Lacks key (drop n rows)
drop-Lacks key zero rows h = h
drop-Lacks key (suc n) [] h = tt
drop-Lacks key (suc n) (r ∷ rows) h = drop-Lacks key n rows h.1

drop-IsValid : (n : ℕ) (rows : List Row) → IsValid rows → IsValid (drop n rows)
drop-IsValid zero rows h = h
drop-IsValid (suc n) [] h = tt
drop-IsValid (suc n) (r ∷ rows) h = drop-IsValid n rows h.2

append-IsValid :
    (row : Row) (rows : List Row)
    → IsValid rows
    → Lacks row.idempotency_key rows
    → row.attempts ≡ 0
    → IsValid (rows ++ row ∷ [])
append-IsValid row [] h k a = (tt, inr (omega arith), tt)
append-IsValid row (r ∷ rows) h k a = (
  All-append _ rows (row ∷ []) h.0 (
    ground (
      arith,
      k.0,
      eq_iff row.idempotency_key r.idempotency_key,
      eq_iff r.idempotency_key row.idempotency_key,
    ),
    tt,
  ),
  h.1,
  append-IsValid row rows h.2 k.1 a,
)

change_first-Lacks :
    (f : Row → Row) (key other : String) (rows : List Row)
    → ((r : Row) → (f r).idempotency_key ≡ r.idempotency_key)
    → Lacks other rows
    → Lacks other (change_first f key rows)
unfolding change_first
change_first-Lacks f key other [] same h = tt
change_first-Lacks f key other (r ∷ rows) same h = elim (Bool-cases (has_key key r)) [
  | inl e ↦ rw (e, same r) h
  | inr e ↦ rw e (h.0, change_first-Lacks f key other rows same h.1)
]

change_first-IsValid :
    (f : Row → Row) (key : String) (rows : List Row)
    → ((r : Row) → (f r).idempotency_key ≡ r.idempotency_key)
    → ((r : Row) → HasAttempts r → HasAttempts (f r))
    → IsValid rows
    → IsValid (change_first f key rows)
unfolding change_first
change_first-IsValid f key [] same left h = tt
change_first-IsValid f key (r ∷ rows) same left h = elim (Bool-cases (has_key key r)) [
  | inl e ↦ rw e (rw (same r) h.0, left r h.1, h.2)
  | inr e ↦ rw e (
    change_first-Lacks f key r.idempotency_key rows same h.0,
    h.1,
    change_first-IsValid f key rows same left h.2,
  )
]

append_row-IsValid :
    (row : Row) (o : Option Row) (rows : List Row)
    → find row.idempotency_key rows ≡ o
    → row.attempts ≡ 0
    → IsValid rows
    → IsValid (append_row row o rows).0
unfolding append_row
append_row-IsValid row (some old) rows e a h = h
append_row-IsValid row none rows e a h =
    drop-IsValid (length (rows ++ row ∷ []) - kept_rows) (rows ++ row ∷ [])
      (append-IsValid row rows h (find-Lacks row.idempotency_key rows e) a)

enqueue-IsValid :
    (event_type key payload : String) (now : ℕ) (rows : List Row)
    → IsValid rows
    → IsValid (enqueue event_type key payload now rows).0
unfolding enqueue
enqueue-IsValid event_type key payload now rows h = elim (Bool-cases (str_eq (strip key) "")) [
  | inl e ↦ rw (e, enqueue) h
  | inr e ↦
      rw (e, enqueue)
        (append_row-IsValid (new_row event_type (strip key) payload now) (find (strip key) rows)
          rows refl refl h)
]

outbox_step-IsValid :
    (rows : List Row) (op : OutboxOp) → IsValid rows → IsValid (outbox_step rows op)
unfolding outbox_step mark_delivered mark_failed
outbox_step-IsValid rows (enqueues event_type key payload now) h =
    enqueue-IsValid event_type key payload now rows h
outbox_step-IsValid rows (delivers key now) h =
    change_first-IsValid (delivered_row now) key rows (λ r. refl) (λ r k. inl refl) h
outbox_step-IsValid rows (fails key error now) h =
    change_first-IsValid (failed_row error now) key rows (λ r. ground arith) (λ r k. ground arith) h

-- Whatever is queued, delivered or fails, and in whatever order: no two rows of the outbox have the
-- same key, and a row that waits for delivery has failed fewer than twelve times.
pub outbox_run-IsValid :
    (rows : List Row) (ops : List OutboxOp) → IsValid rows → IsValid (outbox_run rows ops)
unfolding outbox_run
outbox_run-IsValid rows [] h = h
outbox_run-IsValid rows (op ∷ ops) h =
    outbox_run-IsValid (outbox_step rows op) ops (outbox_step-IsValid rows op h)
