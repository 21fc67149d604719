-- ===== src/Services/Outbox/Idempotence.antt =====
-- An event is queued once (services/cross_project_outbox.py, enqueue).
use teleautomation_messaging.Prelude.{
  ℕ, zero, suc, ◌-◌, ◌≤◌, ◌≡◌, refl, String, none, some, List, [], ◌∷◌, ◌++◌, str_eq, drop, length,
  length-append, strip, Bool-cases, Option-cases, inl, inr, arith, eq_iff,
}
use teleautomation_messaging.Services.Outbox.{Row, kept_rows, find, new_row, append_row, enqueue}
use teleautomation_messaging.Services.Outbox.Keys.{Lacks, find-Lacks, drop-Lacks}

find-append_last :
    (row : Row) (rows : List Row)
    → Lacks row.idempotency_key rows
    → find row.idempotency_key (rows ++ row ∷ []) ≡ some row
unfolding find
find-append_last row [] h = ground (arith, eq_iff row.idempotency_key row.idempotency_key)
find-append_last row (r ∷ rows) h = ground (arith, h.0, find-append_last row rows h.1)

-- What is dropped in front leaves the last row.
drop-append_last :
    (n : ℕ) (row : Row) (rows : List Row)
    → n ≤ length rows
    → drop n (rows ++ row ∷ []) ≡ drop n rows ++ row ∷ []
drop-append_last zero row rows h = refl
drop-append_last (suc n) row [] h = elim h [ ]
drop-append_last (suc n) row (r ∷ rows) h = drop-append_last n row rows (omega arith)

append_row-find :
    (row : Row) (rows : List Row)
    → find row.idempotency_key rows ≡ none
    → find row.idempotency_key (append_row row none rows).0 ≡ some row
unfolding append_row
append_row-find row rows h =
    let n = length (rows ++ row ∷ []) - kept_rows in
    rw (drop-append_last n row rows (omega (arith, length-append rows (row ∷ [])))) (
      find-append_last row (drop n rows)
        (drop-Lacks row.idempotency_key n rows (find-Lacks row.idempotency_key rows h)))

-- Queuing an event again under the same key, with whatever type, payload and time, gives the row of
-- the first call and leaves the outbox as the first call left it. This holds of a full outbox too, of
-- which the oldest row is dropped.
pub enqueue-enqueue :
    (event_type other_type key payload other_payload : String) (now later : ℕ) (rows : List Row)
    → let r = enqueue event_type key payload now rows in
      enqueue other_type key other_payload later r.0 ≡ r
unfolding enqueue
enqueue-enqueue event_type other_type key payload other_payload now later rows =
    elim (Bool-cases (str_eq (strip key) "")) [
      | inl blank ↦ rw (blank, enqueue) refl
      | inr named ↦
          rw (named, enqueue)
            elim (Option-cases (find (strip key) rows)) [
              | inl new ↦
                  rw new (
                    rw (append_row-find (new_row event_type (strip key) payload now) rows new) refl)
              | inr (old, found) ↦ rw (found, found) refl
            ]
    ]
