-- ===== src/Services/Outbox.antt =====
-- services/cross_project_outbox.py: events for other projects, kept in a file until they are delivered.
-- A store is the list of rows in the file; time is a number of microseconds.
pub mod Keys
pub mod Idempotence
pub mod Backoff
pub mod Dispatch
use teleautomation_messaging.Prelude.{
  ℕ, zero, suc, ◌+◌, ◌*◌, ◌^◌, min, String, Bool, true, false, ◌&&◌, Option, none, some, List, [],
  ◌∷◌, ◌++◌, leb, str_eq, if◌then◌else◌, take_last, strip, slice_to,
}

pub data Status : Type 0 where
  pending delivered dead : Status

pub record Row : Type 0 where
  pub event_type : String
  pub idempotency_key : String
  pub payload : String
  pub status : Status
  pub attempts : ℕ
  pub next_attempt_at : ℕ
  pub created_at : ℕ
  pub delivered_at : Option ℕ
  pub last_error : String

abbrev pub max_attempts : ℕ
max_attempts = 12

abbrev pub kept_rows : ℕ
kept_rows = 10000

abbrev pub second : ℕ
second = 1000000

abbrev pub has_key : String → Row → Bool
has_key key r = str_eq r.idempotency_key key

-- The first row with a key.
unfoldable pub find : String → List Row → Option Row
find key [] = none
find key (r ∷ rows) = if has_key key r then some r else find key rows

abbrev pub new_row : String → String → String → ℕ → Row
new_row event_type key payload now = record {
  event_type = event_type;
  idempotency_key = key;
  payload = payload;
  status = pending;
  attempts = 0;
  next_attempt_at = now;
  created_at = now;
  delivered_at = none;
  last_error = "";
}

append_row : Row → Option Row → List Row → List Row × Option Row
append_row row (some old) rows = (rows, some old)
append_row row none rows = (take_last kept_rows (rows ++ row ∷ []), some row)

-- The store afterwards and the row; no row is the ValueError of a key that is blank.
unfoldable pub enqueue : String → String → String → ℕ → List Row → List Row × Option Row
unfolding append_row
enqueue event_type idempotency_key payload now rows =
    let key = strip idempotency_key in
    if str_eq key ""
    then (rows, none)
    else append_row (new_row event_type key payload now) (find key rows) rows

abbrev pub is_pending : Status → Bool
is_pending pending = true
is_pending _ = false

abbrev pub is_candidate : String → Row → Bool
is_candidate event_type r = str_eq r.event_type event_type && is_pending r.status

-- The loop of `due`, with `n` rows found before.
unfoldable pub due_from : String → ℕ → ℕ → ℕ → List Row → List Row
due_from event_type limit now n [] = []
due_from event_type limit now n (r ∷ rows) = elim (is_candidate event_type r) [
  | false ↦ due_from event_type limit now n rows
  | true ↦ elim (leb r.next_attempt_at now) [
    | true ↦ r ∷ elim (leb limit (suc n)) [
      | true ↦ []
      | false ↦ due_from event_type limit now (suc n) rows
    ]
    | false ↦ elim (leb limit n) [ true ↦ [] | false ↦ due_from event_type limit now n rows ]
  ]
]

unfoldable pub due : String → ℕ → ℕ → List Row → List Row
due event_type limit now rows = due_from event_type limit now 0 rows

-- A change to the first row with a key.
unfoldable pub change_first : (Row → Row) → String → List Row → List Row
change_first f key [] = []
change_first f key (r ∷ rows) = if has_key key r then f r ∷ rows else r ∷ change_first f key rows

abbrev pub delivered_row : ℕ → Row → Row
delivered_row now r = record r { status = delivered; delivered_at = some now; last_error = "" }

unfoldable pub mark_delivered : String → ℕ → List Row → List Row
mark_delivered key now rows = change_first (delivered_row now) key rows

-- `str(error or "delivery failed")[:500]`
abbrev error_text : String → String
error_text error = slice_to 500 (if str_eq error "" then "delivery failed" else error)

-- The seconds until the next attempt.
abbrev pub backoff : ℕ → ℕ
backoff attempts = min 3600 (2 ^ min attempts 11)

abbrev pub failed_row : String → ℕ → Row → Row
failed_row error now r =
    let attempts = r.attempts + 1 in
    let r' = record r { attempts = attempts; last_error = error_text error } in
    if leb max_attempts attempts
    then record r' { status = dead }
    else record r' { next_attempt_at = now + backoff attempts * second }

unfoldable pub mark_failed : String → String → ℕ → List Row → List Row
mark_failed key error now rows = change_first (failed_row error now) key rows

pub data OutboxOp : Type 0 where
  enqueues : (event_type idempotency_key payload : String) (now : ℕ) → OutboxOp
  delivers : (key : String) (now : ℕ) → OutboxOp
  fails : (key error : String) (now : ℕ) → OutboxOp

unfoldable pub outbox_step : List Row → OutboxOp → List Row
outbox_step rows (enqueues event_type key payload now) = (enqueue event_type key payload now rows).0
outbox_step rows (delivers key now) = mark_delivered key now rows
outbox_step rows (fails key error now) = mark_failed key error now rows

unfoldable pub outbox_run : List Row → List OutboxOp → List Row
outbox_run rows [] = rows
outbox_run rows (op ∷ ops) = outbox_run (outbox_step rows op) ops
