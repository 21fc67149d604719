-- ===== src/Services/Outbox/Dispatch.antt =====
-- services/opportunity_event_producer.py, dispatch_opportunities_once: the rows that are due are posted
-- to the operations service one after the other. The service is a parameter.
pub mod Settled
use teleautomation_messaging.Prelude.{
  ℕ, suc, ◌+◌, ◌*◌, ◌≤◌, ◌≡◌, ◌⊎◌, refl, String, Bool, true, false, Option, none, some, List, [],
  ◌∷◌, leb, str_eq, if◌then◌else◌, All, All-map, Dict, insert, Bool-cases, inl, inr, arith, eq_iff,
}
use teleautomation_messaging.Services.Outbox.{
  pending, is_pending, Row, has_key, find, second, due_from, due, change_first, delivered_row,
  mark_delivered, failed_row, mark_failed, is_candidate,
}
use teleautomation_messaging.Services.Outbox.Backoff.{failed_row_bounds, find-change_first}

-- What the HTTP client gives: the body of a response that is no error, by the opportunity that it
-- names; a body that is JSON but no object, so that `body.get` raises AttributeError; an error that
-- the loop catches; or one that it does not catch.
pub data PostReply : Type 0 where
  accepted : (opportunity : String) → PostReply
  no_object : PostReply
  failed : (error : String) → PostReply
  uncaught : PostReply

-- The service, of a row: its reply and the time of it.
abbrev pub Post : Type 0
Post = Row → ℕ × PostReply

-- The outbox and the results by key.
abbrev pub Delivery : Type 0
Delivery = List Row × Dict String

-- One row, and whether the round goes on; otherwise an exception leaves it.
deliver_one : Row → ℕ × PostReply → Delivery → Delivery × Bool
deliver_one r (now, accepted opportunity) (rows, results) = (
  (mark_delivered r.idempotency_key now rows, insert r.idempotency_key opportunity results),
  true,
)
deliver_one r (now, no_object) (rows, results) =
    ((mark_delivered r.idempotency_key now rows, results), false)
deliver_one r (now, failed error) (rows, results) =
    ((mark_failed r.idempotency_key error now rows, results), true)
deliver_one r (now, uncaught) d = (d, false)

deliver_all : Post → List Row → Delivery → Delivery × Bool
unfolding deliver_one
deliver_all post [] d = (d, true)
deliver_all post (r ∷ rs) d =
    let (d', on) = deliver_one r (post r) d in
    let rest = deliver_all post rs d' in if on then rest else (d', false)

-- Without a token nothing is sent. The second component says whether the round came to its end.
unfoldable pub dispatch_opportunities_once :
    Post → (token : String) → ℕ → List Row → Delivery × Bool
unfolding deliver_all
dispatch_opportunities_once post token now rows =
    if str_eq token ""
    then ((rows, []), true)
    else deliver_all post (due "operations.opportunity.v1" 50 now rows) (rows, [])
