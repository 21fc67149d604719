-- ===== src/Tests/Outbox.antt =====
-- The outbox and its dispatcher (services/cross_project_outbox.py,
-- services/opportunity_event_producer.py).
use teleautomation_messaging.Prelude.{
  ◌≡◌, ◌≢◌, refl, true, if◌then◌else◌, str_eq, inr, String, some, [], ◌∷◌, strip, strip_left,
  strip_right, All, arith, eq_iff,
}
use teleautomation_messaging.Services.Outbox.{
  Row, new_row, find, enqueue, due, enqueues, delivers, fails, outbox_run,
}
use teleautomation_messaging.Services.Outbox.Keys.{IsValid, outbox_run-IsValid}
use teleautomation_messaging.Services.Outbox.Idempotence.{enqueue-enqueue}
use teleautomation_messaging.Services.Outbox.Dispatch.{
  Post, failed, no_object, dispatch_opportunities_once,
}
use teleautomation_messaging.Services.Outbox.Dispatch.Settled.{
  SettledIn, reached, dispatch_opportunities_once-SettledIn,
}

abbrev row : Row
row = new_row "operations.opportunity.v1" "k1" "{}" 10

abbrev spent_row : Row
spent_row = record row { attempts = 11 }

-- The key is the same but for blanks around it.
enqueued_once :
    (enqueue "operations.opportunity.v1" " k1 " "{}" 99 (row ∷ [])) ≡ (row ∷ [], some row)
unfolding enqueue strip strip_left strip_right find
enqueued_once = refl

enqueue-enqueue_example :
    let r = enqueue "operations.opportunity.v1" "k2" "{}" 20 (row ∷ []) in
    enqueue "other" "k2" "[]" 30 r.0 ≡ r
enqueue-enqueue_example =
    enqueue-enqueue "operations.opportunity.v1" "other" "k2" "{}" "[]" 20 30 (row ∷ [])

outbox_run-IsValid_example : IsValid (
    outbox_run (row ∷ []) (
      enqueues "operations.opportunity.v1" "k2" "{}" 20 ∷ fails "k1" "" 25 ∷ delivers "k2" 30 ∷ []))
outbox_run-IsValid_example =
    outbox_run-IsValid (row ∷ [])
      (enqueues "operations.opportunity.v1" "k2" "{}" 20 ∷ fails "k1" "" 25 ∷ delivers "k2" 30 ∷ [])
      (tt, inr (omega arith), tt)

-- The first row is refused, and the reply to the second is no object.
abbrev replying : Post
replying r = (50, if str_eq r.idempotency_key "k1" then failed "HTTPStatusError" else no_object)

abbrev second_row : Row
second_row = new_row "operations.opportunity.v1" "k2" "{}" 10

t_is_named : ◌≢◌ {A = String} "t" ""
t_is_named e = ground (arith, eq_iff "t" "")

dispatch_opportunities_once-SettledIn_example :
    let rows = row ∷ second_row ∷ row ∷ [] in
    let (d, finished) = dispatch_opportunities_once replying "t" 10 rows in
    let rs = due "operations.opportunity.v1" 50 10 rows in
    All (λ r. SettledIn 10 r.idempotency_key d.0) (reached replying rs)
    × (finished ≡ true → All (λ r. SettledIn 10 r.idempotency_key d.0) rs)
dispatch_opportunities_once-SettledIn_example =
    dispatch_opportunities_once-SettledIn replying "t" 10 (row ∷ second_row ∷ row ∷ []) t_is_named
      (λ r. omega arith)
