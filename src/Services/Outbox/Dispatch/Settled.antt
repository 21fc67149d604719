-- ===== src/Services/Outbox/Dispatch/Settled.antt =====
-- What is left of the rows that were due (services/opportunity_event_producer.py,
-- dispatch_opportunities_once, with services/cross_project_outbox.py).
use teleautomation_messaging.Prelude.{
  ℕ, suc, ◌+◌, ◌*◌, ◌≤◌, ◌≡◌, ◌≢◌, ◌⊎◌, refl, sym, ◌∙◌, ap, subst, String, Bool, true, false,
  if◌then◌else◌, some, List, [], ◌∷◌, str_eq, All, All-map, Bool-cases, inl, inr, arith, eq_iff,
}
use teleautomation_messaging.Services.Outbox.{
  is_pending, Row, has_key, find, second, due_from, due, change_first, delivered_row,
  mark_delivered, failed_row, mark_failed,
}
use teleautomation_messaging.Services.Outbox.Backoff.{failed_row_bounds, find-change_first}
use teleautomation_messaging.Services.Outbox.Dispatch.{
  PostReply, accepted, no_object, failed, uncaught, Post, Delivery, deliver_one, deliver_all,
  dispatch_opportunities_once,
}

-- A row that is not due for two seconds from `now` on, if ever.
abbrev pub IsSettled : ℕ → Row → Type 0
IsSettled now r = (is_pending r.status ≡ false) ⊎ (now + 2 * second ≤ r.next_attempt_at)

-- The row with a key is settled.
abbrev pub SettledIn : ℕ → String → List Row → Type 0
SettledIn now key rows = (r : Row) × (find key rows ≡ some r) × IsSettled now r

abbrev KnownIn : String → List Row → Type 0
KnownIn key rows = (r : Row) × (find key rows ≡ some r)

change_first-find :
    (f : Row → Row) (key other : String) (rows : List Row) (r : Row)
    → ((x : Row) → (f x).idempotency_key ≡ x.idempotency_key)
    → find other rows ≡ some r
    → (find other (change_first f key rows) ≡ some r)
      ⊎ (find other (change_first f key rows) ≡ some (f r))
unfolding find change_first
change_first-find f key other [] r same h = inl h
change_first-find f key other (x ∷ rows) r same h =
    ground (arith, same x, change_first-find f key other rows r same)

module _ (now : ℕ) (f : Row → Row) (same : (x : Row) → (f x).idempotency_key ≡ x.idempotency_key)
    (settles : (x : Row) → IsSettled now (f x)) where
  settled-own :
      (key : String) (rows : List Row)
      → KnownIn key rows
      → SettledIn now key (change_first f key rows)
  settled-own key rows (r, found) = (f r, find-change_first f key rows r same found, settles r)

  settled-still :
      (key other : String) (rows : List Row)
      → SettledIn now other rows
      → SettledIn now other (change_first f key rows)
  settled-still key other rows (r, found, s) =
      elim (change_first-find f key other rows r same found) [
        | inl e ↦ (r, e, s)
        | inr e ↦ (f r, e, settles r)
      ]

  known-still :
      (key other : String) (rows : List Row)
      → KnownIn other rows
      → KnownIn other (change_first f key rows)
  known-still key other rows (r, found) = elim (change_first-find f key other rows r same found) [
    | inl e ↦ (r, e)
    | inr e ↦ (f r, e)
  ]

failed_row-IsSettled :
    (error : String) (now t : ℕ) (r : Row) → now ≤ t → IsSettled now (failed_row error t r)
failed_row-IsSettled error now t r later = elim (failed_row_bounds error t r) [
  | inl given_up ↦ inl (rw given_up.1 refl)
  | inr waits ↦ inr (omega (arith, waits.2))
]

-- Whether a reply settles its row, and whether the round goes on after it.
abbrev pub settles : PostReply → Bool
settles (accepted opportunity) = true
settles no_object = true
settles (failed error) = true
settles uncaught = false

abbrev pub goes_on : PostReply → Bool
goes_on (accepted opportunity) = true
goes_on no_object = false
goes_on (failed error) = true
goes_on uncaught = false

goes_on-settles : (p : PostReply) → goes_on p ≡ true → settles p ≡ true
goes_on-settles (accepted opportunity) h = refl
goes_on-settles no_object h = refl
goes_on-settles (failed error) h = refl
goes_on-settles uncaught h = cc

-- The rows up to the first reply that breaks the round.
abbrev pub reached : Post → List Row → List Row
reached post [] = []
reached post (r ∷ rs) =
    let rest = reached post rs in
    if settles (post r).1 then r ∷ (if goes_on (post r).1 then rest else []) else []

deliver_one-goes_on :
    (r : Row) (reply : ℕ × PostReply) (d : Delivery) → (deliver_one r reply d).1 ≡ goes_on reply.1
unfolding deliver_one
deliver_one-goes_on r (t, accepted opportunity) (rows, results) = refl
deliver_one-goes_on r (t, no_object) (rows, results) = refl
deliver_one-goes_on r (t, failed error) (rows, results) = refl
deliver_one-goes_on r (t, uncaught) (rows, results) = refl

-- What a delivery leaves, of keys that were known or settled, where it settles its own.
abbrev Delivers : ℕ → String → Bool → List Row → List Row → Type 0
Delivers now key settled rows rows' =
    (settled ≡ true → KnownIn key rows → SettledIn now key rows')
    × ((other : String) → SettledIn now other rows → SettledIn now other rows')
    × ((other : String) → KnownIn other rows → KnownIn other rows')

changed-Delivers :
    (now : ℕ) (f : Row → Row) (key : String) (rows : List Row)
    → ((x : Row) → (f x).idempotency_key ≡ x.idempotency_key)
    → ((x : Row) → IsSettled now (f x))
    → Delivers now key true rows (change_first f key rows)
changed-Delivers now f key rows same done = (
  λ h. settled-own now f same done key rows,
  λ other. settled-still now f same done key other rows,
  λ other. known-still now f same done key other rows,
)

deliver_one-Delivers :
    (now : ℕ) (r : Row) (reply : ℕ × PostReply) (d : Delivery)
    → now ≤ reply.0
    → Delivers now r.idempotency_key (settles reply.1) d.0 (deliver_one r reply d).0.0
unfolding deliver_one mark_delivered mark_failed
deliver_one-Delivers now r (t, accepted opportunity) (rows, results) later =
    changed-Delivers now (delivered_row t) r.idempotency_key rows (λ x. refl) (λ x. inl refl)
deliver_one-Delivers now r (t, no_object) (rows, results) later =
    changed-Delivers now (delivered_row t) r.idempotency_key rows (λ x. refl) (λ x. inl refl)
deliver_one-Delivers now r (t, failed error) (rows, results) later =
    changed-Delivers now (failed_row error t) r.idempotency_key rows (λ x. ground arith)
      (λ x. failed_row-IsSettled error now t x later)
deliver_one-Delivers now r (t, uncaught) (rows, results) later =
    (λ h. cc, λ other h. h, λ other h. h)

deliver_all-on :
    (post : Post) (r : Row) (rs : List Row) (d : Delivery)
    → (deliver_one r (post r) d).1 ≡ true
    → deliver_all post (r ∷ rs) d ≡ deliver_all post rs (deliver_one r (post r) d).0
unfolding deliver_all
deliver_all-on post r rs d e = rw e refl

deliver_all-off :
    (post : Post) (r : Row) (rs : List Row) (d : Delivery)
    → (deliver_one r (post r) d).1 ≡ false
    → deliver_all post (r ∷ rs) d ≡ ((deliver_one r (post r) d).0, false)
unfolding deliver_all
deliver_all-off post r rs d e = rw e refl

module _ (now : ℕ) (post : Post) (later : (r : Row) → now ≤ (post r).0) where
  deliver_all-keeps :
      (rs : List Row) (d : Delivery) (key : String)
      → SettledIn now key d.0
      → SettledIn now key (deliver_all post rs d).0.0
  unfolding deliver_all
  deliver_all-keeps [] d key h = h
  deliver_all-keeps (r ∷ rs) d key h =
      let d' = deliver_one r (post r) d in
      let kept = (deliver_one-Delivers now r (post r) d (later r)).1 key h in
      let rest = deliver_all-keeps rs d'.0 key kept in
      elim (Bool-cases d'.1) [ inl on ↦ rw on rest | inr off ↦ rw off kept ]

  deliver_all-settles :
      (rs : List Row) (d : Delivery)
      → All (λ r. KnownIn r.idempotency_key d.0) rs
      → All (λ r. SettledIn now r.idempotency_key (deliver_all post rs d).0.0) (reached post rs)
  deliver_all-settles [] d h = tt
  deliver_all-settles (r ∷ rs) d h =
      let d' = deliver_one r (post r) d in
      let (own, still, known) = deliver_one-Delivers now r (post r) d (later r) in
      let rest =
        deliver_all-settles rs d'.0 (
          All-map {P = λ s. KnownIn s.idempotency_key d.0} (λ s. known s.idempotency_key) rs h.1) in
      let goes = deliver_one-goes_on r (post r) d in
      let Settles : Delivery × Bool → Type 0 =
        λ o. All (λ x. SettledIn now x.idempotency_key o.0.0) (reached post (r ∷ rs)) in
      elim (Bool-cases (goes_on (post r).1)) [
        | inl on ↦
            let s = goes_on-settles (post r).1 on in
            subst Settles (sym (deliver_all-on post r rs d (goes ∙ on)))
              (rw (on, s) (deliver_all-keeps rs d'.0 r.idempotency_key (own s h.0), rest))
        | inr off ↦ elim (Bool-cases (settles (post r).1)) [
          | inl s ↦
              subst Settles (sym (deliver_all-off post r rs d (goes ∙ off)))
                (rw (off, s) (own s h.0, tt))
          | inr s ↦ rw s tt
        ]
      ]

reached-all :
    (post : Post) (rs : List Row) (d : Delivery)
    → (deliver_all post rs d).1 ≡ true
    → reached post rs ≡ rs
unfolding deliver_all
reached-all post [] d e = refl
reached-all post (r ∷ rs) d e =
    let d' = deliver_one r (post r) d in
    let goes = deliver_one-goes_on r (post r) d in
    elim (Bool-cases (goes_on (post r).1)) [
      | inl on ↦
          let e' : (deliver_all post rs d'.0).1 ≡ true = ground (arith, goes, on) in
          rw (on, goes_on-settles (post r).1 on) (ap (λ t. r ∷ t) (reached-all post rs d'.0 e'))
      | inr off ↦ absurd (ground (arith, goes, off))
    ]

known_behind :
    (r : Row) (key : String) (rows : List Row) → KnownIn key rows → KnownIn key (r ∷ rows)
unfolding find
known_behind r key rows (x, found) = elim (Bool-cases (has_key key r)) [
  | inl e ↦ (r, rw e refl)
  | inr e ↦ (x, rw e found)
]

-- Each row of the outbox is found under its key, it or one before it.
found_itself : (rows : List Row) → All (λ r. KnownIn r.idempotency_key rows) rows
unfolding find
found_itself [] = tt
found_itself (r ∷ rows) = (
  (r, ground (arith, eq_iff r.idempotency_key r.idempotency_key)),
  All-map {P = λ s. KnownIn s.idempotency_key rows} (λ s h. known_behind r s.idempotency_key rows h)
      rows (found_itself rows),
)

due_from-All :
    (P : Row → Type 0) (event_type : String) (limit now n : ℕ) (rows : List Row)
    → All P rows
    → All P (due_from event_type limit now n rows)
unfolding due_from
due_from-All P event_type limit now n [] h = tt
due_from-All P event_type limit now n (r ∷ rows) h = ground (
  arith,
  due_from-All P event_type limit now n rows h.1,
  due_from-All P event_type limit now (suc n) rows h.1,
)

-- A round of the dispatcher takes the first fifty rows that are due. Each row up to the first reply
-- that breaks the round is settled after it: it is delivered, or given up, or waits for two seconds
-- at least. A body that is no object breaks the round after its own row, an error that is not caught
-- before it. If no exception leaves the round, all the fifty are settled. There is a token, and the
-- replies come no earlier than the round began.
pub dispatch_opportunities_once-SettledIn :
    (post : Post) (token : String) (now : ℕ) (rows : List Row)
    → token ≢ ""
    → ((r : Row) → now ≤ (post r).0)
    → let (d, finished) = dispatch_opportunities_once post token now rows in
      let rs = due "operations.opportunity.v1" 50 now rows in
      All (λ r. SettledIn now r.idempotency_key d.0) (reached post rs)
      × (finished ≡ true → All (λ r. SettledIn now r.idempotency_key d.0) rs)
unfolding dispatch_opportunities_once
dispatch_opportunities_once-SettledIn post token now rows named later =
    let has_token : str_eq token "" ≡ false = ground (arith, eq_iff token "") in
    let rs = due "operations.opportunity.v1" 50 now rows in
    let known : All (λ r. KnownIn r.idempotency_key rows) rs =
      unfold due in
      due_from-All (λ r. KnownIn r.idempotency_key rows) "operations.opportunity.v1" 50 now 0 rows
        (found_itself rows) in
    let d = deliver_all post rs (rows, []) in
    let settled = deliver_all-settles now post later rs (rows, []) known in
    rw has_token (
      settled,
      λ end.
          subst (All (λ r. SettledIn now r.idempotency_key d.0.0))
            (reached-all post rs (rows, []) end) settled,
    )
