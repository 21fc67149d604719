-- ===== src/Observability/Alerts.antt =====
-- core/observability/alerts.py: the last alerts of each account. Messages and extra data are not
-- modelled.
use teleautomation_messaging.Prelude.{
  ℕ, zero, suc, ◌≤◌, ◌≡◌, String, Option, none, some, List, [], ◌∷◌, ◌++◌, Dict, lookup, insert,
  lookup-insert, str_eq, if◌then◌else◌, leb, length, take_last, length-take_last, All, arith,
  eq_iff, Bool-cases, inl, inr,
}

pub record AlertEntry : Type 0 where
  pub account_id : String
  pub level : String
  pub code : String
  pub ts : ℕ

abbrev pub AlertStore : Type 0
AlertStore = Dict (List AlertEntry)

abbrev pub max_alerts_per_account : ℕ
max_alerts_per_account = 50

abbrev or_empty : Option (List AlertEntry) → List AlertEntry
or_empty none = []
or_empty (some ring) = ring

unfoldable pub for_account : AlertStore → String → List AlertEntry
for_account store id = or_empty (lookup id store)

-- `deque(maxlen=50).append`
abbrev ring_append : List AlertEntry → AlertEntry → List AlertEntry
ring_append ring e = take_last max_alerts_per_account (ring ++ e ∷ [])

unfoldable pub push_alert : String → String → String → ℕ → AlertStore → AlertStore
push_alert id level code now store =
    insert id
      (ring_append (for_account store id)
        (record { account_id = id; level = level; code = code; ts = now }))
      store

-- `xs[-n:]`: at n = 0 that is the whole list.
abbrev slice_last {ℓ} : {A : Type ℓ} → ℕ → List A → List A
slice_last zero xs = xs
slice_last (suc n) xs = take_last (suc n) xs

take {ℓ} : {A : Type ℓ} → ℕ → List A → List A
take zero xs = []
take (suc n) [] = []
take (suc n) (x ∷ xs) = x ∷ take n xs

-- Insertion into a list that is sorted by falling `ts`, behind its equals.
insert_by_ts : AlertEntry → List AlertEntry → List AlertEntry
insert_by_ts e [] = e ∷ []
insert_by_ts e (x ∷ xs) = if leb e.ts x.ts then x ∷ insert_by_ts e xs else e ∷ x ∷ xs

-- `sort(key=ts, reverse=True)`, which is stable.
sort_from : List AlertEntry → List AlertEntry → List AlertEntry
sort_from sorted [] = sorted
sort_from sorted (e ∷ es) = sort_from (insert_by_ts e sorted) es

gather : ℕ → AlertStore → List AlertEntry
gather limit [] = []
gather limit ((id, ring) ∷ store) = slice_last limit ring ++ gather limit store

recent_of_all : AlertStore → ℕ → List AlertEntry
unfolding take sort_from insert_by_ts gather
recent_of_all store limit = take limit (sort_from [] (gather limit store))

-- `recent(account_id, limit)`: without an account, or with an empty name, over all accounts.
unfoldable pub recent : AlertStore → Option String → ℕ → List AlertEntry
unfolding recent_of_all
recent store (some id) limit =
    if str_eq id "" then recent_of_all store limit else slice_last limit (for_account store id)
recent store none limit = recent_of_all store limit

abbrev pub Ring : List AlertEntry → Type 0
Ring ring = length ring ≤ max_alerts_per_account

-- Pushing an alert makes it the newest of its account, whose ring never holds more than fifty, and
-- leaves the other accounts' rings as they were.
pub for_account-push_alert :
    (id other level code : String) (now : ℕ) (store : AlertStore)
    → (for_account (push_alert id level code now store) other ≡ (
        if str_eq id other
        then take_last 50 (
            for_account store id
            ++ record { account_id = id; level = level; code = code; ts = now } ∷ [])
        else for_account store other))
      × (Ring (for_account (push_alert id level code now store) id))
unfolding push_alert for_account
for_account-push_alert id other level code now store = ground (
  arith,
  lookup-insert id other
      (ring_append (for_account store id)
        (record { account_id = id; level = level; code = code; ts = now }))
      store,
  lookup-insert id id
      (ring_append (for_account store id)
        (record { account_id = id; level = level; code = code; ts = now }))
      store,
  eq_iff id other,
  eq_iff id id,
  length-take_last 50 (
      for_account store id
      ++ record { account_id = id; level = level; code = code; ts = now } ∷ []),
)

abbrev pub Newest : List AlertEntry → Type 0
Newest [] = Unit
Newest (x ∷ xs) = All (λ y. y.ts ≤ x.ts) xs × Newest xs

insert_by_ts-All :
    (n : ℕ) (e : AlertEntry) (xs : List AlertEntry)
    → e.ts ≤ n
    → All (λ y. y.ts ≤ n) xs
    → All (λ y. y.ts ≤ n) (insert_by_ts e xs)
unfolding insert_by_ts
insert_by_ts-All n e [] h hs = (h, tt)
insert_by_ts-All n e (x ∷ xs) h hs = ground (arith, insert_by_ts-All n e xs h hs.1)

All-le_trans :
    (m n : ℕ) (xs : List AlertEntry) → m ≤ n → All (λ y. y.ts ≤ m) xs → All (λ y. y.ts ≤ n) xs
All-le_trans m n [] h hs = tt
All-le_trans m n (x ∷ xs) h hs = (omega arith, All-le_trans m n xs h hs.1)

insert_by_ts-Newest :
    (e : AlertEntry) (xs : List AlertEntry) → Newest xs → Newest (insert_by_ts e xs)
unfolding insert_by_ts
insert_by_ts-Newest e [] h = (tt, tt)
insert_by_ts-Newest e (x ∷ xs) h = elim (Bool-cases (leb e.ts x.ts)) [
  | inl late ↦ rw late (insert_by_ts-All x.ts e xs (ground arith) h.0, insert_by_ts-Newest e xs h.1)
  | inr early ↦
      let lt : x.ts ≤ e.ts = ground arith in rw early ((lt, All-le_trans x.ts e.ts xs lt h.0), h)
]

sort_from-Newest : (sorted es : List AlertEntry) → Newest sorted → Newest (sort_from sorted es)
unfolding sort_from
sort_from-Newest sorted [] h = h
sort_from-Newest sorted (e ∷ es) h =
    sort_from-Newest (insert_by_ts e sorted) es (insert_by_ts-Newest e sorted h)

take-All :
    (n m : ℕ) (xs : List AlertEntry) → All (λ y. y.ts ≤ m) xs → All (λ y. y.ts ≤ m) (take n xs)
unfolding take
take-All zero m xs h = tt
take-All (suc n) m [] h = tt
take-All (suc n) m (x ∷ xs) h = (h.0, take-All n m xs h.1)

take-Newest :
    (n : ℕ) (xs : List AlertEntry) → Newest xs → (Newest (take n xs)) × (length (take n xs) ≤ n)
unfolding take
take-Newest zero xs h = (tt, omega arith)
take-Newest (suc n) [] h = (tt, omega arith)
take-Newest (suc n) (x ∷ xs) h =
    let r = take-Newest n xs h.1 in ((take-All n x.ts xs h.0, r.0), omega (arith, r.1))

-- The alerts of all accounts come newest first, no more than were asked for.
pub recent-Newest :
    (store : AlertStore) (limit : ℕ)
    → (Newest (recent store none limit)) × (length (recent store none limit) ≤ limit)
unfolding recent recent_of_all
recent-Newest store limit = take-Newest limit _ (sort_from-Newest [] (gather limit store) tt)
