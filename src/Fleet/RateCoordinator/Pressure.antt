-- ===== src/Fleet/RateCoordinator/Pressure.antt =====
-- How floods move the pressure on the fleet (core/fleet_rate_coordinator.py).
use teleautomation_messaging.Prelude.{
  ℕ, zero, suc, ◌-◌, ◌≤◌, ◌<◌, ◌≡◌, refl, ◌∙◌, String, true, false, some, List, [], ◌∷◌, ◌++◌, ltb,
  leb, if◌then◌else◌, length, exists_in, str_eq, ◌+◌, lookup, insert, lookup-insert, Bool-cases,
  inl, inr, arith, eq_iff,
}
use teleautomation_messaging.Fleet.RateCoordinator.{
  FloodEvent, FleetRateCoordinator, fleet_window, event_ttl, prune, record_flood, add_once,
  accounts_since, recent_unique_accounts, pressure_of, fleet_pressure, delay_multiplier,
  flooded_since, account_recently_flooded,
}

-- What is pruned is older than what counts.
accounts_since-prune :
    (old cutoff : ℕ) (es : List FloodEvent) (seen : List String)
    → old ≤ cutoff
    → accounts_since cutoff (prune old es) seen ≡ accounts_since cutoff es seen
unfolding accounts_since prune
accounts_since-prune old cutoff [] seen h = refl
accounts_since-prune old cutoff (e ∷ es) seen h = elim (Bool-cases (ltb e.timestamp old)) [
  | inl stale ↦
      let unseen : leb cutoff e.timestamp ≡ false = ground arith in
      rw (stale, unseen) (accounts_since-prune old cutoff es seen h)
  | inr fresh ↦ rw (fresh, accounts_since) refl
]

accounts_since-append :
    (cutoff : ℕ) (es : List FloodEvent) (e : FloodEvent) (seen : List String)
    → accounts_since cutoff (es ++ e ∷ []) seen ≡ (
        if leb cutoff e.timestamp
        then add_once e.account_id (accounts_since cutoff es seen)
        else accounts_since cutoff es seen)
unfolding accounts_since
accounts_since-append cutoff [] e seen = refl
accounts_since-append cutoff (x ∷ es) e seen =
    accounts_since-append cutoff es e
      (if leb cutoff x.timestamp then add_once x.account_id seen else seen)

pressure_of-le : (m n : ℕ) → m ≤ n → pressure_of m ≤ pressure_of n
unfolding pressure_of
pressure_of-le m n h = ground arith

pressure_of-bound : (n : ℕ) → pressure_of n ≤ 100
unfolding pressure_of
pressure_of-bound n = ground arith

-- The flood counts as long as the window lasts.
record_flood-accounts :
    (account_id : String) (seconds now t : ℕ) (c : FleetRateCoordinator)
    → now ≤ t
    → t ≤ now + fleet_window
    → recent_unique_accounts fleet_window t (record_flood account_id seconds now c)
      ≡ add_once account_id (recent_unique_accounts fleet_window t c)
unfolding recent_unique_accounts record_flood
record_flood-accounts account_id seconds now t c after within =
    let recent : leb (t - fleet_window) now ≡ true = ground arith in
    accounts_since-prune (now - event_ttl) (t - fleet_window) _ [] (omega arith)
    ∙ accounts_since-append (t - fleet_window) c.flood_events _ []
    ∙ rw recent refl

flooded_since_then :
    (within now t : ℕ)
    → 0 < now
    → now ≤ t
    → t < now + within
    → flooded_since within t (some now) ≡ true
flooded_since_then within zero t started after soon = ground arith
flooded_since_then within (suc n) t started after soon = ground arith

record_flood-recently :
    (account_id : String) (seconds now t within : ℕ) (c : FleetRateCoordinator)
    → 0 < now
    → now ≤ t
    → t < now + within
    → account_recently_flooded account_id within t (record_flood account_id seconds now c) ≡ true
unfolding record_flood account_recently_flooded
record_flood-recently account_id seconds now t within c started after soon =
    let found : lookup account_id (insert account_id now c.account_last_flood) ≡ some now = ground (
      arith,
      lookup-insert account_id account_id now c.account_last_flood,
      eq_iff account_id account_id,
    ) in
    rw found (flooded_since_then within now t started after soon)

add_once-has : (x : String) (seen : List String) → exists_in (str_eq x) (add_once x seen) ≡ true
add_once-has x seen = ground (arith, eq_iff x x)

length-add_once :
    (x : String) (seen : List String)
    → (length seen ≤ length (add_once x seen)) × (0 < length (add_once x seen))
length-add_once x [] = ground arith
length-add_once x (y ∷ seen) = ground arith

pressure_of_some : (n : ℕ) → 0 < n → 12 ≤ pressure_of n
unfolding pressure_of
pressure_of_some n h = ground arith

-- A flood is noticed as long as the window lasts. Its account is among those that flooded, counts as
-- recently flooded for any span that has not passed, and the multiplier of all delays is then not
-- less than without the flood, and between 1.12 and 2. The clock is not at 0.
pub record_flood-delay_multiplier :
    (account_id : String) (seconds now t within : ℕ) (c : FleetRateCoordinator)
    → 0 < now
    → now ≤ t
    → t ≤ now + fleet_window
    → t < now + within
    → let c' = record_flood account_id seconds now c in
      (exists_in (str_eq account_id) (recent_unique_accounts fleet_window t c') ≡ true)
      × (account_recently_flooded account_id within t c' ≡ true)
      × (delay_multiplier t c ≤ delay_multiplier t c')
      × (112 ≤ delay_multiplier t c')
      × (delay_multiplier t c' ≤ 200)
unfolding delay_multiplier fleet_pressure account_recently_flooded
record_flood-delay_multiplier account_id seconds now t within c started after window soon =
    let before = recent_unique_accounts fleet_window t c in
    let (grows, some_account) = length-add_once account_id before in
    rw (record_flood-accounts account_id seconds now t c after window) (
      add_once-has account_id before,
      record_flood-recently account_id seconds now t within c started after soon,
      omega (arith, pressure_of-le (length before) (length (add_once account_id before)) grows),
      omega (arith, pressure_of_some (length (add_once account_id before)) some_account),
      omega (arith, pressure_of-bound (length (add_once account_id before))),
    )
