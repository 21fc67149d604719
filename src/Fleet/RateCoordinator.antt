-- ===== src/Fleet/RateCoordinator.antt =====
-- core/fleet_rate_coordinator.py: the flood events of all accounts, and the pressure that they make.
-- Time is a number of seconds; pressures are hundredths, stagger delays thousandths of a second.
pub mod Pressure
use teleautomation_messaging.Prelude.{
  ℕ, zero, suc, ◌+◌, ◌-◌, ◌*◌, min, String, Bool, true, false, Option, none, some, List, [], ◌∷◌,
  ◌++◌, ltb, leb, ◌==◌, str_eq, if◌then◌else◌, length, exists_in, Dict, lookup, insert,
}

pub record FloodEvent : Type 0 where
  pub account_id : String
  pub timestamp : ℕ
  pub seconds : ℕ

pub record FleetRateCoordinator : Type 0 where
  pub flood_events : List FloodEvent
  pub account_last_flood : Dict ℕ

abbrev pub fleet_window : ℕ
fleet_window = 300

abbrev pub event_ttl : ℕ
event_ttl = 600

-- `_prune_unlocked`, with `cutoff = now - FLEET_FLOOD_EVENT_TTL`
unfoldable pub prune : ℕ → List FloodEvent → List FloodEvent
prune cutoff [] = []
prune cutoff (e ∷ es) = if ltb e.timestamp cutoff then prune cutoff es else e ∷ es

unfoldable pub record_flood :
    String → (seconds now : ℕ) → FleetRateCoordinator → FleetRateCoordinator
record_flood account_id seconds now c = record {
  flood_events = prune (now - event_ttl) (
      c.flood_events
      ++ record { account_id = account_id; timestamp = now; seconds = seconds } ∷ []);
  account_last_flood = insert account_id now c.account_last_flood;
}

-- A set of texts, as a list without repetitions.
abbrev pub add_once : String → List String → List String
add_once x seen = if exists_in (str_eq x) seen then seen else x ∷ seen

-- `{e.account_id for e in self._events if e.timestamp >= cutoff}`, added to a set.
unfoldable pub accounts_since : ℕ → List FloodEvent → List String → List String
accounts_since cutoff [] seen = seen
accounts_since cutoff (e ∷ es) seen =
    accounts_since cutoff es (if leb cutoff e.timestamp then add_once e.account_id seen else seen)

unfoldable pub recent_unique_accounts : ℕ → ℕ → FleetRateCoordinator → List String
recent_unique_accounts window now c = accounts_since (now - window) c.flood_events []

unfoldable pub pressure_of : ℕ → ℕ
pressure_of n =
    if leb 6 n
    then 100
    else if leb 3 n
    then 65 + 5 * min (n - 3) 6
    else if leb 2 n
    then 25 + 10 * (n - 2)
    else if n == 1
    then 12
    else 0

unfoldable pub fleet_pressure : ℕ → FleetRateCoordinator → ℕ
fleet_pressure now c = pressure_of (length (recent_unique_accounts fleet_window now c))

unfoldable pub delay_multiplier : ℕ → FleetRateCoordinator → ℕ
delay_multiplier now c = 100 + fleet_pressure now c

unfoldable pub should_stagger_account : (slot_index now : ℕ) → FleetRateCoordinator → ℕ
should_stagger_account slot_index now c =
    let p = fleet_pressure now c in if ltb p 20 then 0 else min 30000 (slot_index * 4 * p)

abbrev flooded_since : ℕ → ℕ → Option ℕ → Bool
flooded_since within now none = false
flooded_since within now (some zero) = false
flooded_since within now (some (suc t)) = ltb (now - suc t) within

unfoldable pub account_recently_flooded : String → (within now : ℕ) → FleetRateCoordinator → Bool
account_recently_flooded account_id within now c =
    flooded_since within now (lookup account_id c.account_last_flood)
