-- ===== src/Tests/Fleets.antt =====
-- The distribution of groups over accounts (core/group_assignment.py) and the pressure on the fleet
-- (core/fleet_rate_coordinator.py).
use teleautomation_messaging.Prelude.{
  ◌≤◌, true, arith, ◌≡◌, refl, String, Bool, not, List, [], ◌∷◌, str_eq, count_if, exists_in,
}
use teleautomation_messaging.Fleet.Assignment.{
  active_slots, partition_slots, share, groups_for_slot,
}
use teleautomation_messaging.Fleet.RateCoordinator.{
  FleetRateCoordinator, fleet_pressure, pressure_of, recent_unique_accounts, accounts_since,
  record_flood, account_recently_flooded, delay_multiplier,
}
use teleautomation_messaging.Fleet.RateCoordinator.Pressure.{record_flood-delay_multiplier}
use teleautomation_messaging.Fleet.Assignment.Partition.{total, groups_for_slot-total}

abbrev slots : List String
slots = "a" ∷ "b" ∷ "c" ∷ []

-- Account "b" is logged out.
abbrev logged_in : String → Bool
logged_in s = not (str_eq s "b")

abbrev master : List String
master = "g1" ∷ "g2" ∷ "g3" ∷ []

a_share : groups_for_slot slots logged_in "a" master ≡ "g1" ∷ "g3" ∷ []
unfolding groups_for_slot partition_slots active_slots share
a_share = refl

groups_for_slot-total_example :
    total (λ slot. count_if (str_eq "g3") (groups_for_slot slots logged_in slot master)) slots
    ≡ count_if (str_eq "g3") master
groups_for_slot-total_example =
    groups_for_slot-total slots logged_in "g3" master ((refl, (refl, tt)), ((refl, tt), (tt, tt)))
      refl

-- Two accounts were flooded within the window, a third long before.
abbrev coordinator : FleetRateCoordinator
coordinator = record {
  flood_events =
      record { account_id = "c"; timestamp = 500; seconds = 30 }
      ∷ record { account_id = "a"; timestamp = 1000; seconds = 30 }
      ∷ record { account_id = "b"; timestamp = 1100; seconds = 60 }
      ∷ [];
  account_last_flood = ("c", 500) ∷ ("a", 1000) ∷ ("b", 1100) ∷ [];
}

two_flooded : fleet_pressure 1200 coordinator ≡ 25
unfolding fleet_pressure recent_unique_accounts accounts_since pressure_of
two_flooded = refl

record_flood-delay_multiplier_example :
    let c = record_flood "d" 20 1200 coordinator in
    (exists_in (str_eq "d") (recent_unique_accounts 300 1300 c) ≡ true)
    × (account_recently_flooded "d" 120 1300 c ≡ true)
    × (delay_multiplier 1300 coordinator ≤ delay_multiplier 1300 c)
    × (112 ≤ delay_multiplier 1300 c)
    × (delay_multiplier 1300 c ≤ 200)
record_flood-delay_multiplier_example =
    record_flood-delay_multiplier "d" 20 1200 1300 120 coordinator (omega arith) (omega arith)
      (omega arith) (omega arith)
