-- ===== src/Fleet/Assignment.antt =====
-- core/group_assignment.py: which groups of the master list an account posts to. `slots` are the
-- configured accounts, and `logged_in` says which have a saved login on disk.
pub mod Partition
pub mod Balance
use teleautomation_messaging.Prelude.{
  ℕ, zero, suc, ◌%◌, max, String, Bool, true, false, not, List, [], ◌∷◌, ◌==◌, str_eq,
  if◌then◌else◌, length, exists_in, keep,
}

-- `xs.index(x)`, of a list that has `x`.
abbrev pub index_of : String → List String → ℕ
index_of x [] = 0
index_of x (y ∷ ys) = if str_eq y x then 0 else suc (index_of x ys)

-- `slot_index`: a slot that is not configured counts as the first.
unfoldable pub slot_index : List String → String → ℕ
slot_index slots slot = if exists_in (str_eq slot) slots then index_of slot slots else 0

-- `account_count`
unfoldable pub account_count : List String → ℕ
account_count slots = max 1 (length slots)

unfoldable pub active_slots : List String → (String → Bool) → List String
active_slots slots logged_in = keep logged_in slots

abbrev or_all : List String → List String → List String
or_all slots [] = slots
or_all slots (s ∷ actives) = s ∷ actives

-- `_partition_slots()`
unfoldable pub partition_slots : List String → (String → Bool) → List String
partition_slots slots logged_in = or_all slots (active_slots slots logged_in)

-- `[g for i, g in enumerate(master) if i % n == idx]`, from index `i` on.
unfoldable pub share : ℕ → ℕ → ℕ → List String → List String
share n idx i [] = []
share n idx i (g ∷ gs) = if i % n == idx then g ∷ share n idx (suc i) gs else share n idx (suc i) gs

unfoldable pub groups_for_slot : List String → (String → Bool) → String → List String → List String
groups_for_slot slots logged_in slot [] = []
groups_for_slot slots logged_in slot (g ∷ gs) =
    if not (logged_in slot)
    then []
    else let parts = partition_slots slots logged_in in
      if not (exists_in (str_eq slot) parts)
      then []
      else share (max 1 (length parts)) (index_of slot parts) 0 (g ∷ gs)
