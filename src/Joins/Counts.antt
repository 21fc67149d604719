-- ===== src/Joins/Counts.antt =====
-- Counting timestamps in a window and on a day (core/join_cycle.py, _prune_recent).
use teleautomation_messaging.Prelude.{
  ℕ, ◌+◌, ◌<◌, ◌≤◌, ◌≡◌, refl, Bool, Option, none, some, List, [], ◌∷◌, ◌++◌, ◌==◌, if◌then◌else◌,
  keep, count_if, All, arith,
}
use teleautomation_messaging.Joins.{within, whole}

-- What was pruned at one time is out of the window at every later time.
pub count_if-keep-within :
    (w now t : ℕ) (xs : List ℕ)
    → now ≤ t
    → count_if (within w t) (keep (within w now) xs) ≡ count_if (within w t) xs
count_if-keep-within w now t [] h = refl
count_if-keep-within w now t (x ∷ xs) h = ground (arith, count_if-keep-within w now t xs h)

pub count_if-append_one :
    (p : ℕ → Bool) (xs : List ℕ) (x : ℕ)
    → count_if p (xs ++ x ∷ []) ≡ count_if p xs + (if p x then 1 else 0)
count_if-append_one p [] x = ground arith
count_if-append_one p (y ∷ ys) x = ground (arith, count_if-append_one p ys x)

-- No day after the last is counted.
pub count_if-later_day :
    (today : ℕ → ℕ) (last d : ℕ) (xs : List ℕ)
    → All (λ x. today x ≤ last) xs
    → last < d
    → count_if (λ x. today x == d) xs ≡ 0
count_if-later_day today last d [] h lt = refl
count_if-later_day today last d (x ∷ xs) h lt =
    ground (arith, count_if-later_day today last d xs h.1 lt)

pub All-day_mono :
    (today : ℕ → ℕ) (a b : ℕ) (xs : List ℕ)
    → All (λ x. today x ≤ a) xs
    → a ≤ b
    → All (λ x. today x ≤ b) xs
All-day_mono today a b [] h le = tt
All-day_mono today a b (x ∷ xs) h le = (omega arith, All-day_mono today a b xs h.1 le)

-- Each entry lies at least `gap` after the whole second of the one behind it.
abbrev pub IsSpaced : ℕ → List ℕ → Type 0
IsSpaced gap [] = Unit
IsSpaced gap (x ∷ []) = Unit
IsSpaced gap (x ∷ y ∷ r) = (whole y + gap ≤ x) × IsSpaced gap (y ∷ r)

-- The first entry, in whole seconds.
abbrev pub first_of : List ℕ → Option ℕ
first_of [] = none
first_of (x ∷ xs) = some (whole x)
