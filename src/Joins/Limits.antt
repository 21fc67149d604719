-- ===== src/Joins/Limits.antt =====
-- How many groups an account joins, however often it tries (core/join_cycle.py,
-- features/group_operation.py).
use teleautomation_messaging.Prelude.{
  ℕ, ◌<◌, ◌≤◌, ◌≡◌, sym, ◌∙◌, List, ◌==◌, length, count_if, count_if-le, length-keep, All, arith,
  Bool-cases, inl, inr,
}
use teleautomation_messaging.Joins.{
  JoinConfig, JoinState, one_second, within, prune_recent, reset_daily_if_needed,
}
use teleautomation_messaging.Joins.Counts.{
  count_if-keep-within, count_if-later_day, All-day_mono, IsSpaced, first_of,
}

-- Days do not go back.
abbrev pub IsMonotone : (ℕ → ℕ) → Type 0
IsMonotone today = (a b : ℕ) → a ≤ b → today a ≤ today b

module _ (cfg : JoinConfig) where
  -- What the state says of the joins so far, and the limits that they keep.
  pub record IsLimited (now : ℕ) (s : JoinState) (joins : List ℕ) : Type 0 where
    pub daily : s.daily_new_joins ≤ cfg.daily_limit
    pub in_window : length s.recent_new_join_ts ≤ cfg.recent_max
    pub seen :
        (t : ℕ)
        → now ≤ t
        → count_if (within cfg.window t) joins ≡ count_if (within cfg.window t) s.recent_new_join_ts
    pub last : first_of joins ≡ s.last_new_join_at
    pub after_zero : All (λ h. one_second ≤ h) joins
    pub spaced : IsSpaced cfg.min_interval joins
    pub date : s.daily_date ≤ cfg.today now
    pub days : All (λ h. cfg.today h ≤ s.daily_date) joins
    pub counted : count_if (λ h. cfg.today h == s.daily_date) joins ≡ s.daily_new_joins
    pub each_day : (d : ℕ) → count_if (λ h. cfg.today h == d) joins ≤ cfg.daily_limit

  pub later-IsLimited :
      (now t : ℕ) (s : JoinState) (joins : List ℕ)
      → IsMonotone cfg.today
      → now ≤ t
      → IsLimited now s joins
      → IsLimited t s joins
  later-IsLimited now t s joins mono le v = record {
    daily = v.daily;
    in_window = v.in_window;
    seen = λ u h. v.seen u (omega arith);
    last = v.last;
    after_zero = v.after_zero;
    spaced = v.spaced;
    date = omega (arith, v.date, mono now t le);
    days = v.days;
    counted = v.counted;
    each_day = v.each_day;
  }

  pub reset-IsLimited :
      (now t : ℕ) (s : JoinState) (joins : List ℕ)
      → IsMonotone cfg.today
      → now ≤ t
      → IsLimited now s joins
      → IsLimited t (reset_daily_if_needed cfg t s) joins
  unfolding reset_daily_if_needed
  reset-IsLimited now t s joins mono le v = elim (Bool-cases (s.daily_date == cfg.today t)) [
    | inl e ↦ rw (e, reset_daily_if_needed) (later-IsLimited now t s joins mono le v)
    | inr n ↦
        let later : s.daily_date < cfg.today t = ground (arith, mono now t le, v.date) in
        rw (n, reset_daily_if_needed)
          (record {
            daily = omega arith;
            in_window = v.in_window;
            seen = λ u h. v.seen u (omega arith);
            last = v.last;
            after_zero = v.after_zero;
            spaced = v.spaced;
            date = omega arith;
            days = All-day_mono cfg.today s.daily_date (cfg.today t) joins v.days (omega arith);
            counted = count_if-later_day cfg.today s.daily_date (cfg.today t) joins v.days later;
            each_day = v.each_day;
          })
  ]

  pub prune-IsLimited :
      (now : ℕ) (s : JoinState) (joins : List ℕ)
      → IsLimited now s joins
      → IsLimited now (prune_recent cfg now s) joins
  unfolding prune_recent
  prune-IsLimited now s joins v = record {
    daily = v.daily;
    in_window = omega (
      arith,
      v.in_window,
      length-keep (within cfg.window now) s.recent_new_join_ts,
      count_if-le (within cfg.window now) s.recent_new_join_ts,
    );
    seen = λ t h. v.seen t h ∙ sym (count_if-keep-within cfg.window now t s.recent_new_join_ts h);
    last = v.last;
    after_zero = v.after_zero;
    spaced = v.spaced;
    date = v.date;
    days = v.days;
    counted = v.counted;
    each_day = v.each_day;
  }

  -- Recording an attempt or a restriction leaves all that the limits read.
  abbrev pub SameJoins : JoinState → JoinState → Type 0
  SameJoins s s' =
      (s'.daily_date ≡ s.daily_date)
      × (s'.daily_new_joins ≡ s.daily_new_joins)
      × (s'.recent_new_join_ts ≡ s.recent_new_join_ts)
      × (s'.last_new_join_at ≡ s.last_new_join_at)

  pub same-IsLimited :
      (now : ℕ) (s s' : JoinState) (joins : List ℕ)
      → SameJoins s s'
      → IsLimited now s joins
      → IsLimited now s' joins
  same-IsLimited now s s' joins (d, n, r, l) v = record {
    daily = rw n v.daily;
    in_window = rw r v.in_window;
    seen = rw r v.seen;
    last = rw l v.last;
    after_zero = v.after_zero;
    spaced = v.spaced;
    date = rw d v.date;
    days = rw d v.days;
    counted = rw (d, n) v.counted;
    each_day = v.each_day;
  }
