-- ===== src/Joins/Room.antt =====
-- An account that may join a group, and the state after the join (core/join_cycle.py, evaluate_join
-- and record_join_success).
use teleautomation_messaging.Prelude.{
  ℕ, ◌+◌, ◌<◌, ◌≤◌, ◌≡◌, refl, String, false, Option, none, some, List, [], ◌∷◌, ◌==◌, length,
  count_if, count_if-le, length-keep, length-append, All, arith, Bool-cases, inl, inr,
}
use teleautomation_messaging.Joins.{
  JoinConfig, JoinState, one_second, whole, within, prune_recent, reset_daily_if_needed, decide,
  allowed, record_join_success, is_too_soon, min_interval_for,
}
use teleautomation_messaging.Joins.Counts.{count_if-append_one, IsSpaced, first_of}
use teleautomation_messaging.Joins.Limits.{IsMonotone, IsLimited, reset-IsLimited, prune-IsLimited}

module _ (cfg : JoinConfig) where
  -- The state has room for one join at `at`.
  pub record HasRoom (at : ℕ) (s : JoinState) : Type 0 where
    pub daily : s.daily_new_joins < cfg.daily_limit
    pub in_window : length s.recent_new_join_ts < cfg.recent_max
    pub apart : is_too_soon at cfg.min_interval s.last_new_join_at ≡ false

  pub decide-HasRoom :
      (total now : ℕ) (group : String) (s : JoinState)
      → decide cfg total now group s ≡ allowed
      → HasRoom now s
  unfolding decide min_interval_for
  decide-HasRoom total now group s e = ground arith

  reset-date : (t : ℕ) (s : JoinState) → (reset_daily_if_needed cfg t s).daily_date ≡ cfg.today t
  unfolding reset_daily_if_needed
  reset-date t s = ground arith

  -- Room that was there stays, on a new day too.
  fresh_room :
      (at t : ℕ) (s : JoinState)
      → HasRoom at s
      → let s' = prune_recent cfg t (reset_daily_if_needed cfg t s) in
        (s'.daily_new_joins < cfg.daily_limit)
        × (length s'.recent_new_join_ts < cfg.recent_max)
        × (s'.daily_date ≡ cfg.today t)
  unfolding prune_recent reset_daily_if_needed
  fresh_room at t s h = ground (
    arith,
    h.daily,
    h.in_window,
    length-keep (within cfg.window t) s.recent_new_join_ts,
    count_if-le (within cfg.window t) s.recent_new_join_ts,
  )

  apart_by :
      (at t j : ℕ) (last : Option ℕ)
      → at ≤ t
      → ◌≡◌ {A = Option ℕ} (some (whole j)) last
      → one_second ≤ j
      → is_too_soon at cfg.min_interval last ≡ false
      → whole j + cfg.min_interval ≤ t
  apart_by at t j none le e p h = cc
  apart_by at t j (some l) le e p h = ground arith

  IsSpaced-cons :
      (at t : ℕ) (joins : List ℕ) (last : Option ℕ)
      → at ≤ t
      → first_of joins ≡ last
      → All (λ h. one_second ≤ h) joins
      → is_too_soon at cfg.min_interval last ≡ false
      → IsSpaced cfg.min_interval joins
      → IsSpaced cfg.min_interval (t ∷ joins)
  IsSpaced-cons at t [] last le e p h v = tt
  IsSpaced-cons at t (j ∷ []) last le e p h v =
      let apart : whole j + cfg.min_interval ≤ t = apart_by at t j last le e p.0 h in (apart, tt)
  IsSpaced-cons at t (j ∷ k ∷ r) last le e p h v =
      let apart : whole j + cfg.min_interval ≤ t = apart_by at t j last le e p.0 h in (apart, v)

  day-count :
      (t date daily d : ℕ) (joins : List ℕ)
      → date ≡ cfg.today t
      → count_if (λ h. cfg.today h == date) joins ≡ daily
      → daily < cfg.daily_limit
      → count_if (λ h. cfg.today h == d) joins ≤ cfg.daily_limit
      → count_if (λ h. cfg.today h == d) (t ∷ joins) ≤ cfg.daily_limit
  day-count t date daily d joins e c room old = elim (Bool-cases (cfg.today t == d)) [
    | inl same ↦
        let f : d ≡ date = ground arith in
        let c' : count_if (λ h. cfg.today h == d) joins ≡ daily = rw f c in rw same (omega arith)
    | inr other ↦ rw other old
  ]

  pub success-IsLimited :
      (at t : ℕ) (s : JoinState) (joins : List ℕ)
      → IsMonotone cfg.today
      → at ≤ t
      → one_second ≤ at
      → HasRoom at s
      → IsLimited cfg at s joins
      → IsLimited cfg t (record_join_success cfg t s) (t ∷ joins)
  unfolding record_join_success
  success-IsLimited at t s joins mono le pos room v =
      let s₁ = reset_daily_if_needed cfg t s in
      let s₂ = prune_recent cfg t s₁ in
      let w = prune-IsLimited cfg t s₁ joins (reset-IsLimited cfg at t s joins mono le v) in
      let (daily, in_window, date) = fresh_room at t s room in
      let size = length-append {0} s₂.recent_new_join_ts (t ∷ []) in
      record {
        daily = omega (arith, daily);
        in_window = omega (arith, in_window, size);
        seen = λ u h.
            ground (
              arith,
              w.seen u h,
              count_if-append_one (within cfg.window u) s₂.recent_new_join_ts t,
            );
        last = refl;
        after_zero = (omega arith, v.after_zero);
        spaced =
            IsSpaced-cons at t joins s.last_new_join_at le v.last v.after_zero room.apart v.spaced;
        date = omega (arith, date);
        days = (omega (arith, date), w.days);
        counted = ground (arith, w.counted, date);
        each_day = λ d.
            day-count t s₂.daily_date s₂.daily_new_joins d joins date w.counted daily
              (w.each_day d);
      }
