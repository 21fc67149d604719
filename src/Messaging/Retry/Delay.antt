-- ===== src/Messaging/Retry/Delay.antt =====
-- Bounds on the delay before a retry (messaging/retry_manager.py, compute_delay).
use native.Mathlib.Nat.{div-mul-le_self, mul-le-mul_left, le_of_mul-le-mul_right, le-div_iff_mul-le}
use teleautomation_messaging.Prelude.{
  ℕ, ◌+◌, ◌-◌, ◌*◌, ◌/◌, ◌≤◌, ◌<◌, ◌≡◌, Bool, arith, min, max, ◌^◌, refl, subst, true, false,
}
use teleautomation_messaging.Messaging.Retry.{
  unit, RetryConfig, Draw, base_delay, with_jitter, compute_delay,
}

-- The jitter of a draw below 1 stays below the ratio.
jitter-le : (j k den : ℕ) → j ≤ 100 → k < den → (100 - j) * den + 2 * j * k ≤ (100 + j) * den
jitter-le j k den h r = grind arith

with_jitter-le :
    (cfg : RetryConfig) (draw : Draw) (base : ℕ)
    → cfg.jitter ≤ 100
    → draw.k < draw.den
    → 100 * with_jitter cfg draw base ≤ base * (100 + cfg.jitter)
unfolding with_jitter
with_jitter-le cfg draw base j r =
    let numerator = (100 - cfg.jitter) * draw.den + 2 * cfg.jitter * draw.k in
    let whole : base * numerator / (100 * draw.den) * (100 * draw.den) ≤ base * numerator =
      div-mul-le_self (base * numerator) (100 * draw.den) in
    let most : base * numerator ≤ base * ((100 + cfg.jitter) * draw.den) =
      mul-le-mul_left base (jitter-le cfg.jitter draw.k draw.den j r) in
    le_of_mul-le-mul_right {k = draw.den} (omega arith) (omega arith)

jitter-ge : (j k den : ℕ) → (100 - j) * den ≤ (100 - j) * den + 2 * j * k
jitter-ge j k den = omega arith

with_jitter-ge :
    (cfg : RetryConfig) (draw : Draw) (base : ℕ)
    → draw.k < draw.den
    → base * (100 - cfg.jitter) / 100 ≤ with_jitter cfg draw base
unfolding with_jitter
with_jitter-ge cfg draw base r =
    let numerator = (100 - cfg.jitter) * draw.den + 2 * cfg.jitter * draw.k in
    let least = base * (100 - cfg.jitter) / 100 in
    let whole : least * 100 ≤ base * (100 - cfg.jitter) =
      div-mul-le_self (base * (100 - cfg.jitter)) 100 in
    let scaled : draw.den * (least * 100) ≤ draw.den * (base * (100 - cfg.jitter)) =
      mul-le-mul_left draw.den whole in
    let more : base * ((100 - cfg.jitter) * draw.den) ≤ base * numerator =
      mul-le-mul_left base (jitter-ge cfg.jitter draw.k draw.den) in
    (le-div_iff_mul-le {k = 100 * draw.den} {x = least} {y = base * numerator} (omega arith)).1
      (grind arith)

module _ (cfg : RetryConfig) (flood_seconds : ℕ) (network : Bool) (retry_count : ℕ) where
  base_delay-flood :
      0 < flood_seconds
      → base_delay cfg flood_seconds network retry_count ≡ min (flood_seconds * unit) cfg.max_delay
  unfolding base_delay
  base_delay-flood flood = ground arith

  base_delay-network :
      flood_seconds ≡ 0
      → network ≡ true
      → base_delay cfg flood_seconds network retry_count
        ≡ min (cfg.base * 2 ^ retry_count) cfg.max_delay
  unfolding base_delay
  base_delay-network e n = rw (e, n) refl

  base_delay-other :
      flood_seconds ≡ 0
      → network ≡ false
      → base_delay cfg flood_seconds network retry_count
        ≡ min (cfg.base * 18 ^ retry_count / 10 ^ retry_count) (600 * unit)
  unfolding base_delay
  base_delay-other e n = rw (e, n) refl

-- The delay is the nominal one, give or take the ratio of the jitter, in whole units; but no less than
-- a second and no more than the longest delay allowed.
abbrev pub IsAround : RetryConfig → (nominal delay : ℕ) → Type 0
IsAround cfg nominal delay =
    (max unit (min (nominal * (100 - cfg.jitter) / 100) cfg.max_delay) ≤ delay)
    × (delay ≤ max unit (min (nominal * (100 + cfg.jitter) / 100) cfg.max_delay))

compute_delay-IsAround :
    (cfg : RetryConfig) (draw : Draw) (flood_seconds : ℕ) (network : Bool) (retry_count : ℕ)
    → cfg.jitter ≤ 100
    → draw.k < draw.den
    → IsAround cfg
        (base_delay cfg flood_seconds network retry_count)
        (compute_delay cfg draw flood_seconds network retry_count)
unfolding compute_delay
compute_delay-IsAround cfg draw flood_seconds network retry_count j r =
    let base = base_delay cfg flood_seconds network retry_count in
    omega (arith, with_jitter-le cfg draw base j r, with_jitter-ge cfg draw base r)

-- The delay before a retry. A flood is waited out for the seconds that Telegram names; after a network
-- failure the delay doubles with every retry, both up to the longest delay; after any other failure
-- it grows by 1.8 with every retry, up to ten minutes. Jitter moves it by its ratio at most, and it
-- is never less than one second, nor more than the longest delay. The longest delay is a second at
-- least, the ratio 100% at most, and the draw below 1.
pub compute_delay_bounds :
    (cfg : RetryConfig) (draw : Draw) (flood_seconds : ℕ) (network : Bool) (retry_count : ℕ)
    → unit ≤ cfg.max_delay
    → cfg.jitter ≤ 100
    → draw.k < draw.den
    → let delay = compute_delay cfg draw flood_seconds network retry_count in
      (unit ≤ delay)
      × (delay ≤ cfg.max_delay)
      × (0 < flood_seconds → IsAround cfg (min (flood_seconds * unit) cfg.max_delay) delay)
      × (flood_seconds ≡ 0
          → network ≡ true
          → IsAround cfg (min (cfg.base * 2 ^ retry_count) cfg.max_delay) delay)
      × (flood_seconds ≡ 0
          → network ≡ false
          → IsAround cfg (min (cfg.base * 18 ^ retry_count / 10 ^ retry_count) (600 * unit)) delay)
compute_delay_bounds cfg draw flood_seconds network retry_count h j r =
    let around = compute_delay-IsAround cfg draw flood_seconds network retry_count j r in
    let delay = compute_delay cfg draw flood_seconds network retry_count in
    (
      omega (arith, around),
      omega (arith, around),
      λ flood.
          subst (λ b. IsAround cfg b delay)
            (base_delay-flood cfg flood_seconds network retry_count flood) around,
      λ none n.
          subst (λ b. IsAround cfg b delay)
            (base_delay-network cfg flood_seconds network retry_count none n) around,
      λ none n.
          subst (λ b. IsAround cfg b delay)
            (base_delay-other cfg flood_seconds network retry_count none n) around,
    )
