-- ===== src/Resilience/Backoff.antt =====
-- The wait after an attempt: `backoff` and `randomJitter` of internal/clients/resilience.go.
use app_catalogo.Common.{
  ℕ, zero, suc, ◌+◌, ◌-◌, ◌*◌, ◌/◌, ◌^◌, ◌≤◌, ◌<◌, min, ◌≡◌, ◌&&◌, arith, if◌then◌else◌,
}
use app_catalogo.Common.Int.{ℤ, pos, negsuc, ◌+ℤ◌, ◌-ℤ◌, ◌≤ℤ◌, ltb_ℤ, half_ℤ, half_range}
use app_catalogo.Common.Doubling.{double_while, double_while_lem}

-- int and time.Duration are signed 64-bit numbers.
pub record ResilienceConfig : Type 0 where
  pub max_attempts : ℤ
  pub base_delay : ℤ
  pub max_delay : ℤ
  pub failure_threshold : ℤ
  pub open_timeout : ℤ
  pub max_elapsed : ℤ

abbrev pub default_rmi_resilience : ResilienceConfig
default_rmi_resilience = record {
  max_attempts = pos 3;
  base_delay = pos 100000000;
  max_delay = pos 1000000000;
  failure_threshold = pos 5;
  open_timeout = pos 30000000000;
  max_elapsed = pos 10000000000;
}

abbrev pub default_app_go_api_resilience : ResilienceConfig
default_app_go_api_resilience = record {
  max_attempts = pos 3;
  base_delay = pos 500000000;
  max_delay = pos 5000000000;
  failure_threshold = pos 5;
  open_timeout = pos 60000000000;
  max_elapsed = pos 0;
}

-- `rand.Int64N` is the argument `int64n`.
unfoldable pub random_jitter : (ℕ → ℕ) → ℤ → ℤ
random_jitter int64n (pos zero) = pos 0
random_jitter int64n (pos (suc n)) = pos (int64n (suc n + 1))
random_jitter int64n (negsuc n) = pos 0

-- `attempt` counts from 1.
unfoldable pub delay_after : ResilienceConfig → ℕ → ℤ
unfolding double_while
delay_after config attempt =
    let delay = double_while (attempt - 1) config.max_delay config.base_delay in
    if ltb_ℤ (pos 0) config.max_delay && ltb_ℤ config.max_delay delay
    then config.max_delay
    else delay

unfoldable pub backoff : ResilienceConfig → (ℤ → ℤ) → ℕ → ℤ
backoff config jitter attempt =
    let delay = delay_after config attempt in
    let half = half_ℤ delay in half +ℤ jitter (delay -ℤ half)

-- A jitter between zero and its argument.
abbrev pub IsJitter : (ℤ → ℤ) → Type 0
IsJitter jitter = (n : ℕ) → (pos 0 ≤ℤ jitter (pos n)) × (jitter (pos n) ≤ℤ pos n)

-- `rand.Int64N n` is below a positive n.
abbrev pub IsInt64n : (ℕ → ℕ) → Type 0
IsInt64n int64n = (n : ℕ) → int64n (suc n) ≤ n

pub random_jitter-IsJitter : (int64n : ℕ → ℕ) → IsInt64n int64n → IsJitter (random_jitter int64n)
unfolding random_jitter
random_jitter-IsJitter int64n h zero = (omega arith, omega arith)
random_jitter-IsJitter int64n h (suc n) = ground (arith, h (suc n))

-- The wait before the jitter, with a positive maximum of at most 2 ^ 62.
abbrev pub full_delay : ℕ → ℕ → ℕ → ℕ
full_delay b m attempt = min m (b * 2 ^ (attempt - 1))

delay_after_lem :
    (config : ResilienceConfig) (b m attempt : ℕ)
    → config.base_delay ≡ pos b
    → config.max_delay ≡ pos m
    → 0 < m
    → m ≤ half_range
    → delay_after config attempt ≡ pos (full_delay b m attempt)
unfolding delay_after
delay_after_lem config b m attempt eb em p h =
    rw (eb, em) (ground (arith, double_while_lem (attempt - 1) m b h))

rest_of_half : (d : ℕ) → (pos d -ℤ half_ℤ (pos d)) ≡ pos (d - d / 2)
rest_of_half d = ground arith

add_bounds :
    (d : ℕ) (j : ℤ)
    → pos 0 ≤ℤ j
    → j ≤ℤ pos (d - d / 2)
    → (pos (d / 2) ≤ℤ (half_ℤ (pos d) +ℤ j)) × ((half_ℤ (pos d) +ℤ j) ≤ℤ pos d)
add_bounds d j lo hi = ground arith

equal_jitter :
    (jitter : ℤ → ℤ) (d : ℕ)
    → IsJitter jitter
    → (pos (d / 2) ≤ℤ (half_ℤ (pos d) +ℤ jitter (pos d -ℤ half_ℤ (pos d))))
      × ((half_ℤ (pos d) +ℤ jitter (pos d -ℤ half_ℤ (pos d))) ≤ℤ pos d)
equal_jitter jitter d good =
    let j = good (d - d / 2) in rw rest_of_half (add_bounds d (jitter (pos (d - d / 2))) j.0 j.1)

-- With a base b ≥ 0 and a maximum m, 0 < m ≤ 2 ^ 62, the wait after each attempt lies between half
-- and the whole of min(m, b·2^(attempt-1)), whatever rand.Int64N draws within its documented range.
pub backoff_bounds :
    (config : ResilienceConfig) (int64n : ℕ → ℕ) (b m attempt : ℕ)
    → IsInt64n int64n
    → config.base_delay ≡ pos b
    → config.max_delay ≡ pos m
    → 0 < m
    → m ≤ half_range
    → (pos (full_delay b m attempt / 2) ≤ℤ backoff config (random_jitter int64n) attempt)
      × (backoff config (random_jitter int64n) attempt ≤ℤ pos (full_delay b m attempt))
unfolding backoff
backoff_bounds config int64n b m attempt draw eb em p h =
    rw (delay_after_lem config b m attempt eb em p h) (
      equal_jitter (random_jitter int64n) (full_delay b m attempt)
        (random_jitter-IsJitter int64n draw))
