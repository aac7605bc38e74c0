-- ===== src/Sources/Policy.antt =====
-- The retry policy and the wait before the next attempt.
use app_catalogo.Common.{ℕ, suc, ◌+◌, ◌-◌, ◌*◌, ◌/◌, ◌^◌, ◌≤◌, min, ◌≡◌, arith, if◌then◌else◌}
use app_catalogo.Common.Int.{ℤ, pos, ◌+ℤ◌, ◌-ℤ◌, ◌≤ℤ◌, ltb_ℤ, leb_ℤ, half_ℤ, half_range, pos_part}
use app_catalogo.Common.Doubling.{double_while, double_while_lem, cap_at}

pub record RetryPolicy : Type 0 where
  pub max_attempts : ℤ
  pub base_delay : ℤ
  pub max_delay : ℤ

abbrev pub default_retry_policy : RetryPolicy
default_retry_policy = record {
  max_attempts = pos 4;
  base_delay = pos 30000000000;
  max_delay = pos 300000000000;
}

abbrev at_least : ℤ → ℤ → ℤ
at_least low x = if ltb_ℤ x low then low else x

unfoldable pub normalized : RetryPolicy → RetryPolicy
normalized p =
    let base = at_least (pos 0) p.base_delay in
    record {
      max_attempts = at_least (pos 1) p.max_attempts;
      base_delay = base;
      max_delay = at_least base p.max_delay;
    }

-- `rand.Int64N` is the argument `int64n`.
unfoldable pub spread : (ℕ → ℕ) → ℤ → ℤ
spread int64n d =
    if leb_ℤ d (pos 1)
    then d
    else (let half = half_ℤ d in half +ℤ pos (int64n (pos_part (d -ℤ half) + 1)))

unfoldable pub backoff : RetryPolicy → (ℕ → ℕ) → ℕ → ℤ
backoff p int64n attempt =
    spread int64n (cap_at p.max_delay (double_while (attempt - 1) p.max_delay p.base_delay))

-- `rand.Int64N n` is below a positive n.
abbrev pub IsInt64n : (ℕ → ℕ) → Type 0
IsInt64n int64n = (n : ℕ) → int64n (suc n) ≤ n

pub record IsNormal (p : RetryPolicy) : Type 0 where
  pub attempts : pos 1 ≤ℤ p.max_attempts
  pub base : pos 0 ≤ℤ p.base_delay
  pub max : p.base_delay ≤ℤ p.max_delay

pub normalized-IsNormal : (p : RetryPolicy) → IsNormal (normalized p)
unfolding normalized
normalized-IsNormal p = record { attempts = ground arith; base = ground arith; max = ground arith }

spread_bounds :
    (int64n : ℕ → ℕ) (d : ℕ)
    → IsInt64n int64n
    → (pos (d / 2) ≤ℤ spread int64n (pos d)) × (spread int64n (pos d) ≤ℤ pos d)
unfolding spread
spread_bounds int64n d draw = ground (arith, draw (d - d / 2))

-- Between the attempts of a policy with a first wait b ≥ 0 and a longest wait m ≤ 2 ^ 62, the
-- manager waits between half and the whole of min(m, b·2^(attempt-1)), whatever rand.Int64N draws
-- within its documented range.
pub policy_backoff_bounds :
    (p : RetryPolicy) (int64n : ℕ → ℕ) (b m attempt : ℕ)
    → IsInt64n int64n
    → p.base_delay ≡ pos b
    → p.max_delay ≡ pos m
    → m ≤ half_range
    → (pos (min m (b * 2 ^ (attempt - 1)) / 2) ≤ℤ backoff p int64n attempt)
      × (backoff p int64n attempt ≤ℤ pos (min m (b * 2 ^ (attempt - 1))))
unfolding backoff
policy_backoff_bounds p int64n b m attempt draw eb em h =
    rw (eb, em, double_while_lem (attempt - 1) m b h)
      (spread_bounds int64n (min m (b * 2 ^ (attempt - 1))) draw)
