-- ===== src/Webhook/Service/Config.antt =====
-- The settings of the webhook service and the wait after a failed attempt.
use app_catalogo.Common.{ℕ, ◌-◌, ◌*◌, ◌^◌, ◌≤◌, ◌<◌, min, ◌≡◌, ◌||◌, arith, if◌then◌else◌}
use app_catalogo.Common.Int.{
  ℤ, pos, negsuc, ◌≤ℤ◌, ◌<ℤ◌, ltb_ℤ, leb_ℤ, triple64, quarter_ℤ, half_range,
}
use app_catalogo.Common.Doubling.{double_while, double_while_lem, cap_at}

pub record WebhookConfig : Type 0 where
  pub lease : ℤ
  pub process_timeout : ℤ
  pub retry_base_delay : ℤ
  pub retry_max_delay : ℤ
  pub batch_size : ℤ
  pub retention : ℤ

abbrev pub default_webhook_config : WebhookConfig
default_webhook_config = record {
  lease = pos 120000000000;
  process_timeout = pos 90000000000;
  retry_base_delay = pos 30000000000;
  retry_max_delay = pos 3600000000000;
  batch_size = pos 20;
  retention = pos 604800000000000;
}

abbrev or_default : ℤ → ℤ → ℤ
or_default x d = if leb_ℤ x (pos 0) then d else x

-- cfg.Lease * 3 / 4
abbrev three_quarters : ℤ → ℤ
three_quarters (pos n) = quarter_ℤ (triple64 n)
three_quarters (negsuc n) = pos 0

abbrev timeout_for : ℤ → ℤ → ℤ
timeout_for lease timeout =
    if leb_ℤ timeout (pos 0) || leb_ℤ lease timeout then three_quarters lease else timeout

abbrev max_for : ℤ → ℤ → ℤ
max_for base max = if ltb_ℤ max base then base else max

-- The defaults that `NewSalesForceWebhookService` puts in.
unfoldable pub normalize : WebhookConfig → WebhookConfig
normalize cfg =
    let lease = or_default cfg.lease (default_webhook_config.lease) in
    let base = or_default cfg.retry_base_delay (default_webhook_config.retry_base_delay) in
    record {
      lease = lease;
      process_timeout = timeout_for lease cfg.process_timeout;
      retry_base_delay = base;
      retry_max_delay = max_for base cfg.retry_max_delay;
      batch_size = or_default cfg.batch_size (default_webhook_config.batch_size);
      retention = or_default cfg.retention (default_webhook_config.retention);
    }

unfoldable pub retry_delay : WebhookConfig → ℕ → ℤ
retry_delay cfg attempt =
    cap_at cfg.retry_max_delay (double_while (attempt - 1) cfg.retry_max_delay cfg.retry_base_delay)

pub record IsNormal (cfg : WebhookConfig) : Type 0 where
  pub lease : pos 0 <ℤ cfg.lease
  pub timeout : cfg.process_timeout <ℤ cfg.lease
  pub base : pos 0 <ℤ cfg.retry_base_delay
  pub max : cfg.retry_base_delay ≤ℤ cfg.retry_max_delay
  pub batch : pos 0 <ℤ cfg.batch_size
  pub retention : pos 0 <ℤ cfg.retention

or_default_pos : (x : ℤ) (d : ℕ) → 0 < d → pos 0 <ℤ or_default x (pos d)
or_default_pos (pos n) d h = ground arith
or_default_pos (negsuc n) d h = ground arith

max_for-le : (base max : ℤ) → base ≤ℤ max_for base max
max_for-le base max = ground arith

three_quarters-lt : (n : ℕ) → 0 < n → n < 9223372036854775808 → three_quarters (pos n) <ℤ pos n
unfolding triple64
three_quarters-lt n p h = ground arith

timeout_for-lt :
    (lease timeout : ℤ)
    → pos 0 <ℤ lease
    → lease <ℤ pos 9223372036854775808
    → timeout_for lease timeout <ℤ lease
timeout_for-lt (pos n) timeout p h = ground (arith, three_quarters-lt n)
timeout_for-lt (negsuc n) timeout p h = absurd (omega arith)

or_default_below : (x : ℤ) (d m : ℕ) → d < m → x <ℤ pos m → or_default x (pos d) <ℤ pos m
or_default_below x d m h k = ground arith

-- Whatever int64 settings it is given, the service works with a positive lease, batch size,
-- retention and first wait, with a longest wait no shorter than the first, and with a time limit
-- for an attempt that is below the lease.
pub normalize-IsNormal :
    (cfg : WebhookConfig) → cfg.lease <ℤ pos 9223372036854775808 → IsNormal (normalize cfg)
unfolding normalize
normalize-IsNormal cfg fits = record {
  lease = or_default_pos cfg.lease 120000000000 (omega arith);
  timeout =
      timeout_for-lt (or_default cfg.lease (pos 120000000000)) cfg.process_timeout
        (or_default_pos cfg.lease 120000000000 (omega arith))
        (or_default_below cfg.lease 120000000000 9223372036854775808 (omega arith) fits);
  base = or_default_pos cfg.retry_base_delay 30000000000 (omega arith);
  max = max_for-le (or_default cfg.retry_base_delay (pos 30000000000)) cfg.retry_max_delay;
  batch = or_default_pos cfg.batch_size 20 (omega arith);
  retention = or_default_pos cfg.retention 604800000000000 (omega arith);
}

-- With a first wait b ≥ 0 and a longest wait m ≤ 2 ^ 62, the wait after attempt n is
-- min(m, b·2^(n-1)).
pub retry_delay_lem :
    (cfg : WebhookConfig) (b m attempt : ℕ)
    → cfg.retry_base_delay ≡ pos b
    → cfg.retry_max_delay ≡ pos m
    → m ≤ half_range
    → retry_delay cfg attempt ≡ pos (min m (b * 2 ^ (attempt - 1)))
unfolding retry_delay
retry_delay_lem cfg b m attempt eb em h = rw (eb, em) (double_while_lem (attempt - 1) m b h)
