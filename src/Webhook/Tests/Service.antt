-- ===== src/Webhook/Tests/Service.antt =====
-- The service on the table of two events.
use app_catalogo.Common.{ℕ, ◌≡◌, refl, true, false, none, some, arith, ◌==◌}
use app_catalogo.Common.Go.{message}
use app_catalogo.Common.Int.{pos}
use app_catalogo.Webhook.Queue.{is_due}
use app_catalogo.Webhook.Service.Config.{
  WebhookConfig, default_webhook_config, retry_delay, retry_delay_lem,
}
use app_catalogo.Webhook.Service.{State, Attempt, process, process_due, Tick, Loop}
use app_catalogo.Webhook.Service.Outcome.{Settles, process-Settles}
use app_catalogo.Webhook.Service.Batch.{Ended, process_due_completes}
use app_catalogo.Webhook.Tests.Data.{table, first_row, first_event, none_held, finds_first}

abbrev state : State
state = record {
  table = table;
  counters = record { enqueued = 2; duplicate = 0; processed = 0; failed = 0 };
}

abbrev failing : Attempt
failing = record {
  sync_error = some (message "timeout");
  error_text = "timeout";
  write_error = none;
  written_at = 990;
}

abbrev working : ℕ → Attempt
working n = record { sync_error = none; error_text = ""; write_error = none; written_at = 3000 }

first_delay : retry_delay default_webhook_config 1 ≡ pos 30000000000
first_delay =
    retry_delay_lem default_webhook_config 30000000000 3600000000000 1 refl refl (omega arith)

process-Settles_example :
    Settles first_event failing 30000000000 first_row
      (process default_webhook_config first_event failing state).0
      (process default_webhook_config first_event failing state).1.table
process-Settles_example =
    process-Settles default_webhook_config first_event failing state 30000000000 first_row
      finds_first refl refl first_delay

due_at_2000 : is_due none_held 2000 first_row ≡ true
unfolding is_due
due_at_2000 = refl

process_due_completes_example :
    Ended 1
      (process_due default_webhook_config none none_held 2000
        (λ n. false)
        working
        state).2.table.rows
process_due_completes_example =
    process_due_completes default_webhook_config none_held 2000 (λ n. false) working state 1
      first_row finds_first due_at_2000 (omega arith) (λ n. refl) (λ n. (refl, refl))

abbrev a_tick : Tick
a_tick = record {
  claim_error = none;
  locked = none_held;
  claimed_at = 2000;
  ended = λ n. n == 1;
  attempts = λ n. failing;
  delete_error = some (message "down");
  cleaned_at = 2500;
}

abbrev a_loop : Loop
a_loop = record { state = state; last_cleanup = none }

abbrev no_settings : WebhookConfig
no_settings = record {
  lease = pos 0;
  process_timeout = pos 500000000000;
  retry_base_delay = pos 0;
  retry_max_delay = pos 1;
  batch_size = pos 0;
  retention = pos 0;
}
