-- ===== src/Webhook/Tests/Handler.antt =====
-- The endpoint on a signed request.
use app_catalogo.Common.{String, ◌≡◌, ◌≢◌, ◌⊎◌, refl, none, some}
use app_catalogo.Common.Go.{message}
use app_catalogo.Common.Int.{pos}
use app_catalogo.Common.Text.{trim_space, is_space, is_control, drop_controls}
use app_catalogo.Webhook.Queue
use app_catalogo.Webhook.Queue.{
  SalesForceWebhookEvent, pending, scan_webhook_event, new_row, has_key,
}
use app_catalogo.Webhook.Service.Config.{default_webhook_config}
use app_catalogo.Webhook.Service.EventType.{sanitize_event_type, truncate_runes}
use app_catalogo.Webhook.Service.{State, choose_key, enqueue}
use app_catalogo.Webhook.Handler.{
  Payload, Libraries, read, Call, sales_force, check_signature, validate_hmac, decode, check_slug,
  has_control, store, answer, chosen_slug,
}
use app_catalogo.Webhook.Handler.Signed.{Refused, Admitted, sales_force_admits}
use app_catalogo.Webhook.Handler.Stored.{Stored, queued-Stored}
use app_catalogo.Webhook.Tests.Data.{table, table-IsValid}

abbrev libraries : Libraries
libraries = record {
  hmac_hex = λ secret body. "ab12";
  unmarshal = λ body.
      some (record { event_type = "updated"; event_created = "2026"; id = ""; slug = "iss" });
  to_lower = λ s. s;
}

abbrev secret : String
secret = "s"

abbrev call : Call
call = record {
  hashing = record { event_key = λ body. body; unique_key = λ body nonce. nonce };
  now = 5000;
  nonce = none;
  nonce_error = message "rand";
  store_error = none;
}

abbrev state : State
state = record {
  table = table;
  counters = record { enqueued = 2; duplicate = 0; processed = 0; failed = 0 };
}

sales_force_admits_example :
    Refused state
      (sales_force libraries call (some default_webhook_config) secret "ab12" (read "{}") state)
    ⊎ ((secret ≢ "")
        × Admitted libraries call (some default_webhook_config) secret "ab12" (read "{}") state (
            sales_force libraries call
              (some default_webhook_config)
              secret
              "ab12"
              (read "{}")
              state))
sales_force_admits_example =
    sales_force_admits libraries call (some default_webhook_config) secret "ab12" (read "{}") state

abbrev third_event : SalesForceWebhookEvent
third_event = record {
  id = 3;
  event_key = "{}";
  slug = "iss";
  event_type = "updated";
  status = pending;
  attempts = 1;
  next_attempt_at = pos 120000005000;
  received_at = 5000;
  claimed_at = 5000;
}

starts_third :
    (sales_force libraries call
      (some default_webhook_config)
      secret
      "ab12"
      (read "{}")
      state).started
    ≡ some third_event
unfolding sales_force check_signature validate_hmac trim_space is_space decode check_slug
    has_control is_control store enqueue choose_key answer sanitize_event_type truncate_runes
    drop_controls Queue.enqueue new_row has_key scan_webhook_event
starts_third = refl

queued-Stored_example :
    (text : String) × (p : Payload) × (read "{}" ≡ read text)
    × (libraries.unmarshal text ≡ some p)
    × Stored
        (sales_force libraries call
          (some default_webhook_config)
          secret
          "ab12"
          (read "{}")
          state).state.table
        (chosen_slug p)
        third_event
queued-Stored_example =
    queued-Stored libraries call (some default_webhook_config) secret "ab12" (read "{}") state
      third_event table-IsValid starts_third
