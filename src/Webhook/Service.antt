-- ===== src/Webhook/Service.antt =====
-- internal/services/salesforce_webhook_service.go: the service over the durable queue. The hash of
-- a body and the reading of random bytes are arguments; an error of the store leaves its table as
-- it was. The counters are those of catalogo_salesforce_webhook_events_total.
pub mod Config
pub mod EventType
pub mod Outcome
pub mod Keeps
pub mod Batch
use app_catalogo.Common.{
  ℕ, zero, suc, ◌+◌, ◌-◌, String, Bool, true, false, not, ◌&&◌, ◌||◌, Option, none, some, List, [],
  ◌∷◌, length, ltb, leb, if◌then◌else◌,
}
use app_catalogo.Common.Go.{Error}
use app_catalogo.Common.Int.{ℤ, pos, ltb_ℤ, leb_ℤ, pos_part}
use app_catalogo.Common.Text.{is_empty, trim_space}
use app_catalogo.Webhook.Queue
use app_catalogo.Webhook.Queue.{Table, SalesForceWebhookEvent}
use Config.{WebhookConfig, retry_delay}
use EventType.{sanitize_event_type}

pub record Counters : Type 0 where
  pub enqueued : ℕ
  pub duplicate : ℕ
  pub processed : ℕ
  pub failed : ℕ

-- The queue's table and the counters.
pub record State : Type 0 where
  pub table : Table
  pub counters : Counters

-- The keys of a body: its SHA-256 in hex, and the one that a nonce is mixed into.
pub record Hashing : Type 0 where
  pub event_key : String → String
  pub unique_key : String → String → String

pub data Enqueued : Type 0 where
  failed : Error → Enqueued
  duplicate : Enqueued
  created : SalesForceWebhookEvent → Enqueued

-- The key of the event; `none` is an error of rand.Read.
unfoldable pub choose_key : Hashing → String → String → Option String → Option String
choose_key h body event_created nonce =
    if is_empty (trim_space event_created)
    then elim nonce [ none ↦ none | some n ↦ some (h.unique_key body n) ]
    else some (h.event_key body)

abbrev pub count_enqueued : Option SalesForceWebhookEvent × Table → State → Enqueued × State
count_enqueued (none, t) s = (
  duplicate,
  record s { counters = record (s.counters) { duplicate = s.counters.duplicate + 1 } },
)
count_enqueued (some ev, t) s = (
  created ev,
  record { table = t; counters = record (s.counters) { enqueued = s.counters.enqueued + 1 } },
)

abbrev pub store_event :
    WebhookConfig → ℕ → Option Error → String → String → String → State → Enqueued × State
store_event cfg now (some e) key slug event_type s = (failed e, s)
store_event cfg now none key slug event_type s =
    count_enqueued (Queue.enqueue now key slug (sanitize_event_type event_type) cfg.lease s.table) s

-- `Enqueue`. The nonce is what rand.Read yields, or its error; then the store's error, if any.
unfoldable pub enqueue :
    Hashing
    → WebhookConfig
    → ℕ
    → Option String
    → Error
    → Option Error
    → String
    → String
    → String
    → String
    → State
    → Enqueued × State
enqueue h cfg now nonce nonce_error store_error body slug event_type event_created s =
    elim (choose_key h body event_created nonce) [
      | none ↦ (failed nonce_error, s)
      | some key ↦ store_event cfg now store_error key slug event_type s
    ]

-- How one attempt goes: what SyncRecord returns, the text of its error, what the store returns for
-- the outcome's write, and NOW() of that write.
pub record Attempt : Type 0 where
  pub sync_error : Option Error
  pub error_text : String
  pub write_error : Option Error
  pub written_at : ℕ

abbrev pub write : Option Error → Table → Table → Table
write none after before = after
write (some e) after before = before

unfoldable pub process_failed : WebhookConfig → SalesForceWebhookEvent → Attempt → State → State
unfolding retry_delay
process_failed cfg ev a s = record {
  table =
      write a.write_error
        (Queue.fail a.written_at ev a.error_text (retry_delay cfg ev.attempts) s.table) s.table;
  counters = record (s.counters) { failed = s.counters.failed + 1 };
}

unfoldable pub process_synced : SalesForceWebhookEvent → Attempt → State → Option Error × State
process_synced ev a s = elim a.write_error [
  | some e ↦ (some e, s)
  | none ↦ (
    none,
    record {
      table = (Queue.complete a.written_at ev s.table).1;
      counters = record (s.counters) { processed = s.counters.processed + 1 };
    },
  )
]

-- `Process`, of an event that is not nil.
unfoldable pub process :
    WebhookConfig → SalesForceWebhookEvent → Attempt → State → Option Error × State
unfolding process_failed
process cfg ev a s = elim a.sync_error [
  | some e ↦ (some e, process_failed cfg ev a s)
  | none ↦ process_synced ev a s
]

-- The loop of `ProcessDue`: it ends when the context has ended before an event.
unfoldable pub process_all :
    WebhookConfig → List SalesForceWebhookEvent → (ℕ → Bool) → (ℕ → Attempt) → ℕ → State → State
process_all cfg [] ended env n s = s
process_all cfg (ev ∷ events) ended env n s =
    let rest = process_all cfg events ended env (n + 1) (process cfg ev (env n) s).1 in
    if ended n then s else rest

-- `ProcessDue`: how many events were claimed, or the error of the claim.
unfoldable pub process_due :
    WebhookConfig
    → Option Error
    → (ℕ → Bool)
    → ℕ
    → (ℕ → Bool)
    → (ℕ → Attempt)
    → State
    → ℕ × Option Error × State
process_due cfg (some e) locked now ended env s = (0, some e, s)
process_due cfg none locked now ended env s =
    let (events, t) = Queue.claim_due locked now (pos_part cfg.batch_size) cfg.lease s.table in
    (length events, none, process_all cfg events ended env 0 (record s { table = t }))

-- One tick of `Run`: what the environment does, and the readings of the clock.
pub record Tick : Type 0 where
  pub claim_error : Option Error
  pub locked : ℕ → Bool
  pub claimed_at : ℕ
  pub ended : ℕ → Bool
  pub attempts : ℕ → Attempt
  pub delete_error : Option Error
  pub cleaned_at : ℕ

pub record Loop : Type 0 where
  pub state : State
  -- `none` is the zero time
  pub last_cleanup : Option ℕ

abbrev pub hour : ℕ
hour = 3600000000000

abbrev pub cleanup_due : Option ℕ → ℕ → Bool
cleanup_due none now = true
cleanup_due (some at) now = leb (at + hour) now

unfoldable pub tick : WebhookConfig → Tick → Loop → Loop
tick cfg k l =
    let s = (process_due cfg k.claim_error k.locked k.claimed_at k.ended k.attempts l.state).2 in
    if cleanup_due l.last_cleanup k.cleaned_at
    then record {
      state = record s {
        table =
            write k.delete_error
              (Queue.delete_completed_before (k.cleaned_at - pos_part cfg.retention) s.table).1
              s.table;
      };
      last_cleanup = some k.cleaned_at;
    }
    else record l { state = s }

-- `Run`, over the ticks until its context ends.
unfoldable pub run : WebhookConfig → List Tick → Loop → Loop
run cfg [] l = l
run cfg (k ∷ ticks) l = run cfg ticks (tick cfg k l)
