-- ===== src/Webhook/Service/Outcome.antt =====
-- What one attempt of `Process` leaves behind.
use app_catalogo.Common.{ℕ, ◌+◌, ◌≤◌, ◌≡◌, ◌↔◌, refl, inl, true, Option, none, some}
use app_catalogo.Common.Go.{Error}
use app_catalogo.Common.Int.{pos}
use app_catalogo.Webhook.Queue.{pending, completed, Row, Table, SalesForceWebhookEvent, is_due}
use app_catalogo.Webhook.Queue.Find.{find_row, find_row-id}
use app_catalogo.Webhook.Queue.Lease.{fail_reschedules, no_lock}
use app_catalogo.Webhook.Queue.Completion.{complete_covers}
use app_catalogo.Webhook.Service.Config.{WebhookConfig, retry_delay}
use app_catalogo.Webhook.Service.{State, Attempt, process_failed, process_synced, process}

-- The attempt ended its event at the write.
abbrev pub Done : SalesForceWebhookEvent → Attempt → Table → Type 0
Done ev a t =
    (r : Row) × (find_row ev.id t.rows ≡ some r)
    × (r.status ≡ completed)
    × (r.processed_at ≡ some a.written_at)

-- After a write that worked the event is due exactly from the wait after it on; after one that
-- failed its row is as it was.
abbrev pub Scheduled : Option Error → ℕ → Row → Row → Type 0
Scheduled none due_from before r = (at : ℕ) → (is_due no_lock at r ≡ true) ↔ (due_from ≤ at)
Scheduled (some e) due_from before r = r ≡ before

-- The event is still pending, with the attempts of `before`.
abbrev pub Retained : SalesForceWebhookEvent → Attempt → ℕ → Row → Table → Type 0
Retained ev a delay before t =
    (r : Row) × (find_row ev.id t.rows ≡ some r)
    × (r.status ≡ pending)
    × (r.attempts ≡ before.attempts)
    × Scheduled a.write_error (a.written_at + delay) before r

abbrev pub Settles : SalesForceWebhookEvent → Attempt → ℕ → Row → Option Error → Table → Type 0
Settles ev a delay before none t = Done ev a t
Settles ev a delay before (some e) t = Retained ev a delay before t

module _ (cfg : WebhookConfig) (ev : SalesForceWebhookEvent) (delay : ℕ) (r : Row)
    (waits : r.status ≡ pending) (own : r.attempts ≡ ev.attempts)
    (scheduled : retry_delay cfg ev.attempts ≡ pos delay) where
  failed_write :
      (a : Attempt) (s : State) (w : Option Error)
      → a.write_error ≡ w
      → find_row ev.id s.table.rows ≡ some r
      → Retained ev a delay r (process_failed cfg ev a s).table
  unfolding process_failed
  failed_write a s none e found =
      let (t, here, still, same, text, due) =
        fail_reschedules a.written_at delay ev a.error_text s.table r found waits own in
      rw (e, scheduled) (t, here, still, same, due)
  failed_write a s (some x) e found = rw e (r, found, waits, refl, refl)

  synced_write :
      (a : Attempt) (s : State) (w : Option Error)
      → a.write_error ≡ w
      → find_row ev.id s.table.rows ≡ some r
      → Settles ev a delay r (process_synced ev a s).0 (process_synced ev a s).1.table
  unfolding process_synced
  synced_write a s none e found =
      let (t, here, ended, at) =
        complete_covers a.written_at ev s.table ev.id r found waits
          (inl (find_row-id ev.id s.table.rows r found)) in
      rw (e, process_synced) (t, here, ended, at)
  synced_write a s (some x) e found = rw (e, process_synced) (r, found, waits, refl, refl)

  settles :
      (a : Attempt) (s : State) (sync : Option Error)
      → a.sync_error ≡ sync
      → find_row ev.id s.table.rows ≡ some r
      → Settles ev a delay r (process cfg ev a s).0 (process cfg ev a s).1.table
  unfolding process
  settles a s none e found = rw (e, process) (synced_write a s a.write_error refl found)
  settles a s (some x) e found = rw (e, process) (failed_write a s a.write_error refl found)

-- The attempt that owns a pending event ends it or keeps it. Where `Process` returns no error the
-- event is completed at the write. Where it returns one the event is still pending, with the same
-- attempts; it is due again exactly from the configured wait after the write on if the write
-- worked, and its row is untouched if the write failed.
pub process-Settles :
    (cfg : WebhookConfig) (ev : SalesForceWebhookEvent) (a : Attempt) (s : State) (delay : ℕ)
    (r : Row)
    → find_row ev.id s.table.rows ≡ some r
    → r.status ≡ pending
    → r.attempts ≡ ev.attempts
    → retry_delay cfg ev.attempts ≡ pos delay
    → Settles ev a delay r (process cfg ev a s).0 (process cfg ev a s).1.table
process-Settles cfg ev a s delay r found waits own scheduled =
    settles cfg ev delay r waits own scheduled a s a.sync_error refl found
