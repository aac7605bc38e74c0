-- ===== src/Webhook/Service/Keeps.antt =====
-- The service, on every path and with every error, keeps the invariant of the queue.
use app_catalogo.Common.{
  ℕ, ◌+◌, ◌-◌, Bool, Option, none, some, List, [], ◌∷◌, Bool-cases, inl, inr, Option-cases,
}
use app_catalogo.Common.Go.{Error}
use app_catalogo.Common.Int.{pos_part}
use app_catalogo.Webhook.Queue.{Table, SalesForceWebhookEvent}
use app_catalogo.Webhook.Queue.Valid.{
  IsValid, claim_due-IsValid, complete-IsValid, fail-IsValid, delete_completed_before-IsValid,
}
use app_catalogo.Webhook.Service.Config.{WebhookConfig}
use app_catalogo.Webhook.Service.{
  State, Attempt, write, process_failed, process_synced, process, process_all, process_due, Tick,
  Loop, cleanup_due, tick, run,
}

write-IsValid :
    (w : Option Error) (after before : Table)
    → IsValid after
    → IsValid before
    → IsValid (write w after before)
write-IsValid none after before v u = v
write-IsValid (some e) after before v u = u

module _ (cfg : WebhookConfig) where
  process_synced-IsValid :
      (ev : SalesForceWebhookEvent) (a : Attempt) (s : State)
      → IsValid s.table
      → IsValid (process_synced ev a s).1.table
  unfolding process_synced
  process_synced-IsValid ev a s v = elim (Option-cases a.write_error) [
    | inl e ↦ rw (e, process_synced) (complete-IsValid v a.written_at ev)
    | inr (x, e) ↦ rw (e, process_synced) v
  ]

  pub process-IsValid :
      (ev : SalesForceWebhookEvent) (a : Attempt) (s : State)
      → IsValid s.table
      → IsValid (process cfg ev a s).1.table
  unfolding process process_failed
  process-IsValid ev a s v = elim (Option-cases a.sync_error) [
    | inl e ↦ rw (e, process) (process_synced-IsValid ev a s v)
    | inr (x, e) ↦
        rw (e, process)
          (write-IsValid a.write_error _ _ (fail-IsValid v a.written_at ev a.error_text _) v)
  ]

  process_all-IsValid :
      (events : List SalesForceWebhookEvent) (ended : ℕ → Bool) (env : ℕ → Attempt) (n : ℕ)
      (s : State)
      → IsValid s.table
      → IsValid (process_all cfg events ended env n s).table
  unfolding process_all
  process_all-IsValid [] ended env n s v = v
  process_all-IsValid (ev ∷ events) ended env n s v = elim (Bool-cases (ended n)) [
    | inl stop ↦ rw stop v
    | inr go ↦ rw go (
        process_all-IsValid events ended env (n + 1) (process cfg ev (env n) s).1
          (process-IsValid ev (env n) s v))
  ]

  process_due-IsValid :
      (e : Option Error) (locked : ℕ → Bool) (now : ℕ) (ended : ℕ → Bool) (env : ℕ → Attempt)
      (s : State)
      → IsValid s.table
      → IsValid (process_due cfg e locked now ended env s).2.table
  unfolding process_due
  process_due-IsValid (some e) locked now ended env s v = v
  process_due-IsValid none locked now ended env s v =
      process_all-IsValid _ ended env 0 _
        (claim_due-IsValid v locked now (pos_part cfg.batch_size) cfg.lease)

  tick-IsValid : (k : Tick) (l : Loop) → IsValid l.state.table → IsValid (tick cfg k l).state.table
  unfolding tick
  tick-IsValid k l v =
      let due =
        process_due-IsValid k.claim_error k.locked k.claimed_at k.ended k.attempts l.state v in
      elim (Bool-cases (cleanup_due l.last_cleanup k.cleaned_at)) [
        | inl clean ↦ rw clean (
            write-IsValid k.delete_error _ _
              (delete_completed_before-IsValid due (k.cleaned_at - pos_part cfg.retention)) due)
        | inr skip ↦ rw skip due
      ]

-- The reprocessor keeps the queue valid over any number of ticks, whatever the store, the
-- synchronisation, the clocks and the cancellations do.
pub service_run-IsValid :
    (cfg : WebhookConfig) (ticks : List Tick) (l : Loop)
    → IsValid l.state.table
    → IsValid (run cfg ticks l).state.table
unfolding run
service_run-IsValid cfg [] l v = v
service_run-IsValid cfg (k ∷ ticks) l v =
    service_run-IsValid cfg ticks (tick cfg k l) (tick-IsValid cfg k l v)
