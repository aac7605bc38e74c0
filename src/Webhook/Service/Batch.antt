-- ===== src/Webhook/Service/Batch.antt =====
-- A pass of the reprocessor with a working synchronisation completes what is due.
use mathlib.Core.Path.{subst}
use app_catalogo.Common.{
  ℕ, ◌+◌, ◌≤◌, ◌≡◌, sym, ap, ◌∙◌, inl, inr, Bool, true, false, none, some, List, [], ◌∷◌, map,
  keep_if, any, length, arith, Bool-cases, ◌==◌, or_elim, or_intro, ==_sound,
}
use app_catalogo.Common.Int.{ℤ, pos_part}
use app_catalogo.Webhook.Queue
use app_catalogo.Webhook.Queue.{
  WebhookEventStatus, pending, completed, Row, SalesForceWebhookEvent, scan_webhook_event, is_due,
  covers, complete_row, claim_row, due_ids, has_id,
}
use app_catalogo.Webhook.Queue.Chosen.{due_ids_complete}
use app_catalogo.Webhook.Queue.Completion.{complete_find}
use app_catalogo.Webhook.Queue.Find.{
  find_row, find_row-map, find_row-id, find_row_cases, not-find_row-nil,
}
use app_catalogo.Webhook.Service.Config.{WebhookConfig}
use app_catalogo.Webhook.Service.{State, Attempt, process_synced, process, process_all, process_due}

-- The event of an id is among those claimed.
abbrev includes : ℕ → List SalesForceWebhookEvent → Bool
includes i events = any (λ (ev : SalesForceWebhookEvent). ev.id == i) events

includes-claimed :
    (now i : ℕ) (p : Row → Bool) (rows : List Row) (r : Row)
    → find_row i rows ≡ some r
    → p r ≡ true
    → includes i (map (scan_webhook_event now) (keep_if p rows)) ≡ true
unfolding scan_webhook_event
includes-claimed now i p [] r found h = absurd (not-find_row-nil i r found)
includes-claimed now i p (s ∷ rows) r found h = elim (find_row_cases i s rows r found) [
  | inl here ↦ rw (subst (λ x. p x ≡ true) (sym here.1) h) (
      or_intro (s.id == i) (includes i (map (scan_webhook_event now) (keep_if p rows)))
        (inl (ground arith)))
  | inr later ↦
      let rest = includes-claimed now i p rows r later.1 h in
      elim (Bool-cases (p s)) [
        | inl keeps ↦ rw keeps (
            or_intro (s.id == i) (includes i (map (scan_webhook_event now) (keep_if p rows)))
              (inr rest))
        | inr drops ↦ rw drops rest
      ]
]

abbrev pub Works : Attempt → Type 0
Works a = (a.sync_error ≡ none) × (a.write_error ≡ none)

process-Works :
    (cfg : WebhookConfig) (ev : SalesForceWebhookEvent) (a : Attempt) (s : State)
    → Works a
    → (process cfg ev a s).1.table ≡ (Queue.complete a.written_at ev s.table).1
unfolding process process_synced
process-Works cfg ev a s w = rw (w.0, process, w.1, process_synced)

-- The row of an id is completed.
abbrev pub Ended : ℕ → List Row → Type 0
Ended i rows = (r : Row) × (find_row i rows ≡ some r) × (r.status ≡ completed)

complete_row_ended :
    (now : ℕ) (ev : SalesForceWebhookEvent) (r : Row)
    → r.status ≡ completed
    → (complete_row now ev r).status ≡ completed
unfolding complete_row covers
complete_row_ended now ev r h = ground arith

complete_row_own :
    (now : ℕ) (ev : SalesForceWebhookEvent) (r : Row)
    → r.id ≡ ev.id
    → (complete_row now ev r).status ≡ completed
unfolding complete_row covers
complete_row_own now ev r h = ground arith

module _ (cfg : WebhookConfig) (ended : ℕ → Bool) (env : ℕ → Attempt)
    (goes_on : (n : ℕ) → ended n ≡ false) (works : (n : ℕ) → Works (env n)) where
  next_row :
      (ev : SalesForceWebhookEvent) (n : ℕ) (s : State) (i : ℕ) (r : Row)
      → find_row i s.table.rows ≡ some r
      → find_row i (process cfg ev (env n) s).1.table.rows
        ≡ some (complete_row (env n).written_at ev r)
  next_row ev n s i r found =
      ap (λ t. find_row i t.rows) (process-Works cfg ev (env n) s (works n))
      ∙ complete_find (env n).written_at ev s.table i r found

  stays_ended :
      (events : List SalesForceWebhookEvent) (n : ℕ) (s : State) (i : ℕ)
      → Ended i s.table.rows
      → Ended i (process_all cfg events ended env n s).table.rows
  unfolding process_all
  stays_ended [] n s i h = h
  stays_ended (ev ∷ events) n s i (r, found, done) = rw (goes_on n) (
      stays_ended events (n + 1) (process cfg ev (env n) s).1 i (
        complete_row (env n).written_at ev r,
        next_row ev n s i r found,
        complete_row_ended (env n).written_at ev r done,
      ))

  process_all_ends :
      (events : List SalesForceWebhookEvent) (n : ℕ) (s : State) (i : ℕ) (r : Row)
      → find_row i s.table.rows ≡ some r
      → includes i events ≡ true
      → Ended i (process_all cfg events ended env n s).table.rows
  unfolding process_all
  process_all_ends [] n s i r found h = cc
  process_all_ends (ev ∷ events) n s i r found h =
      let next = next_row ev n s i r found in
      let row = complete_row (env n).written_at ev r in
      rw (goes_on n) (elim (or_elim (ev.id == i) (includes i events) h) [
        | inl own ↦ stays_ended events (n + 1) (process cfg ev (env n) s).1 i (
          row,
          next,
          complete_row_own (env n).written_at ev r
              (find_row-id i s.table.rows r found ∙ sym (==_sound ev.id i own)),
        )
        | inr later ↦ process_all_ends events (n + 1) (process cfg ev (env n) s).1 i row next later
      ])

-- A due row is among the claimed events, and has a row in the table that the claim leaves.
claimed_due :
    (locked : ℕ → Bool) (now limit : ℕ) (lease : ℤ) (t : Queue.Table) (i : ℕ) (r : Row)
    → find_row i t.rows ≡ some r
    → is_due locked now r ≡ true
    → length t.rows ≤ limit
    → (q : Row) × (find_row i (Queue.claim_due locked now limit lease t).1.rows ≡ some q)
      × (includes i (Queue.claim_due locked now limit lease t).0 ≡ true)
unfolding Queue.claim_due claim_row
claimed_due locked now limit lease t i r found due room =
    let ids = due_ids locked now limit t.rows in
    let row = claim_row ids now lease r in
    let chosen = due_ids_complete locked now limit t.rows i r found due room in
    let here : find_row i (map (claim_row ids now lease) t.rows) ≡ some row =
      rw (find_row-map i (claim_row ids now lease) t.rows (λ s. ground arith), found) in
    (
      row,
      here,
      includes-claimed now i (λ s. has_id ids s.id) (map (claim_row ids now lease) t.rows) row here
          (subst (λ k. has_id ids k ≡ true) (sym (find_row-id i _ row here)) chosen),
    )

-- A pass whose store answers, whose context lasts and whose synchronisations succeed completes
-- every event that is due and that no transaction holds, where the batch has room for the table.
pub process_due_completes :
    (cfg : WebhookConfig) (locked : ℕ → Bool) (now : ℕ) (ended : ℕ → Bool) (env : ℕ → Attempt)
    (s : State) (i : ℕ) (r : Row)
    → find_row i s.table.rows ≡ some r
    → is_due locked now r ≡ true
    → length s.table.rows ≤ pos_part cfg.batch_size
    → ((n : ℕ) → ended n ≡ false)
    → ((n : ℕ) → Works (env n))
    → Ended i (process_due cfg none locked now ended env s).2.table.rows
unfolding process_due
process_due_completes cfg locked now ended env s i r found due room goes_on works =
    let (q, here, among) =
      claimed_due locked now (pos_part cfg.batch_size) cfg.lease s.table i r found due room in
    process_all_ends cfg ended env goes_on works _ 0 _ i q here among
