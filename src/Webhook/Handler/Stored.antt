-- ===== src/Webhook/Handler/Stored.antt =====
-- What the answer "queued" promises.
use mathlib.Core.Path.{subst}
use app_catalogo.Common.{
  ℕ, String, ◌≡◌, refl, sym, ap, ◌∙◌, inl, inr, Option, none, some, List, [], ◌∷◌, ◌++◌, arith, All,
  Bool-cases, Option-cases,
}
use app_catalogo.Common.Go.{Error}
use app_catalogo.Common.Int.{ℤ}
use app_catalogo.Webhook.Queue
use app_catalogo.Webhook.Queue.{
  pending, Row, Table, SalesForceWebhookEvent, has_key, new_row, scan_webhook_event,
}
use app_catalogo.Webhook.Queue.Find.{find_row, find_row_here, find_row_skip}
use app_catalogo.Webhook.Queue.Valid.{IsValid, IsRow}
use app_catalogo.Webhook.Service.Config.{WebhookConfig}
use app_catalogo.Webhook.Service.EventType.{sanitize_event_type}
use app_catalogo.Webhook.Service.{
  State, Enqueued, failed, enqueue, store_event, count_enqueued, choose_key,
}
use app_catalogo.Webhook.Handler.{
  Libraries, Body, read, Payload, Call, Reply, answer, chosen_slug, sales_force,
}
use app_catalogo.Webhook.Handler.Signed.{sales_force_admits}

-- The row of the event, as it was stored for the first attempt.
abbrev pub Stored : Table → String → SalesForceWebhookEvent → Type 0
Stored t slug ev =
    (r : Row) × (find_row ev.id t.rows ≡ some r)
    × (r.slug ≡ slug)
    × (r.status ≡ pending)
    × (r.attempts ≡ 1)
    × (ev.attempts ≡ 1)

find_last :
    (n : ℕ) (rows : List Row) (r : Row)
    → r.id ≡ n
    → All (IsRow n) rows
    → find_row n (rows ++ r ∷ []) ≡ some r
find_last n [] r e h = find_row_here n r [] e
find_last n (s ∷ rows) r e ((below, tried, times), t) =
    find_row_skip n s (rows ++ r ∷ []) (omega arith) ∙ find_last n rows r e t

enqueue_stores :
    (now : ℕ) (key slug event_type : String) (lease : ℤ) (t : Table) (ev : SalesForceWebhookEvent)
    → IsValid t
    → (Queue.enqueue now key slug event_type lease t).0 ≡ some ev
    → Stored (Queue.enqueue now key slug event_type lease t).1 slug ev
unfolding Queue.enqueue scan_webhook_event new_row
enqueue_stores now key slug event_type lease t ev v h = elim (Bool-cases (has_key key t.rows)) [
  | inl old ↦ absurd (ground arith)
  | inr new ↦
      let row = new_row t.next_id now key slug event_type lease in
      let same : some (scan_webhook_event now row) ≡ some ev = rw new at h in
      rw new (
        row,
        ap (λ (i : ℕ). find_row i (t.rows ++ row ∷ [])) (ground arith)
            ∙ find_last t.next_id t.rows row refl v.rows,
        refl,
        refl,
        refl,
        ground arith,
      )
]

counted_started :
    (q : Option SalesForceWebhookEvent × Table) (s : State) (ev : SalesForceWebhookEvent)
    → (answer (count_enqueued q s)).started ≡ some ev
    → (q.0 ≡ some ev) × ((answer (count_enqueued q s)).state.table ≡ q.1)
unfolding answer
counted_started (none, t) s ev h = cc
counted_started (some e, t) s ev h = (h, refl)

Stored-started :
    (cfg : WebhookConfig) (now : ℕ) (store_error : Option Error) (key slug event_type : String)
    (s : State) (ev : SalesForceWebhookEvent)
    → IsValid s.table
    → (answer (store_event cfg now store_error key slug event_type s)).started ≡ some ev
    → Stored (answer (store_event cfg now store_error key slug event_type s)).state.table slug ev
unfolding answer
Stored-started cfg now (some e) key slug event_type s ev v h = cc
Stored-started cfg now none key slug event_type s ev v h =
    let q = Queue.enqueue now key slug (sanitize_event_type event_type) cfg.lease s.table in
    let (is_it, kept) = counted_started q s ev h in
    subst (λ t. Stored t slug ev) (sym kept)
      (enqueue_stores now key slug (sanitize_event_type event_type) cfg.lease s.table ev v is_it)

-- `Enqueue` without a key, and with one.
enqueue_unknown :
    (c : Call) (cfg : WebhookConfig) (body slug event_type event_created : String) (s : State)
    → choose_key c.hashing body event_created c.nonce ≡ none
    → enqueue c.hashing cfg c.now c.nonce c.nonce_error c.store_error body slug event_type
        event_created s
      ≡ (failed c.nonce_error, s)
unfolding enqueue
enqueue_unknown c cfg body slug event_type event_created s e = rw (e, enqueue) refl

enqueue_known :
    (c : Call) (cfg : WebhookConfig) (body slug event_type event_created : String) (s : State)
    (key : String)
    → choose_key c.hashing body event_created c.nonce ≡ some key
    → enqueue c.hashing cfg c.now c.nonce c.nonce_error c.store_error body slug event_type
        event_created s
      ≡ store_event cfg c.now c.store_error key slug event_type s
unfolding enqueue
enqueue_known c cfg body slug event_type event_created s key e = rw (e, enqueue) refl

failed_started :
    (e : Error) (s : State) (ev : SalesForceWebhookEvent)
    → ¬ ((answer (failed e, s)).started ≡ some ev)
unfolding answer
failed_started e s ev h = absurd (cc h)

-- The answer starts the event only if its row is stored.
abbrev StoresStarted : String → SalesForceWebhookEvent → Enqueued × State → Type 0
StoresStarted slug ev q = (answer q).started ≡ some ev → Stored (answer q).state.table slug ev

enqueue_started :
    (c : Call) (cfg : WebhookConfig) (body slug event_type event_created : String) (s : State)
    (ev : SalesForceWebhookEvent)
    → IsValid s.table
    → StoresStarted slug ev (
        enqueue c.hashing cfg c.now c.nonce c.nonce_error c.store_error body slug event_type
          event_created s)
enqueue_started c cfg body slug event_type event_created s ev v =
    elim (Option-cases (choose_key c.hashing body event_created c.nonce)) [
      | inl none_read ↦
          subst (StoresStarted slug ev)
            (sym (enqueue_unknown c cfg body slug event_type event_created s none_read))
            (λ h. absurd (failed_started c.nonce_error s ev h))
      | inr (key, e) ↦
          subst (StoresStarted slug ev)
            (sym (enqueue_known c cfg body slug event_type event_created s key e))
            (Stored-started cfg c.now c.store_error key slug event_type s ev v)
    ]

-- If the endpoint starts the processing of an event then the body was read and names a service,
-- and from a valid queue the event's row is stored under that service before the answer: pending,
-- with the first attempt counted, which is the attempt that is started.
pub queued-Stored :
    (l : Libraries) (c : Call) (events : Option WebhookConfig) (secret header : String)
    (body : Body) (s : State) (ev : SalesForceWebhookEvent)
    → IsValid s.table
    → (sales_force l c events secret header body s).started ≡ some ev
    → (text : String) × (p : Payload) × (body ≡ read text)
      × (l.unmarshal text ≡ some p)
      × Stored (sales_force l c events secret header body s).state.table (chosen_slug p) ev
queued-Stored l c events secret header body s ev v h =
    elim (sales_force_admits l c events secret header body s) [
      | inl (same, nothing) ↦ absurd (cc (nothing, h))
      | inr (set, (text, cfg, p, got, given, signed, parsed, is_slug, reply)) ↦ (
        text,
        p,
        got,
        parsed,
        subst (λ (r : Reply). Stored r.state.table (chosen_slug p) ev) (sym reply)
            (enqueue_started c cfg text (chosen_slug p) p.event_type p.event_created s ev v
              (sym (ap (λ (r : Reply). r.started) reply) ∙ h)),
      )
    ]
