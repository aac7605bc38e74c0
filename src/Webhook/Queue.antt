-- ===== src/Webhook/Queue.antt =====
-- internal/repository/salesforce_webhook_repository.go: the SQL statements of the queue, on the
-- rows of salesforce_webhook_events. NOW() is an argument, in nanoseconds. The rows stand in the
-- order of their ids, and a RETURNING clause gives them in that order. An error of the database
-- leaves the table as it is and is the service's concern.
pub mod Find
pub mod Valid
pub mod Chosen
pub mod Runs
pub mod Evolution
pub mod Waiting
pub mod Lease
pub mod Completion
pub mod Dedup
use app_catalogo.Common.{
  ℕ, zero, suc, ◌+◌, String, Bool, true, false, not, ◌&&◌, ◌||◌, Option, none, some, List, [], ◌∷◌,
  ◌++◌, map, any, keep_if, take, length, ltb, leb, ◌==◌, str_eq, if◌then◌else◌,
}
use app_catalogo.Common.Int.{ℤ, pos, ◌+ℤ◌, ltb_ℤ, leb_ℤ}

pub data WebhookEventStatus : Type 0 where
  pending completed : WebhookEventStatus

abbrev pub is_pending : WebhookEventStatus → Bool
is_pending pending = true
is_pending completed = false

-- A row of the table; the columns are those of the migration, but for updated_at.
pub record Row : Type 0 where
  pub id : ℕ
  pub event_key : String
  pub slug : String
  pub event_type : String
  pub status : WebhookEventStatus
  pub attempts : ℕ
  pub last_error : Option String
  pub next_attempt_at : ℤ
  pub received_at : ℕ
  pub processed_at : Option ℕ

pub record Table : Type 0 where
  pub rows : List Row
  -- the sequence of the ids
  pub next_id : ℕ

-- What `scanWebhookEvent` makes of a row; its last column is NOW().
pub record SalesForceWebhookEvent : Type 0 where
  pub id : ℕ
  pub event_key : String
  pub slug : String
  pub event_type : String
  pub status : WebhookEventStatus
  pub attempts : ℕ
  pub next_attempt_at : ℤ
  pub received_at : ℕ
  pub claimed_at : ℕ

unfoldable pub scan_webhook_event : ℕ → Row → SalesForceWebhookEvent
scan_webhook_event now r = record {
  id = r.id;
  event_key = r.event_key;
  slug = r.slug;
  event_type = r.event_type;
  status = r.status;
  attempts = r.attempts;
  next_attempt_at = r.next_attempt_at;
  received_at = r.received_at;
  claimed_at = now;
}

unfoldable pub new_row : ℕ → ℕ → String → String → String → ℤ → Row
new_row id now event_key slug event_type lease = record {
  id = id;
  event_key = event_key;
  slug = slug;
  event_type = event_type;
  status = pending;
  attempts = 1;
  last_error = none;
  next_attempt_at = pos now +ℤ lease;
  received_at = now;
  processed_at = none;
}

unfoldable pub has_key : String → List Row → Bool
has_key key rows = any (λ (r : Row). str_eq r.event_key key) rows

-- INSERT … ON CONFLICT (event_key) DO NOTHING; `none` is created = false. The id that a conflict
-- uses up is left out: the ids that rows get increase with or without such gaps.
unfoldable pub enqueue :
    ℕ → String → String → String → ℤ → Table → Option SalesForceWebhookEvent × Table
unfolding new_row
enqueue now event_key slug event_type lease t =
    if has_key event_key t.rows
    then (none, t)
    else (let row = new_row t.next_id now event_key slug event_type lease in
        (
          some (scan_webhook_event now row),
          record { rows = t.rows ++ row ∷ []; next_id = t.next_id + 1 },
        ))

-- status = 'pending' AND next_attempt_at <= NOW(), and no other transaction holds the row.
unfoldable pub is_due : (ℕ → Bool) → ℕ → Row → Bool
is_due locked now r = is_pending r.status && leb_ℤ r.next_attempt_at (pos now) && not (locked r.id)

-- ORDER BY next_attempt_at, id
abbrev comes_before : Row → Row → Bool
comes_before r s =
    ltb_ℤ r.next_attempt_at s.next_attempt_at
    || (leb_ℤ r.next_attempt_at s.next_attempt_at && leb r.id s.id)

unfoldable pub insert_row : Row → List Row → List Row
insert_row r [] = r ∷ []
insert_row r (s ∷ rows) =
    let rest = insert_row r rows in if comes_before r s then r ∷ s ∷ rows else s ∷ rest

unfoldable pub sort_rows : List Row → List Row
unfolding insert_row
sort_rows [] = []
sort_rows (r ∷ rows) = insert_row r (sort_rows rows)

-- The ids of the inner SELECT.
unfoldable pub due_ids : (ℕ → Bool) → ℕ → ℕ → List Row → List ℕ
unfolding is_due sort_rows
due_ids locked now limit rows =
    map (λ (r : Row). r.id) (take limit (sort_rows (keep_if (is_due locked now) rows)))

unfoldable pub has_id : List ℕ → ℕ → Bool
has_id ids id = any (λ i. i == id) ids

unfoldable pub claim_row : List ℕ → ℕ → ℤ → Row → Row
claim_row ids now lease r =
    if has_id ids r.id
    then record r { attempts = r.attempts + 1; next_attempt_at = pos now +ℤ lease }
    else r

-- UPDATE … WHERE id IN (SELECT … FOR UPDATE SKIP LOCKED) RETURNING …
unfoldable pub claim_due : (ℕ → Bool) → ℕ → ℕ → ℤ → Table → List SalesForceWebhookEvent × Table
unfolding due_ids claim_row scan_webhook_event
claim_due locked now limit lease t =
    let ids = due_ids locked now limit t.rows in
    let rows = map (claim_row ids now lease) t.rows in
    (
      map (scan_webhook_event now) (keep_if (λ (r : Row). has_id ids r.id) rows),
      record t { rows = rows },
    )

-- The WHERE clause of `Complete`.
unfoldable pub covers : SalesForceWebhookEvent → Row → Bool
covers ev r =
    is_pending r.status
    && (r.id == ev.id || (str_eq r.slug ev.slug && leb r.received_at ev.claimed_at))

unfoldable pub complete_row : ℕ → SalesForceWebhookEvent → Row → Row
unfolding covers
complete_row now ev r =
    if covers ev r
    then record r { status = completed; processed_at = some now; last_error = none }
    else r

unfoldable pub complete : ℕ → SalesForceWebhookEvent → Table → ℕ × Table
unfolding complete_row
complete now ev t =
    (length (keep_if (covers ev) t.rows), record t { rows = map (complete_row now ev) t.rows })

-- The WHERE clause of `Fail`.
unfoldable pub owns : SalesForceWebhookEvent → Row → Bool
owns ev r = r.id == ev.id && is_pending r.status && r.attempts == ev.attempts

unfoldable pub fail_row : ℕ → SalesForceWebhookEvent → String → ℤ → Row → Row
unfolding owns
fail_row now ev message retry_in r =
    if owns ev r
    then record r { last_error = some message; next_attempt_at = pos now +ℤ retry_in }
    else r

-- `message` is the error's text, already cut to maxWebhookErrorLength.
unfoldable pub fail : ℕ → SalesForceWebhookEvent → String → ℤ → Table → Table
unfolding fail_row
fail now ev message retry_in t = record t { rows = map (fail_row now ev message retry_in) t.rows }

abbrev processed_before : ℕ → Option ℕ → Bool
processed_before before none = false
processed_before before (some at) = ltb at before

-- The WHERE clause of `DeleteCompletedBefore`.
unfoldable pub expires : ℕ → Row → Bool
expires before r = not (is_pending r.status) && processed_before before r.processed_at

unfoldable pub delete_completed_before : ℕ → Table → ℕ × Table
unfolding expires
delete_completed_before before t = (
  length (keep_if (expires before) t.rows),
  record t { rows = keep_if (λ r. not (expires before r)) t.rows },
)
