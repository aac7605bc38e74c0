-- ===== src/Webhook/Queue/Lease.antt =====
-- Who owns an event: leases, and failures that only the owner of the attempt may report.
use mathlib.Core.Path.{subst}
use app_catalogo.Common.{
  ℕ, ◌+◌, ◌≤◌, ◌<◌, String, ◌≡◌, ◌≢◌, refl, sym, ap, ◌∙◌, Bool, true, false, some, List, length,
  arith, false_of_not, ◌↔◌,
}
use app_catalogo.Common.Int.{ℤ, pos, ◌+ℤ◌}
use app_catalogo.Webhook.Queue.{
  pending, Row, Table, SalesForceWebhookEvent, is_due, claim_row, claim_due, due_ids, has_id,
  fail_row, fail,
}
use app_catalogo.Webhook.Queue.Find.{find_row, find_row-map, find_row-id}
use app_catalogo.Webhook.Queue.Chosen.{due_ids_sound, due_ids_complete}
use app_catalogo.Webhook.Queue.Valid.{IsValid, claim_due-IsValid}

-- The row after a claim at an instant with a lease.
abbrev pub claimed : ℕ → ℤ → Row → Row
claimed now lease r = record r { attempts = r.attempts + 1; next_attempt_at = pos now +ℤ lease }

claim_due_find :
    (locked : ℕ → Bool) (now limit : ℕ) (lease : ℤ) (t : Table) (i : ℕ) (r : Row)
    → find_row i t.rows ≡ some r
    → find_row i (claim_due locked now limit lease t).1.rows
      ≡ some (claim_row (due_ids locked now limit t.rows) now lease r)
unfolding claim_due
claim_due_find locked now limit lease t i r found = rw (
  find_row-map i (claim_row (due_ids locked now limit t.rows) now lease) t.rows (λ s. ground arith),
  found,
)

claim_row_takes :
    (ids : List ℕ) (now : ℕ) (lease : ℤ) (r : Row)
    → has_id ids r.id ≡ true
    → claim_row ids now lease r ≡ claimed now lease r
unfolding claim_row
claim_row_takes ids now lease r h = rw h

claim_row_leaves :
    (ids : List ℕ) (now : ℕ) (lease : ℤ) (r : Row)
    → has_id ids r.id ≡ false
    → claim_row ids now lease r ≡ r
unfolding claim_row
claim_row_leaves ids now lease r h = rw h

claim_takes :
    (locked : ℕ → Bool) (now limit : ℕ) (lease : ℤ) (t : Table) (i : ℕ) (r : Row)
    → find_row i t.rows ≡ some r
    → is_due locked now r ≡ true
    → length t.rows ≤ limit
    → find_row i (claim_due locked now limit lease t).1.rows ≡ some (claimed now lease r)
claim_takes locked now limit lease t i r found due room =
    let chosen = due_ids_complete locked now limit t.rows i r found due room in
    let ids = due_ids locked now limit t.rows in
    claim_due_find locked now limit lease t i r found
    ∙ ap some (
        claim_row_takes ids now lease r
          (subst (λ k. has_id ids k ≡ true) (sym (find_row-id i t.rows r found)) chosen))

-- A claim leaves alone a row that is not due.
claim_ignores :
    (locked : ℕ → Bool) (now limit : ℕ) (lease : ℤ) (t : Table) (i : ℕ) (r : Row)
    → IsValid t
    → find_row i t.rows ≡ some r
    → is_due locked now r ≡ false
    → find_row i (claim_due locked now limit lease t).1.rows ≡ some r
claim_ignores locked now limit lease t i r v found waits =
    let ids = due_ids locked now limit t.rows in
    let named = find_row-id i t.rows r found in
    claim_due_find locked now limit lease t i r found
    ∙ ap some (
        claim_row_leaves ids now lease r (
          false_of_not (has_id ids r.id) λ h. cc (
            waits,
            due_ids_sound locked now limit t.rows i r v.in_order found
                (subst (λ k. has_id ids k ≡ true) named h),
          )))

leased_is_not_due :
    (locked : ℕ → Bool) (now later lease : ℕ) (r : Row)
    → later < now + lease
    → is_due locked later (claimed now (pos lease) r) ≡ false
unfolding is_due
leased_is_not_due locked now later lease r h = ground arith

-- A due event that no transaction holds is claimed, where the limit has room for the table: its
-- attempts go up by one and its lease runs from the instant of the claim. Another claim before the
-- lease ends leaves the event alone, whatever rows are held and whatever limit and lease it has.
pub claim_leases :
    (locked : ℕ → Bool) (now limit lease : ℕ) (t : Table) (i : ℕ) (r : Row) (other : ℕ → Bool)
    (later most : ℕ) (next_lease : ℤ)
    → IsValid t
    → find_row i t.rows ≡ some r
    → is_due locked now r ≡ true
    → length t.rows ≤ limit
    → later < now + lease
    → (find_row i (claim_due locked now limit (pos lease) t).1.rows
        ≡ some (claimed now (pos lease) r))
      × (find_row i
            (claim_due other later most next_lease
              (claim_due locked now limit (pos lease) t).1).1.rows
          ≡ some (claimed now (pos lease) r))
claim_leases locked now limit lease t i r other later most next_lease v found due room early =
    let taken = claim_takes locked now limit (pos lease) t i r found due room in
    (
      taken,
      claim_ignores other later most next_lease (claim_due locked now limit (pos lease) t).1 i
          (claimed now (pos lease) r) (claim_due-IsValid v locked now limit (pos lease)) taken
          (leased_is_not_due other now later lease r early),
    )

fail_find :
    (now : ℕ) (ev : SalesForceWebhookEvent) (message : String) (retry_in : ℤ) (t : Table) (i : ℕ)
    (r : Row)
    → find_row i t.rows ≡ some r
    → find_row i (fail now ev message retry_in t).rows ≡ some (fail_row now ev message retry_in r)
unfolding fail
fail_find now ev message retry_in t i r found =
    rw (find_row-map i (fail_row now ev message retry_in) t.rows (λ s. ground arith), found)

fail_row_leaves :
    (now : ℕ) (ev : SalesForceWebhookEvent) (message : String) (retry_in : ℤ) (r : Row)
    → r.attempts ≢ ev.attempts
    → fail_row now ev message retry_in r ≡ r
unfolding fail_row
fail_row_leaves now ev message retry_in r h = ground arith

-- A failure that is reported after the event was claimed again changes nothing of it: the attempt
-- that reports it read the event no later than the row stood before the claim.
pub stale_fail :
    (locked : ℕ → Bool) (now limit : ℕ) (lease : ℤ) (t : Table) (i : ℕ) (r : Row)
    (ev : SalesForceWebhookEvent) (late : ℕ) (message : String) (retry_in : ℤ)
    → find_row i t.rows ≡ some r
    → is_due locked now r ≡ true
    → length t.rows ≤ limit
    → ev.attempts ≤ r.attempts
    → find_row i (fail late ev message retry_in (claim_due locked now limit lease t).1).rows
      ≡ some (claimed now lease r)
stale_fail locked now limit lease t i r ev late message retry_in found due room old =
    fail_find late ev message retry_in (claim_due locked now limit lease t).1 i
      (claimed now lease r) (claim_takes locked now limit lease t i r found due room)
    ∙ ap some (fail_row_leaves late ev message retry_in (claimed now lease r) (omega arith))

abbrev pub no_lock : ℕ → Bool
no_lock id = false

fail_row_owner :
    (now : ℕ) (ev : SalesForceWebhookEvent) (message : String) (retry_in : ℤ) (r : Row)
    → r.id ≡ ev.id
    → r.status ≡ pending
    → r.attempts ≡ ev.attempts
    → fail_row now ev message retry_in r
      ≡ record r { last_error = some message; next_attempt_at = pos now +ℤ retry_in }
unfolding fail_row
fail_row_owner now ev message retry_in r same waits own = ground arith

rescheduled_due :
    (now retry_in at : ℕ) (message : String) (r : Row)
    → r.status ≡ pending
    → (is_due no_lock at
          (record r { last_error = some message; next_attempt_at = pos now +ℤ pos retry_in })
        ≡ true)
      ↔ (now + retry_in ≤ at)
unfolding is_due
rescheduled_due now retry_in at message r waits = (λ h. ground arith, λ h. ground arith)

-- A failure that the owner of the attempt reports keeps the event pending with the same attempts,
-- records the message, and makes it due again exactly from the wait after the report on.
pub fail_reschedules :
    (now retry_in : ℕ) (ev : SalesForceWebhookEvent) (message : String) (t : Table) (r : Row)
    → find_row ev.id t.rows ≡ some r
    → r.status ≡ pending
    → r.attempts ≡ ev.attempts
    → (s : Row) × (find_row ev.id (fail now ev message (pos retry_in) t).rows ≡ some s)
      × (s.status ≡ pending)
      × (s.attempts ≡ r.attempts)
      × (s.last_error ≡ some message)
      × ((at : ℕ) → (is_due no_lock at s ≡ true) ↔ (now + retry_in ≤ at))
fail_reschedules now retry_in ev message t r found waits own = (
  record r { last_error = some message; next_attempt_at = pos now +ℤ pos retry_in },
  fail_find now ev message (pos retry_in) t ev.id r found
      ∙ ap some (
          fail_row_owner now ev message (pos retry_in) r (find_row-id ev.id t.rows r found) waits
            own),
  waits,
  refl,
  refl,
  λ at. rescheduled_due now retry_in at message r waits,
)
