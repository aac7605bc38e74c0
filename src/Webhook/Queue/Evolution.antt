-- ===== src/Webhook/Queue/Evolution.antt =====
-- What one statement of the queue may do to one event.
use mathlib.Core.Path.{subst}
use app_catalogo.Common.{
  ℕ, ◌≤◌, String, ◌≡◌, refl, sym, ◌∙◌, inl, inr, Bool, true, false, not, Option, none, some, List,
  [], ◌∷◌, map, keep_if, arith, All, Bool-cases,
}
use app_catalogo.Common.Int.{ℤ}
use app_catalogo.Webhook.Queue.{
  pending, completed, Row, Table, SalesForceWebhookEvent, is_due, has_key, enqueue, claim_row,
  claim_due, due_ids, has_id, complete_row, complete, fail_row, fail, expires,
  delete_completed_before, new_row,
}
use app_catalogo.Webhook.Queue.Find.{
  find_row, find_row-map, find_row-append, find_row_cases, find_row_here, find_row_skip,
  not-find_row-nil, find_row-nil, find_row-id,
}
use app_catalogo.Webhook.Queue.Chosen.{due_ids_sound}
use app_catalogo.Webhook.Queue.Valid.{IsValid, InOrder, Precedes}
use app_catalogo.Webhook.Queue.Runs.{
  Op, enqueues, claims, completes, fails, deletes, apply, is_completion,
}

-- What identifies an event stays, its attempts never fall, once completed it changes no more, and
-- its status changes only where a completion may have done it.
pub record Evolves (completing : Bool) (r s : Row) : Type 0 where
  pub id : s.id ≡ r.id
  pub event_key : s.event_key ≡ r.event_key
  pub slug : s.slug ≡ r.slug
  pub received_at : s.received_at ≡ r.received_at
  pub attempts : r.attempts ≤ s.attempts
  pub settled : r.status ≡ completed → s ≡ r
  pub status : completing ≡ false → s.status ≡ r.status

-- A row may be gone only if it was completed.
abbrev pub Survives : Bool → Row → Option Row → Type 0
Survives completing r none = r.status ≡ completed
Survives completing r (some s) = Evolves completing r s

Evolves-refl : (completing : Bool) (r : Row) → Evolves completing r r
Evolves-refl completing r = record {
  id = refl;
  event_key = refl;
  slug = refl;
  received_at = refl;
  attempts = omega arith;
  settled = λ c. refl;
  status = λ c. refl;
}

complete_row-Evolves :
    (now : ℕ) (ev : SalesForceWebhookEvent) (r : Row) → Evolves true r (complete_row now ev r)
unfolding complete_row
complete_row-Evolves now ev r = ground arith

fail_row-Evolves :
    (now : ℕ) (ev : SalesForceWebhookEvent) (message : String) (retry_in : ℤ) (r : Row)
    → Evolves false r (fail_row now ev message retry_in r)
unfolding fail_row
fail_row-Evolves now ev message retry_in r = ground arith

claim_row-Evolves :
    (ids : List ℕ) (now : ℕ) (lease : ℤ) (r : Row)
    → (has_id ids r.id ≡ true → r.status ≡ pending)
    → Evolves false r (claim_row ids now lease r)
unfolding claim_row
claim_row-Evolves ids now lease r h = ground arith

due_pending :
    (locked : ℕ → Bool) (now : ℕ) (r : Row) → is_due locked now r ≡ true → r.status ≡ pending
unfolding is_due
due_pending locked now r h = ground arith

-- The row of an id after a statement that updates every row.
Survives-map :
    (completing : Bool) (f : Row → Row) (t : Table) (i : ℕ) (r : Row)
    → ((s : Row) → (f s).id ≡ s.id)
    → find_row i t.rows ≡ some r
    → Evolves completing r (f r)
    → Survives completing r (find_row i (map f t.rows))
Survives-map completing f t i r keeps found evolves =
    rw (find_row-map i f t.rows keeps, found) evolves

later_missing :
    (p : Row → Bool) (s : Row) (rows : List Row) (i : ℕ)
    → s.id ≡ i
    → All (Precedes s) rows
    → find_row i (keep_if p rows) ≡ none
later_missing p s [] i e h = find_row-nil i
later_missing p s (x ∷ rows) i e (h, t) = elim (Bool-cases (p x)) [
  | inl keeps ↦
      rw keeps (find_row_skip i x (keep_if p rows) (omega arith) ∙ later_missing p s rows i e t)
  | inr drops ↦ rw drops (later_missing p s rows i e t)
]

expires_completed : (before : ℕ) (r : Row) → not (expires before r) ≡ false → r.status ≡ completed
unfolding expires
expires_completed before r h = ground arith

Survives-keep_if :
    (before : ℕ) (rows : List Row) (i : ℕ) (r : Row)
    → InOrder rows
    → find_row i rows ≡ some r
    → Survives false r (find_row i (keep_if (λ s. not (expires before s)) rows))
Survives-keep_if before [] i r o found = absurd (not-find_row-nil i r found)
Survives-keep_if before (s ∷ rows) i r (o, os) found =
    let p = λ (x : Row). not (expires before x) in
    elim (find_row_cases i s rows r found) [
      | inl here ↦ elim (Bool-cases (p s)) [
        | inl keeps ↦
            rw (keeps, find_row_here i s (keep_if p rows) here.0)
              (subst (λ x. Evolves false r x) (sym here.1) (Evolves-refl false r))
        | inr drops ↦
            rw (drops, later_missing p s rows i here.0 o)
              (subst (λ x. x.status ≡ completed) here.1 (expires_completed before s drops))
      ]
      | inr later ↦
          let rest = Survives-keep_if before rows i r os later.1 in
          elim (Bool-cases (p s)) [
            | inl keeps ↦ rw (keeps, find_row_skip i s (keep_if p rows) later.0) rest
            | inr drops ↦ rw drops rest
          ]
    ]

enqueue-Survives :
    (now : ℕ) (key slug event_type : String) (lease : ℤ) (t : Table) (i : ℕ) (r : Row)
    → find_row i t.rows ≡ some r
    → find_row i (enqueue now key slug event_type lease t).1.rows ≡ some r
unfolding enqueue
enqueue-Survives now key slug event_type lease t i r found =
    elim (Bool-cases (has_key key t.rows)) [
      | inl old ↦ rw old found
      | inr new ↦
          rw new (
            find_row-append i t.rows (new_row t.next_id now key slug event_type lease ∷ []) r found)
    ]

claim-Survives :
    (locked : ℕ → Bool) (now limit : ℕ) (lease : ℤ) (t : Table) (i : ℕ) (r : Row)
    → IsValid t
    → find_row i t.rows ≡ some r
    → Survives false r (find_row i (claim_due locked now limit lease t).1.rows)
unfolding claim_due
claim-Survives locked now limit lease t i r v found =
    let ids = due_ids locked now limit t.rows in
    Survives-map false (claim_row ids now lease) t i r (λ s. ground arith) found
      (claim_row-Evolves ids now lease r (λ h. due_pending locked now r (
        due_ids_sound locked now limit t.rows i r v.in_order found
          (subst (λ k. has_id ids k ≡ true) (find_row-id i t.rows r found) h))))

-- What one statement does to the row of an id: it is still there unless it was completed, with the
-- same key, slug and arrival, no fewer attempts, and unchanged if it was completed.
pub apply-Survives :
    (op : Op) (t : Table) (i : ℕ) (r : Row)
    → IsValid t
    → find_row i t.rows ≡ some r
    → Survives (is_completion op) r (find_row i (apply op t).rows)
unfolding apply complete fail delete_completed_before
apply-Survives (enqueues now key slug event_type lease) t i r v found =
    rw (enqueue-Survives now key slug event_type lease t i r found) (Evolves-refl false r)
apply-Survives (claims locked now limit lease) t i r v found =
    claim-Survives locked now limit lease t i r v found
apply-Survives (completes now ev) t i r v found =
    Survives-map true (complete_row now ev) t i r (λ s. ground arith) found
      (complete_row-Evolves now ev r)
apply-Survives (fails now ev message retry_in) t i r v found =
    Survives-map false (fail_row now ev message retry_in) t i r (λ s. ground arith) found
      (fail_row-Evolves now ev message retry_in r)
apply-Survives (deletes before) t i r v found = Survives-keep_if before t.rows i r v.in_order found
