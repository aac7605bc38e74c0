-- ===== src/Webhook/Queue/Valid.antt =====
-- The invariant of the table: ids increase below the sequence, event keys are distinct, and a row
-- has a processing time exactly when it is completed.
use app_catalogo.Common.{
  ℕ, ◌+◌, ◌≤◌, ◌<◌, String, ◌≡◌, ◌≢◌, refl, sym, ◌∙◌, Bool, false, not, Option, none, List, [], ◌∷◌,
  ◌++◌, map, keep_if, arith, All, Bool-cases, inl, inr, eq_iff,
}
use app_catalogo.Common.Int.{ℤ}
use app_catalogo.Webhook.Queue.{
  WebhookEventStatus, pending, completed, Row, Table, SalesForceWebhookEvent, has_key, new_row,
  enqueue, claim_row, claim_due, due_ids, complete_row, complete, fail_row, fail,
  delete_completed_before, expires,
}

-- `s` was inserted after `r`.
abbrev pub Precedes : Row → Row → Type 0
Precedes r s = (r.id < s.id) × (r.event_key ≢ s.event_key)

abbrev pub InOrder : List Row → Type 0
InOrder [] = Unit
InOrder (r ∷ rows) = All (Precedes r) rows × InOrder rows

abbrev TimesAgree : WebhookEventStatus → Option ℕ → Type 0
TimesAgree pending p = p ≡ none
TimesAgree completed p = p ≢ none

abbrev pub IsRow : ℕ → Row → Type 0
IsRow n r = (r.id < n) × (1 ≤ r.attempts) × TimesAgree r.status r.processed_at

pub record IsValid (t : Table) : Type 0 where
  pub in_order : InOrder t.rows
  pub rows : All (IsRow t.next_id) t.rows

-- An update that keeps what identifies a row.
abbrev pub KeepsIdentity : (Row → Row) → Type 0
KeepsIdentity f = (r : Row) → ((f r).id ≡ r.id) × ((f r).event_key ≡ r.event_key)

module _ (f : Row → Row) (keeps : KeepsIdentity f) where
  Precedes-map :
      (r : Row) (rows : List Row) → All (Precedes r) rows → All (Precedes (f r)) (map f rows)
  Precedes-map r [] h = tt
  Precedes-map r (s ∷ rows) (h, t) = (
    (omega (arith, (keeps r).0, (keeps s).0), λ e. h.1 (sym (keeps r).1 ∙ e ∙ (keeps s).1)),
    Precedes-map r rows t,
  )

  InOrder-map : (rows : List Row) → InOrder rows → InOrder (map f rows)
  InOrder-map [] h = tt
  InOrder-map (r ∷ rows) (h, t) = (Precedes-map r rows h, InOrder-map rows t)

All-map {ℓ} :
    {P : Row → Type ℓ} (f : Row → Row) (rows : List Row)
    → ((r : Row) → P r → P (f r))
    → All P rows
    → All P (map f rows)
All-map f [] k h = tt
All-map f (r ∷ rows) k (h, t) = (k r h, All-map f rows k t)

All-keep_if {ℓ} :
    (P : Row → Type ℓ) (p : Row → Bool) (rows : List Row) → All P rows → All P (keep_if p rows)
All-keep_if P p [] h = tt
All-keep_if P p (r ∷ rows) (h, t) = elim (Bool-cases (p r)) [
  | inl y ↦ rw y (h, All-keep_if P p rows t)
  | inr n ↦ rw n (All-keep_if P p rows t)
]

InOrder-keep_if : (p : Row → Bool) (rows : List Row) → InOrder rows → InOrder (keep_if p rows)
InOrder-keep_if p [] h = tt
InOrder-keep_if p (r ∷ rows) (h, t) = elim (Bool-cases (p r)) [
  | inl y ↦ rw y (All-keep_if (Precedes r) p rows h, InOrder-keep_if p rows t)
  | inr n ↦ rw n (InOrder-keep_if p rows t)
]

All-append_one {ℓ} :
    (P : Row → Type ℓ) (rows : List Row) (r : Row) → All P rows → P r → All P (rows ++ r ∷ [])
All-append_one P [] r h k = (k, tt)
All-append_one P (s ∷ rows) r (h, t) k = (h, All-append_one P rows r t k)

InOrder-append_one :
    (rows : List Row) (r : Row)
    → InOrder rows
    → All (λ s. Precedes s r) rows
    → InOrder (rows ++ r ∷ [])
InOrder-append_one [] r h k = (tt, tt)
InOrder-append_one (s ∷ rows) r (h, t) (k, l) =
    (All-append_one (Precedes s) rows r h k, InOrder-append_one rows r t l)

-- A key that no row has is distinct from the key of each.
new_key :
    (n : ℕ) (key : String) (r : Row) (rows : List Row)
    → r.id ≡ n
    → r.event_key ≡ key
    → has_key key rows ≡ false
    → All (IsRow n) rows
    → All (λ s. Precedes s r) rows
unfolding has_key
new_key n key r [] e f h k = tt
new_key n key r (s ∷ rows) e f h (k, l) = (
  (omega arith, λ same. cc ((eq_iff s.event_key key).1 (same ∙ f), h)),
  new_key n key r rows e f (ground arith) l,
)

IsRow-suc : (n : ℕ) (rows : List Row) → All (IsRow n) rows → All (IsRow (n + 1)) rows
IsRow-suc n [] h = tt
IsRow-suc n (r ∷ rows) (h, t) = ((omega (arith, h.0), h.1, h.2), IsRow-suc n rows t)

pub empty_IsValid : IsValid (record { rows = []; next_id = 1 })
empty_IsValid = record { in_order = tt; rows = tt }

module _ {t : Table} (v : IsValid t) where
  pub enqueue-IsValid :
      (now : ℕ) (key slug event_type : String) (lease : ℤ)
      → IsValid (enqueue now key slug event_type lease t).1
  unfolding enqueue
  enqueue-IsValid now key slug event_type lease = elim (Bool-cases (has_key key t.rows)) [
    | inl old ↦ rw old v
    | inr new ↦
        let row = new_row t.next_id now key slug event_type lease in
        rw new (record {
          in_order =
              InOrder-append_one t.rows row v.in_order
                (new_key t.next_id key row t.rows refl refl new v.rows);
          rows =
              All-append_one (IsRow (t.next_id + 1)) t.rows row (IsRow-suc t.next_id t.rows v.rows)
                (omega arith, omega arith, refl);
        })
  ]

  pub claim_due-IsValid :
      (locked : ℕ → Bool) (now limit : ℕ) (lease : ℤ)
      → IsValid (claim_due locked now limit lease t).1
  unfolding claim_due
  claim_due-IsValid locked now limit lease =
      let ids = due_ids locked now limit t.rows in
      record {
        in_order = InOrder-map (claim_row ids now lease) (λ r. ground arith) t.rows v.in_order;
        rows = All-map (claim_row ids now lease) t.rows (λ r h. ground arith) v.rows;
      }

  pub complete-IsValid : (now : ℕ) (ev : SalesForceWebhookEvent) → IsValid (complete now ev t).1
  unfolding complete
  complete-IsValid now ev = record {
    in_order = InOrder-map (complete_row now ev) (λ r. ground arith) t.rows v.in_order;
    rows = All-map (complete_row now ev) t.rows (λ r h. ground arith) v.rows;
  }

  pub fail-IsValid :
      (now : ℕ) (ev : SalesForceWebhookEvent) (message : String) (retry_in : ℤ)
      → IsValid (fail now ev message retry_in t)
  unfolding fail
  fail-IsValid now ev message retry_in = record {
    in_order = InOrder-map (fail_row now ev message retry_in) (λ r. ground arith) t.rows v.in_order;
    rows = All-map (fail_row now ev message retry_in) t.rows (λ r h. ground arith) v.rows;
  }

  pub delete_completed_before-IsValid : (before : ℕ) → IsValid (delete_completed_before before t).1
  unfolding delete_completed_before
  delete_completed_before-IsValid before = record {
    in_order = InOrder-keep_if (λ r. not (expires before r)) t.rows v.in_order;
    rows = All-keep_if (IsRow t.next_id) (λ r. not (expires before r)) t.rows v.rows;
  }
