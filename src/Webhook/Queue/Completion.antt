-- ===== src/Webhook/Queue/Completion.antt =====
-- What a completion covers, and that it is done once.
use app_catalogo.Common.{
  ℕ, ◌≤◌, ◌≡◌, refl, ap, ◌⊎◌, false, some, List, [], ◌∷◌, map, keep_if, length, arith, eq_iff,
}
use app_catalogo.Webhook.Queue.{
  pending, completed, Row, Table, SalesForceWebhookEvent, complete_row, covers, complete,
}
use app_catalogo.Webhook.Queue.Find.{find_row, find_row-map}

covers_completed :
    (now : ℕ) (ev other : SalesForceWebhookEvent) (r : Row)
    → covers ev (complete_row now ev r) ≡ false
unfolding covers complete_row
covers_completed now ev other r = ground arith

none_covered :
    (now : ℕ) (ev : SalesForceWebhookEvent) (rows : List Row)
    → keep_if (covers ev) (map (complete_row now ev) rows) ≡ []
none_covered now ev [] = refl
none_covered now ev (r ∷ rows) = rw (covers_completed now ev ev r) (none_covered now ev rows)

pub complete_find :
    (now : ℕ) (ev : SalesForceWebhookEvent) (t : Table) (i : ℕ) (r : Row)
    → find_row i t.rows ≡ some r
    → find_row i (complete now ev t).1.rows ≡ some (complete_row now ev r)
unfolding complete
complete_find now ev t i r found =
    rw (find_row-map i (complete_row now ev) t.rows (λ s. ground arith), found)

-- A second completion of the same attempt finds nothing to complete.
pub complete_twice :
    (now later : ℕ) (ev : SalesForceWebhookEvent) (t : Table)
    → (complete later ev (complete now ev t).1).0 ≡ 0
unfolding complete
complete_twice now later ev t = ap length (none_covered now ev t.rows)

complete_row_covered :
    (now : ℕ) (ev : SalesForceWebhookEvent) (r : Row)
    → r.status ≡ pending
    → (r.id ≡ ev.id) ⊎ ((r.slug ≡ ev.slug) × (r.received_at ≤ ev.claimed_at))
    → ((complete_row now ev r).status ≡ completed)
      × ((complete_row now ev r).processed_at ≡ some now)
unfolding complete_row covers
complete_row_covered now ev r waits h = ground (arith, eq_iff r.slug ev.slug)

pub complete_covers :
    (now : ℕ) (ev : SalesForceWebhookEvent) (t : Table) (i : ℕ) (r : Row)
    → find_row i t.rows ≡ some r
    → r.status ≡ pending
    → (r.id ≡ ev.id) ⊎ ((r.slug ≡ ev.slug) × (r.received_at ≤ ev.claimed_at))
    → (s : Row) × (find_row i (complete now ev t).1.rows ≡ some s)
      × (s.status ≡ completed)
      × (s.processed_at ≡ some now)
complete_covers now ev t i r found waits h =
    let ends = complete_row_covered now ev r waits h in
    (complete_row now ev r, complete_find now ev t i r found, ends.0, ends.1)
