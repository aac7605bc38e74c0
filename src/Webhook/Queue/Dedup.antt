-- ===== src/Webhook/Queue/Dedup.antt =====
-- A redelivery of the same event key adds nothing.
use text.Mathlib.TextPositions.{eq_refl}
use app_catalogo.Common.{
  ℕ, String, ◌≡◌, refl, true, none, List, [], ◌∷◌, ◌++◌, Bool-cases, inl, inr, str_eq, or_intro,
}
use app_catalogo.Common.Int.{ℤ}
use app_catalogo.Webhook.Queue.{Row, Table, has_key, new_row, enqueue}

has_key-append :
    (key : String) (rows : List Row) (r : Row)
    → r.event_key ≡ key
    → has_key key (rows ++ r ∷ []) ≡ true
unfolding has_key
has_key-append key [] r e = rw (e, eq_refl key)
has_key-append key (s ∷ rows) r e =
    or_intro (str_eq s.event_key key) _ (inr (has_key-append key rows r e))

key_after :
    (now : ℕ) (key slug event_type : String) (lease : ℤ) (t : Table)
    → has_key key (enqueue now key slug event_type lease t).1.rows ≡ true
unfolding enqueue
key_after now key slug event_type lease t = elim (Bool-cases (has_key key t.rows)) [
  | inl old ↦ rw old old
  | inr new ↦
      rw new (has_key-append key t.rows (new_row t.next_id now key slug event_type lease) refl)
]

known_key :
    (now : ℕ) (key slug event_type : String) (lease : ℤ) (t : Table)
    → has_key key t.rows ≡ true
    → enqueue now key slug event_type lease t ≡ (none, t)
unfolding enqueue
known_key now key slug event_type lease t h = rw h

-- Once an event key was enqueued, enqueuing it again reports that nothing was created and leaves
-- the table as it was, whatever the second call brings along.
pub enqueue_twice :
    (now later : ℕ) (key slug event_type slug' event_type' : String) (lease lease' : ℤ) (t : Table)
    → enqueue later key slug' event_type' lease' (enqueue now key slug event_type lease t).1
      ≡ (none, (enqueue now key slug event_type lease t).1)
enqueue_twice now later key slug event_type slug' event_type' lease lease' t =
    known_key later key slug' event_type' lease' (enqueue now key slug event_type lease t).1
      (key_after now key slug event_type lease t)
