-- ===== src/Webhook/Queue/Chosen.antt =====
-- Which rows the inner SELECT of `ClaimDue` chooses.
use mathlib.Core.Path.{subst}
use app_catalogo.Common.{
  ℕ, zero, suc, ◌≤◌, ◌≡◌, refl, sym, ap, ◌∙◌, Bool, true, ◌||◌, some, List, [], ◌∷◌, map, keep_if,
  take, length, arith, All, Bool-cases, inl, inr, ◌==◌, or_intro,
}
use app_catalogo.Webhook.Queue.{Row, is_due, insert_row, sort_rows, due_ids, has_id}
use app_catalogo.Webhook.Queue.Find.{
  find_row, find_row-id, find_row_cases, find_row_here, not-find_row-nil, find_row_skip,
}
use app_catalogo.Webhook.Queue.Valid.{InOrder, Precedes}

abbrev ids : List Row → List ℕ
ids rows = map (λ (r : Row). r.id) rows

has_id-take :
    (n : ℕ) (rows : List Row) (i : ℕ)
    → has_id (ids (take n rows)) i ≡ true
    → has_id (ids rows) i ≡ true
unfolding has_id
has_id-take zero rows i h = cc
has_id-take (suc n) [] i h = h
has_id-take (suc n) (r ∷ rows) i h = ground (arith, has_id-take n rows i)

has_id-insert_row :
    (r : Row) (rows : List Row) (i : ℕ)
    → has_id (ids (insert_row r rows)) i ≡ (r.id == i || has_id (ids rows) i)
unfolding has_id insert_row
has_id-insert_row r [] i = refl
has_id-insert_row r (s ∷ rows) i = ground (arith, has_id-insert_row r rows i)

has_id-sort_rows : (rows : List Row) (i : ℕ) → has_id (ids (sort_rows rows)) i ≡ has_id (ids rows) i
unfolding sort_rows has_id
has_id-sort_rows [] i = refl
has_id-sort_rows (r ∷ rows) i =
    has_id-insert_row r (sort_rows rows) i ∙ ap (λ b. r.id == i || b) (has_id-sort_rows rows i)

-- What holds of all rows holds of the row that is found.
pub All-find_row {ℓ} :
    (P : Row → Type ℓ) (i : ℕ) (rows : List Row) (r : Row)
    → All P rows
    → find_row i rows ≡ some r
    → P r
All-find_row P i [] r h e = absurd (not-find_row-nil i r e)
All-find_row P i (s ∷ rows) r (h, t) e = elim (find_row_cases i s rows r e) [
  | inl here ↦ subst P here.1 h
  | inr later ↦ All-find_row P i rows r t later.1
]

-- In a table whose ids are distinct, a chosen id is that of a row that passes the test.
has_id-keep_if :
    (p : Row → Bool) (rows : List Row) (i : ℕ)
    → InOrder rows
    → has_id (ids (keep_if p rows)) i ≡ true
    → (r : Row) × (find_row i rows ≡ some r) × (p r ≡ true)
unfolding has_id
has_id-keep_if p [] i o h = cc
has_id-keep_if p (s ∷ rows) i (o, os) h = elim (Bool-cases (p s)) [
  | inr fails ↦
      let (r, found, passes) = has_id-keep_if p rows i os (rw fails at h) in
      let later = All-find_row (Precedes s) i rows r o found in
      let named = find_row-id i rows r found in
      (r, find_row_skip i s rows (omega arith) ∙ found, passes)
  | inl passes ↦ elim (Bool-cases (s.id == i)) [
    | inl same ↦ (s, find_row_here i s rows (ground arith), passes)
    | inr other ↦
        let (r, found, good) = has_id-keep_if p rows i os (rw (passes, other) at h) in
        (r, find_row_skip i s rows (ground arith) ∙ found, good)
  ]
]

has_id_of_keep_if :
    (p : Row → Bool) (rows : List Row) (i : ℕ) (r : Row)
    → find_row i rows ≡ some r
    → p r ≡ true
    → has_id (ids (keep_if p rows)) i ≡ true
unfolding has_id
has_id_of_keep_if p [] i r e h = absurd (not-find_row-nil i r e)
has_id_of_keep_if p (s ∷ rows) i r e h = elim (find_row_cases i s rows r e) [
  | inl here ↦
      rw (subst (λ x. p x ≡ true) (sym here.1) h)
        (or_intro (s.id == i) (has_id (ids (keep_if p rows)) i) (inl (ground arith)))
  | inr later ↦ elim (Bool-cases (p s)) [
    | inl passes ↦ rw passes (
        or_intro (s.id == i) (has_id (ids (keep_if p rows)) i)
          (inr (has_id_of_keep_if p rows i r later.1 h)))
    | inr fails ↦ rw fails (has_id_of_keep_if p rows i r later.1 h)
  ]
]

-- A row that is chosen was due.
pub due_ids_sound :
    (locked : ℕ → Bool) (now limit : ℕ) (rows : List Row) (i : ℕ) (r : Row)
    → InOrder rows
    → find_row i rows ≡ some r
    → has_id (due_ids locked now limit rows) i ≡ true
    → is_due locked now r ≡ true
unfolding due_ids
due_ids_sound locked now limit rows i r o e h =
    let kept = has_id-take limit (sort_rows (keep_if (is_due locked now) rows)) i h in
    let (s, found, due) =
      has_id-keep_if (is_due locked now) rows i o
        (sym (has_id-sort_rows (keep_if (is_due locked now) rows) i) ∙ kept) in
    let same : s ≡ r = cc (found, e) in subst (λ x. is_due locked now x ≡ true) same due

length-keep_if : (p : Row → Bool) (rows : List Row) → length (keep_if p rows) ≤ length rows
length-keep_if p [] = omega arith
length-keep_if p (r ∷ rows) = ground (arith, length-keep_if p rows)

length-insert_row : (r : Row) (rows : List Row) → length (insert_row r rows) ≡ suc (length rows)
unfolding insert_row
length-insert_row r [] = refl
length-insert_row r (s ∷ rows) = ground (arith, length-insert_row r rows)

length-sort_rows : (rows : List Row) → length (sort_rows rows) ≡ length rows
unfolding sort_rows
length-sort_rows [] = refl
length-sort_rows (r ∷ rows) = length-insert_row r (sort_rows rows) ∙ ap suc (length-sort_rows rows)

take_all : (n : ℕ) (rows : List Row) → length rows ≤ n → take n rows ≡ rows
take_all zero [] h = refl
take_all zero (r ∷ rows) h = absurd (omega arith)
take_all (suc n) [] h = refl
take_all (suc n) (r ∷ rows) h = ap (λ l. r ∷ l) (take_all n rows (omega arith))

-- A due row is chosen where the limit leaves room for every row of the table.
pub due_ids_complete :
    (locked : ℕ → Bool) (now limit : ℕ) (rows : List Row) (i : ℕ) (r : Row)
    → find_row i rows ≡ some r
    → is_due locked now r ≡ true
    → length rows ≤ limit
    → has_id (due_ids locked now limit rows) i ≡ true
unfolding due_ids
due_ids_complete locked now limit rows i r e due room =
    let kept = keep_if (is_due locked now) rows in
    ap (λ l. has_id (ids l) i)
      (take_all limit (sort_rows kept)
        (omega (arith, length-sort_rows kept, length-keep_if (is_due locked now) rows)))
    ∙ has_id-sort_rows kept i
    ∙ has_id_of_keep_if (is_due locked now) rows i r e due
