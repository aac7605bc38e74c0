-- ===== src/Webhook/Queue/Find.antt =====
-- The row of an id, and what statements over all rows do to it.
use app_catalogo.Common.{
  ℕ, ◌≡◌, refl, Option, none, some, List, [], ◌∷◌, ◌++◌, map, arith, ◌==◌, ◌≢◌, ◌⊎◌, inl, inr,
  Bool-cases, if◌then◌else◌,
}
use mathlib.Core.Option
use app_catalogo.Webhook.Queue.{Row}

unfoldable pub find_row : ℕ → List Row → Option Row
find_row id [] = none
find_row id (r ∷ rows) = if r.id == id then some r else find_row id rows

-- An update of every row that keeps the ids updates the row of an id.
pub find_row-map :
    (id : ℕ) (f : Row → Row) (rows : List Row)
    → ((r : Row) → (f r).id ≡ r.id)
    → find_row id (map f rows) ≡ Option.map f (find_row id rows)
unfolding find_row
find_row-map id f [] h = refl
find_row-map id f (r ∷ rows) h = ground (arith, h r, find_row-map id f rows h)

pub find_row-append :
    (id : ℕ) (rows more : List Row) (r : Row)
    → find_row id rows ≡ some r
    → find_row id (rows ++ more) ≡ some r
unfolding find_row
find_row-append id [] more r h = cc
find_row-append id (s ∷ rows) more r h = ground (arith, find_row-append id rows more r)

-- The row that is found has the id that is asked for.
pub find_row-id : (id : ℕ) (rows : List Row) (r : Row) → find_row id rows ≡ some r → r.id ≡ id
unfolding find_row
find_row-id id [] r h = cc
find_row-id id (s ∷ rows) r h = ground (arith, find_row-id id rows r)

pub find_row-nil : (id : ℕ) → find_row id [] ≡ none
unfolding find_row
find_row-nil id = refl

pub not-find_row-nil : (id : ℕ) (r : Row) → ¬ (find_row id [] ≡ some r)
unfolding find_row
not-find_row-nil id r e = cc

-- The row that is found is the first, or is found among the others.
pub find_row_cases :
    (id : ℕ) (s : Row) (rows : List Row) (r : Row)
    → find_row id (s ∷ rows) ≡ some r
    → ((s.id ≡ id) × (s ≡ r)) ⊎ ((s.id ≢ id) × (find_row id rows ≡ some r))
unfolding find_row
find_row_cases id s rows r e = elim (Bool-cases (s.id == id)) [
  | inl same ↦ let found : some s ≡ some r = rw same at e in inl (ground arith, cc)
  | inr other ↦ inr (ground arith, rw other at e)
]

-- The first row, if its id is the one asked for; if not, the row of the others.
pub find_row_here :
    (id : ℕ) (s : Row) (rows : List Row) → s.id ≡ id → find_row id (s ∷ rows) ≡ some s
unfolding find_row
find_row_here id s rows h = ground arith

pub find_row_skip :
    (id : ℕ) (s : Row) (rows : List Row) → s.id ≢ id → find_row id (s ∷ rows) ≡ find_row id rows
unfolding find_row
find_row_skip id s rows h = ground arith
