-- ===== src/Catalog/Valid.antt =====
-- What every table of the catalog has, whatever statements ran.
use app_catalogo.Common.{ℕ, suc, ◌≤◌, ◌≡◌, false, List, [], ◌∷◌, any}
use app_catalogo.Catalog.{Row, Table, is_key}

-- No two rows have one key.
abbrev pub IsKeyed : List Row → Type 0
IsKeyed [] = Unit
IsKeyed (r ∷ rows) = (any (is_key r.item.source r.item.external_id) rows ≡ false) × IsKeyed rows

-- The ids grow, from one bound to the other.
abbrev pub Ascends : ℕ → List Row → ℕ → Type 0
Ascends from [] next = from ≤ next
Ascends from (r ∷ rows) next = (from ≤ r.id) × Ascends (suc r.id) rows next

pub record IsValid (t : Table) : Type 0 where
  pub keyed : IsKeyed t.rows
  pub ascends : Ascends 0 t.rows t.next_id

-- A change of rows that keeps keys and ids.
abbrev Keeps : (Row → Row) → Type 0
Keeps f =
    (r : Row)
    → ((f r).item.source ≡ r.item.source)
      × ((f r).item.external_id ≡ r.item.external_id)
      × ((f r).id ≡ r.id)
