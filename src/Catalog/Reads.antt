-- ===== src/Catalog/Reads.antt =====
-- The statements that read the table: an item, the candidates, and the items without an embedding.
use app_catalogo.Common.{
  ℕ, String, Bool, true, false, ◌&&◌, ◌||◌, Option, none, some, List, [], ◌∷◌, any, keep_if, length,
  take, ltb, leb, ◌==◌, str_eq,
}
use app_catalogo.Catalog.{CatalogItem, Row, Table, is_active, is_null, is_key, find_row}

-- `scanCatalogItem`: the SELECT lists leave sici_code out.
unfoldable pub scan_catalog_item : Option Row → Option CatalogItem
scan_catalog_item none = none
scan_catalog_item (some r) = some (record r.item { sici_code = "" })

-- `GetBySourceAndExternalID`; `none` is pgx.ErrNoRows.
unfoldable pub get_by_source_and_external_id : String → String → Table → Option CatalogItem
unfolding find_row is_key scan_catalog_item
get_by_source_and_external_id source external_id t =
    scan_catalog_item (find_row (λ r. is_key source external_id r && is_null r.deleted_at) t.rows)

-- `GetByID`
unfoldable pub get_by_id : ℕ → Table → Option CatalogItem
unfolding find_row scan_catalog_item
get_by_id id t = scan_catalog_item (find_row (λ r. r.id == id && is_null r.deleted_at) t.rows)

-- valid_until IS NULL OR valid_until > NOW()
abbrev pub not_expired : ℕ → Option ℕ → Bool
not_expired now none = true
not_expired now (some until) = ltb now until

-- The condition of the rows that the public sees.
unfoldable pub is_public : ℕ → Row → Bool
is_public now r =
    is_active r.item.status && is_null r.deleted_at && not_expired now r.item.valid_until

-- `GetPublicByID`
unfoldable pub get_public_by_id : ℕ → ℕ → Table → Option CatalogItem
unfolding find_row scan_catalog_item is_public
get_public_by_id now id t = scan_catalog_item (find_row (λ r. r.id == id && is_public now r) t.rows)

abbrev scan_rows : List Row → List CatalogItem
scan_rows [] = []
scan_rows (r ∷ rows) = record r.item { sici_code = "" } ∷ scan_rows rows

-- cardinality($1) = 0 OR type = ANY($1)
abbrev is_type : List String → String → Bool
is_type types t = leb (length types) 0 || any (str_eq t) types

-- `GetCandidates`; the ORDER BY is an argument, a limit is not negative.
unfoldable pub get_candidates :
    (List Row → List Row) → ℕ → List String → ℕ → Table → List CatalogItem
unfolding is_public
get_candidates order now types limit t =
    scan_rows
      (take limit (order (keep_if (λ r. is_public now r && is_type types r.item.item_type) t.rows)))

unfoldable pub lacks_embedding : Row → Bool
lacks_embedding r = elim r.embedding [
  | none ↦ is_null r.deleted_at && is_active r.item.status
  | some vector ↦ false
]

-- `GetItemsWithoutEmbedding`, as rows: the pass that asks for them uses their ids.
unfoldable pub get_items_without_embedding : (List Row → List Row) → ℕ → Table → List Row
unfolding lacks_embedding
get_items_without_embedding order limit t = take limit (order (keep_if lacks_embedding t.rows))
