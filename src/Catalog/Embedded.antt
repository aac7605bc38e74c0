-- ===== src/Catalog/Embedded.antt =====
-- The text that the embedding of a row was made of, after an upsert.
use app_catalogo.Common.{
  ℕ, String, ◌≡◌, refl, true, false, some, List, keep_if, IsIn, IsIn-map, any_of_in, keep_if_sound,
  take_sound,
}
use app_catalogo.Catalog.{CatalogItem, Row, Table, is_key, overwrite, insert_or_update}
use app_catalogo.Catalog.Reads.{lacks_embedding, get_items_without_embedding}

embedded_lem : (r : Row) (vector : String) → r.embedding ≡ some vector → lacks_embedding r ≡ false
unfolding lacks_embedding
embedded_lem r vector h = rw (h, lacks_embedding) refl

-- An upsert of an item whose row has an embedding gives the row the new texts and leaves it the
-- embedding of the old ones, and the query of the backfill does not give the row, whatever its
-- limit and its order.
pub upsert_keeps_old_embedding :
    (now : ℕ) (item : CatalogItem) (t : Table) (r : Row) (vector : String)
    (order : List Row → List Row) (limit : ℕ)
    → IsIn r t.rows
    → is_key item.source item.external_id r ≡ true
    → r.embedding ≡ some vector
    → ((rows : List Row) (x : Row) → IsIn x (order rows) → IsIn x rows)
    → IsIn (overwrite now item r) (insert_or_update now item t).rows
      × ((overwrite now item r).item ≡ item)
      × ((overwrite now item r).embedding ≡ some vector)
      × ¬ IsIn
          (overwrite now item r)
          (get_items_without_embedding order limit (insert_or_update now item t))
unfolding insert_or_update overwrite get_items_without_embedding lacks_embedding
upsert_keeps_old_embedding now item t r vector order limit there key embedded only =
    let known = any_of_in (is_key item.source item.external_id) r t.rows there key in
    let kept : (overwrite now item r).embedding ≡ some vector = rw key embedded in
    (
      rw known (IsIn-map (overwrite now item) r t.rows there),
      rw key refl,
      kept,
      λ listed.
          let rows = keep_if lacks_embedding (insert_or_update now item t).rows in
          let lacking =
            (keep_if_sound lacks_embedding (overwrite now item r) (insert_or_update now item t).rows
              (only rows (overwrite now item r)
                (take_sound limit (overwrite now item r) (order rows) listed))).1 in
          let not_lacking = embedded_lem (overwrite now item r) vector kept in
          absurd (cc (lacking, not_lacking)),
    )
