-- ===== src/Catalog.antt =====
-- internal/repository/catalog_item_repository.go: the statements on the table catalog_items. NOW()
-- is an argument, and so is what the database answers: an error leaves the table as it is. A column
-- that NULLIF makes NULL is the empty text that COALESCE reads from it. The trigger of the table
-- sets updated_at at every UPDATE.
pub mod View
pub mod Runs
pub mod Valid
pub mod Reads
pub mod Events
pub mod Embedded
pub mod Tests
use app_catalogo.Common.{
  ℕ, suc, ◌+◌, String, Bool, true, false, not, ◌&&◌, ◌||◌, Option, none, some, List, [], ◌∷◌, ◌++◌,
  map, any, keep_if, length, take, ltb, leb, ◌==◌, str_eq, if◌then◌else◌,
}
use app_catalogo.Common.Go.{Result, ok, err, Error}
use app_catalogo.Common.Text.{is_empty, trim_blanks}
use app_catalogo.Sync.Mapping.{ItemStatus, status_active, status_inactive, status_draft}

-- Columns of JSON are texts, where `none` is a nil json.RawMessage.
pub record CatalogItem : Type 0 where
  pub external_id : String
  pub source : String
  pub item_type : String
  pub title : String
  pub description : String
  pub short_desc : String
  pub organization : String
  pub url : String
  pub image_url : String
  pub target_audience : Option String
  pub bairros : List String
  pub modalidade : String
  pub status : ItemStatus
  pub tags : List String
  pub source_data : Option String
  pub theme_slug : String
  pub subtheme_slug : String
  pub sici_code : String
  pub valid_from : Option ℕ
  pub valid_until : Option ℕ
  pub source_updated_at : Option ℕ

pub record Row : Type 0 where
  pub id : ℕ
  pub item : CatalogItem
  pub embedding : Option String
  pub created_at : ℕ
  pub updated_at : ℕ
  pub deleted_at : Option ℕ

pub record Table : Type 0 where
  pub rows : List Row
  -- the ids that gen_random_uuid() has not given yet, in order
  pub next_id : ℕ

abbrev pub is_active : ItemStatus → Bool
is_active status_active = true
is_active _ = false

abbrev pub is_null : Option ℕ → Bool
is_null none = true
is_null (some at) = false

-- The unique key (source, external_id).
unfoldable pub is_key : String → String → Row → Bool
is_key source external_id r = str_eq r.item.source source && str_eq r.item.external_id external_id

-- What the VALUES clause makes of an item whose JSON is ready.
unfoldable pub stored : CatalogItem → CatalogItem
stored item = record item { sici_code = trim_blanks item.sici_code }

unfoldable pub new_row : ℕ → ℕ → CatalogItem → Row
new_row id now item = record {
  id = id;
  item = item;
  embedding = none;
  created_at = now;
  updated_at = now;
  deleted_at = none;
}

-- ON CONFLICT … DO UPDATE SET: every column of the item, deleted_at and updated_at.
unfoldable pub overwrite : ℕ → CatalogItem → Row → Row
unfolding is_key
overwrite now item r =
    if is_key item.source item.external_id r
    then record r { item = item; updated_at = now; deleted_at = none }
    else r

-- The INSERT of `Upsert` and of `UpsertBatch`.
unfoldable pub insert_or_update : ℕ → CatalogItem → Table → Table
unfolding new_row overwrite
insert_or_update now item t =
    if any (is_key item.source item.external_id) t.rows
    then record t { rows = map (overwrite now item) t.rows }
    else record { rows = t.rows ++ new_row t.next_id now item ∷ []; next_id = suc t.next_id }

-- json.Marshal of a json.RawMessage with the fallback of `Upsert`; compacting the text, which fails
-- where it is no JSON, is an argument.
unfoldable pub marshal_raw : (String → Option String) → Option String → String
marshal_raw compact none = "null"
marshal_raw compact (some raw) = elim (compact raw) [
  | none ↦ "{}"
  | some text ↦ if is_empty text then "{}" else text
]

abbrev exec : Option Error → Table → Table → Option Error × Table
exec none after before = (none, after)
exec (some e) after before = (some e, before)

-- `Upsert`
unfoldable pub upsert :
    (String → Option String) → Option Error → ℕ → CatalogItem → Table → Option Error × Table
unfolding stored insert_or_update marshal_raw
upsert compact answer now item t =
    let ready = record item {
      target_audience = some (marshal_raw compact item.target_audience);
      source_data = some (marshal_raw compact item.source_data);
    } in
    exec answer (insert_or_update now (stored ready) t) t

abbrev or_object : Option String → String
or_object none = "{}"
or_object (some raw) = if is_empty raw then "{}" else raw

unfoldable pub batch_item : CatalogItem → CatalogItem
unfolding stored
batch_item item = stored (record item {
  target_audience = some (or_object item.target_audience);
  source_data = some (or_object item.source_data);
})

-- The loop of `UpsertBatch` in its transaction: how many items it wrote, and its error.
unfoldable pub batch_loop :
    (CatalogItem → Option Error) → ℕ → List CatalogItem → ℕ → Table → ℕ × Option Error × Table
unfolding batch_item insert_or_update
batch_loop answer now [] count t = (count, none, t)
batch_loop answer now (item ∷ items) count t = elim (answer item) [
  | some e ↦ (count, some e, t)
  | none ↦ batch_loop answer now items (count + 1) (insert_or_update now (batch_item item) t)
]

abbrev pub commit_batch :
    Option Error → Table → ℕ × Option Error × Table → (ℕ × Option Error) × Table
commit_batch commit before (count, none, after) = elim commit [
  | none ↦ ((count, none), after)
  | some e ↦ ((count, some e), before)
]
commit_batch commit before (count, some e, after) = ((count, some e), before)

-- `UpsertBatch`; the answers are those to Begin, to each INSERT and to Commit. The rollback of a
-- failed transaction gives the table back as it was.
unfoldable pub upsert_batch :
    Option Error
    → (CatalogItem → Option Error)
    → Option Error
    → ℕ
    → List CatalogItem
    → Table
    → (ℕ × Option Error) × Table
unfolding batch_loop
upsert_batch begin answer commit now [] t = ((0, none), t)
upsert_batch (some e) answer commit now (item ∷ items) t = ((0, some e), t)
upsert_batch none answer commit now (item ∷ items) t =
    commit_batch commit t (batch_loop answer now (item ∷ items) 0 t)

unfoldable pub hide : ℕ → Row → Row
hide now r = record r {
  item = record r.item { status = status_inactive };
  updated_at = now;
  deleted_at = some now;
}

unfoldable pub hide_if : ℕ → (Row → Bool) → Row → Row
unfolding hide
hide_if now p r = if p r then hide now r else r

-- `SoftDelete`
unfoldable pub soft_delete : ℕ → String → String → Table → Table
unfolding hide_if is_key
soft_delete now source external_id t = record t {
  rows = map (hide_if now (is_key source external_id)) t.rows;
}

-- The WHERE clause of `SoftDeleteActiveNotIn`.
unfoldable pub is_orphan : String → List String → Row → Bool
is_orphan source keep r =
    str_eq r.item.source source
    && is_null r.deleted_at
    && is_active r.item.status
    && not (any (str_eq r.item.external_id) keep)

-- `SoftDeleteActiveNotIn`, with the number of rows that it hides.
unfoldable pub soft_delete_active_not_in : ℕ → String → List String → Table → ℕ × Table
unfolding hide_if is_orphan
soft_delete_active_not_in now source keep t = (
  length (keep_if (is_orphan source keep) t.rows),
  record t { rows = map (hide_if now (is_orphan source keep)) t.rows },
)

-- `UpdateEmbedding`
unfoldable pub update_embedding : ℕ → ℕ → String → Table → Table
update_embedding now id vector t = record t {
  rows =
      map
        (λ (r : Row).
          if r.id == id then record r { embedding = some vector; updated_at = now } else r)
        t.rows;
}

unfoldable pub find_row : (Row → Bool) → List Row → Option Row
find_row p [] = none
find_row p (r ∷ rows) = let rest = find_row p rows in if p r then some r else rest
