-- ===== src/Sync/Record/Writes.antt =====
-- What the synchronisation of one service writes and removes.
use app_catalogo.Common.{
  String, ◌≡◌, refl, sym, ap, ◌∙◌, Bool, true, false, Option, none, some, List, [], ◌∷◌, ◌++◌,
  append_assoc, str_eq, arith, if◌then◌else◌,
}
use app_catalogo.Common.Go.{ok, Error}
use app_catalogo.Common.Text.{is_empty, trim_space}
use app_catalogo.Sync.Mapping.{CartaServiceDetail, CatalogItem, map_carta_service_detail}
use app_catalogo.Sync.Run.{RepositoryCall, upsert, upsert_batch, soft_delete, persist_slug_aliases}
use app_catalogo.Sync.Record.{
  RecordEnvironment, theme_calls, hierarchy_calls, remove_old, after_upsert, write_record,
  sync_answer, sync_record,
}

abbrev pub collect : {A : Type 0} → (RepositoryCall → List A) → List RepositoryCall → List A
collect f [] = []
collect f (c ∷ calls) = f c ++ collect f calls

collect-append :
    {A : Type 0} (f : RepositoryCall → List A) (xs ys : List RepositoryCall)
    → collect f (xs ++ ys) ≡ collect f xs ++ collect f ys
collect-append f [] ys = refl
collect-append f (x ∷ xs) ys =
    ap (λ zs. f x ++ zs) (collect-append f xs ys)
    ∙ sym (append_assoc (f x) (collect f xs) (collect f ys))

abbrev items_of : RepositoryCall → List CatalogItem
items_of (upsert item) = item ∷ []
items_of (upsert_batch items) = items
items_of _ = []

abbrev slugs_of : RepositoryCall → List String
slugs_of (soft_delete slug) = slug ∷ []
slugs_of _ = []

-- The items that the calls write, and the slugs whose item they remove, in order.
abbrev pub written : List RepositoryCall → List CatalogItem
written = collect items_of

abbrev pub removed : List RepositoryCall → List String
removed = collect slugs_of

-- The calls write no item and remove none.
abbrev IsIdle : List RepositoryCall → Type 0
IsIdle calls = (written calls ≡ []) × (removed calls ≡ [])

theme_calls-IsIdle : (d : CartaServiceDetail) → IsIdle (theme_calls d)
unfolding theme_calls
theme_calls-IsIdle d = (ground arith, ground arith)

aliases-IsIdle :
    (d : CartaServiceDetail) (slug canonical : String)
    → IsIdle (persist_slug_aliases d slug canonical)
unfolding persist_slug_aliases
aliases-IsIdle d slug canonical = (ground arith, ground arith)

append-IsIdle :
    (xs ys : List RepositoryCall)
    → IsIdle xs
    → (written (xs ++ ys) ≡ written ys) × (removed (xs ++ ys) ≡ removed ys)
append-IsIdle xs ys (no_item, no_slug) = (
  collect-append items_of xs ys ∙ ap (λ zs. zs ++ written ys) no_item,
  collect-append slugs_of xs ys ∙ ap (λ zs. zs ++ removed ys) no_slug,
)

hierarchy_calls-IsIdle :
    (b : Bool) (d : CartaServiceDetail) (slug canonical : String)
    → IsIdle (hierarchy_calls b d slug canonical)
unfolding hierarchy_calls
hierarchy_calls-IsIdle false d slug canonical = (refl, refl)
hierarchy_calls-IsIdle true d slug canonical =
    let (items, slugs) =
      append-IsIdle (theme_calls d) (persist_slug_aliases d slug canonical)
        (theme_calls-IsIdle d) in
    let (no_item, no_slug) = aliases-IsIdle d slug canonical in (items ∙ no_item, slugs ∙ no_slug)

-- The slug that the service was moved from, if it was moved.
abbrev pub moved_from : String → String → List String
moved_from slug canonical = if str_eq canonical slug then [] else slug ∷ []

remove_old_lem :
    (slug canonical : String)
    → (written (remove_old slug canonical) ≡ [])
      × (removed (remove_old slug canonical) ≡ moved_from slug canonical)
unfolding remove_old
remove_old_lem slug canonical = (ground arith, ground arith)

-- What the calls of a synchronisation that found the service write and remove.
abbrev pub Wrote :
    RecordEnvironment
    → String
    → CartaServiceDetail
    → String
    → Option Error
    → List RepositoryCall
    → Type 0
Wrote env slug d canonical none calls =
    (item : CatalogItem) × (map_carta_service_detail env.libraries env.base_service_url d
      ≡ some item)
    × (written calls ≡ item ∷ [])
    × (removed calls ≡ moved_from slug canonical)
Wrote env slug d canonical (some e) calls = removed calls ≡ []

module _ (env : RecordEnvironment) (slug : String) (d : CartaServiceDetail)
    (canonical : String) where
  after_upsert_lem :
      (written (after_upsert env slug d canonical none) ≡ [])
      × (removed (after_upsert env slug d canonical none) ≡ moved_from slug canonical)
  unfolding after_upsert
  after_upsert_lem =
      let (items, slugs) =
        append-IsIdle (hierarchy_calls env.hierarchy d slug canonical) (remove_old slug canonical)
          (hierarchy_calls-IsIdle env.hierarchy d slug canonical) in
      let (no_item, old) = remove_old_lem slug canonical in (items ∙ no_item, slugs ∙ old)

  upserted-Wrote :
      (item : CatalogItem) (e : Option Error)
      → map_carta_service_detail env.libraries env.base_service_url d ≡ some item
      → Wrote env slug d canonical e (upsert item ∷ after_upsert env slug d canonical e)
  unfolding after_upsert
  upserted-Wrote item (some e) mapped = refl
  upserted-Wrote item none mapped =
      let (items, slugs) = after_upsert_lem in (item, mapped, ap (λ zs. item ∷ zs) items, slugs)

  write_record-Wrote :
      (o : Option CatalogItem)
      → map_carta_service_detail env.libraries env.base_service_url d ≡ o
      → Wrote env slug d canonical
          (write_record env slug d canonical o).0
          (write_record env slug d canonical o).1
  unfolding write_record
  write_record-Wrote none mapped = refl
  write_record-Wrote (some item) mapped = upserted-Wrote item env.upsert_error mapped

-- A call of `SyncRecord` whose slug is not empty and whose service is found: without an error, the
-- one item that it writes is that of the service, and it removes the item under the slug that it was
-- called with exactly if the service has another slug now; with an error, it removes nothing.
pub sync_record-Wrote :
    (env : RecordEnvironment) (raw : String) (d : CartaServiceDetail) (canonical : String)
    → is_empty (trim_space raw) ≡ false
    → env.get_service (trim_space raw) ≡ ok (d, canonical)
    → Wrote env (trim_space raw) d canonical (sync_record env raw).0 (sync_record env raw).1
unfolding sync_record sync_answer
sync_record-Wrote env raw d canonical some_slug found =
    rw (some_slug, sync_record, found, sync_answer)
      (write_record-Wrote env (trim_space raw) d canonical
        (map_carta_service_detail env.libraries env.base_service_url d) refl)
