-- ===== src/Sync/Record.antt =====
-- `SyncRecord`: the synchronisation of one service, which a webhook asks for.
pub mod Writes
use app_catalogo.Common.{
  String, Bool, true, false, not, ◌&&◌, Option, none, some, List, [], ◌∷◌, ◌++◌, str_eq,
  if◌then◌else◌,
}
use app_catalogo.Common.Int.{ℤ, pos}
use app_catalogo.Common.Go.{Result, ok, err, Error, message, is, service_not_found}
use app_catalogo.Common.Text.{is_empty, trim_space}
use app_catalogo.Sync.Mapping.{
  CartaServiceDetail, CatalogItem, Libraries, coalesce_carta_name, map_carta_service_detail,
}
use app_catalogo.Sync.Run.{
  RepositoryCall, upsert, soft_delete, upsert_theme, upsert_subtheme, persist_slug_aliases,
}

-- The answers to one call: those of the Carta's API, of `Upsert`, and of `SoftDelete`.
pub record RecordEnvironment : Type 0 where
  pub libraries : Libraries
  pub base_service_url : String
  pub hierarchy : Bool
  pub get_service : String → Result Error (CartaServiceDetail × String)
  pub upsert_error : Option Error
  pub soft_delete_error : Option Error

-- The literals of the themes leave their counts at zero.
unfoldable pub theme_calls : CartaServiceDetail → List RepositoryCall
theme_calls d =
    (if not (is_empty d.theme_slug)
      then upsert_theme d.theme_slug (coalesce_carta_name d.theme_name d.theme_slug) (pos 0) (pos 0)
        ∷ []
      else [])
    ++ (if not (is_empty d.subtheme_slug) && not (is_empty d.theme_slug)
        then upsert_subtheme d.subtheme_slug d.theme_slug
            (coalesce_carta_name d.subtheme_name d.subtheme_slug) (pos 0)
          ∷ []
        else [])

-- What the hierarchy is told, if there is one.
unfoldable pub hierarchy_calls : Bool → CartaServiceDetail → String → String → List RepositoryCall
hierarchy_calls false d slug canonical = []
hierarchy_calls true d slug canonical = theme_calls d ++ persist_slug_aliases d slug canonical

-- The item under the slug that the service was moved from.
unfoldable pub remove_old : String → String → List RepositoryCall
remove_old slug canonical = if not (str_eq canonical slug) then soft_delete slug ∷ [] else []

unfoldable pub after_upsert :
    RecordEnvironment → String → CartaServiceDetail → String → Option Error → List RepositoryCall
after_upsert env slug d canonical (some e) = []
after_upsert env slug d canonical none =
    hierarchy_calls env.hierarchy d slug canonical ++ remove_old slug canonical

unfoldable pub write_record :
    RecordEnvironment
    → String
    → CartaServiceDetail
    → String
    → Option CatalogItem
    → Option Error × List RepositoryCall
write_record env slug d canonical none = (some (message "salesforce: falha ao mapear serviço"), [])
write_record env slug d canonical (some item) =
    (env.upsert_error, upsert item ∷ after_upsert env slug d canonical env.upsert_error)

unfoldable pub sync_answer :
    RecordEnvironment
    → String
    → Result Error (CartaServiceDetail × String)
    → Option Error × List RepositoryCall
sync_answer env slug (err e) =
    if is e service_not_found then (env.soft_delete_error, soft_delete slug ∷ []) else (some e, [])
sync_answer env slug (ok (d, canonical)) =
    write_record env slug d canonical
      (map_carta_service_detail env.libraries env.base_service_url d)

-- `SyncRecord`
unfoldable pub sync_record : RecordEnvironment → String → Option Error × List RepositoryCall
sync_record env raw =
    let slug = trim_space raw in
    if is_empty slug
    then (some (message "salesforce: slug vazio"), [])
    else sync_answer env slug (env.get_service slug)
