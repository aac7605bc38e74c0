-- ===== src/Sync/Tests/Tables.antt =====
-- The synchronisation and the tables, on concrete services.
use app_catalogo.Common.{String, ◌≡◌, ◌≢◌, refl, false, Option, none, some, List, [], ◌∷◌, IsIn}
use app_catalogo.Common.Int.{pos}
use app_catalogo.Common.Go.{ok}
use app_catalogo.Common.Text.{trim_space, is_space}
use app_catalogo.Common.Maps.{lookup}
use app_catalogo.Sync.Mapping.{status_active, map_carta_service_detail, map_carta_article_status}
use app_catalogo.Sync.Featured.{normalize_home_featured}
use app_catalogo.Sync.Listing.{filter_services_needing_detail, resolve_seen_slugs}
use app_catalogo.Sync.Run.{
  run_listed, after_fetch, write_items, after_batch, settle, sweep, finish, final_error, map_all,
  sync_home_featured, persist_all, persist_slug_aliases, fetch_details, gather_all, gather_one,
  run_sync,
}
use app_catalogo.Sync.Effect.{Effects, catalog_item, ops, salesforce, run_shows_only_listed}
use app_catalogo.Sync.Moved.{after_sync, aliases_after, moved_service_redirects}
use app_catalogo.Catalog.{
  CatalogItem, Table, marshal_raw, batch_item, stored, batch_loop, upsert_batch, insert_or_update,
  soft_delete_active_not_in, find_row, is_key,
}
use app_catalogo.Catalog.Runs
use app_catalogo.Catalog.Runs.{Answers}
use app_catalogo.Catalog.View.{view}
use app_catalogo.Carta.Detail.{get_service_detail}
use app_catalogo.Carta.Hierarchy.{CartaTheme, ThemeRow}
use app_catalogo.Sync.Run.Cursor.{IsClean}
use app_catalogo.Sync.Tests.{
  service, item, service-item, item_listed, env, record_env, slug_given, slug_found,
}

abbrev effects : Effects
effects = record {
  audience_json = λ i. "{}";
  service_json = λ i. "{\"slug\":\"iptu\"}";
  upsert_answer = none;
  batch_answers = record { begin = none; insert = λ i. none; commit = none };
  now = 5;
}

abbrev compact : String → Option String
compact s = some s

abbrev empty_table : Table
empty_table = record { rows = []; next_id = 0 }

own_trimmed : trim_space "iptu" ≡ "iptu"
unfolding trim_space is_space
own_trimmed = refl

slugs_differ : trim_space " ipt " ≢ "iptu"
unfolding trim_space is_space
slugs_differ = cc

item-active : item.status ≡ status_active
unfolding map_carta_service_detail map_carta_article_status trim_space is_space
item-active = refl

moved_service_redirects_example :
    (get_service_detail none none " ipt "
        (after_sync record_env " ipt " compact effects empty_table)
        (aliases_after record_env " ipt " [])
      ≡ ok (none, "iptu"))
    × (get_service_detail none none "iptu"
          (after_sync record_env " ipt " compact effects empty_table)
          (aliases_after record_env " ipt " [])
        ≡ ok (some (marshal_raw compact (some "{\"slug\":\"iptu\"}")), ""))
moved_service_redirects_example =
    moved_service_redirects compact " ipt " service record_env item effects empty_table []
      slug_given refl own_trimmed slugs_differ slug_found service-item item-active refl refl refl

-- A table that still shows a service that is no longer listed.
abbrev seen_slugs : List String
seen_slugs =
    resolve_seen_slugs (item_listed ∷ [])
      (fetch_details env (filter_services_needing_detail (item_listed ∷ []) none)).redirects

some_seen : seen_slugs ≢ []
unfolding filter_services_needing_detail fetch_details gather_all gather_one resolve_seen_slugs
some_seen = cc

abbrev shown_item : CatalogItem
shown_item = batch_item (catalog_item effects item)

service_shown :
    view (Runs.run compact (ops effects (run_sync env none).1) empty_table) salesforce "iptu"
    ≡ some shown_item
unfolding run_sync run_listed fetch_details gather_all gather_one filter_services_needing_detail
    after_fetch write_items after_batch settle sweep finish final_error map_all sync_home_featured
    normalize_home_featured resolve_seen_slugs persist_all persist_slug_aliases Runs.run Runs.apply
    upsert_batch batch_loop insert_or_update soft_delete_active_not_in find_row is_key
    map_carta_service_detail map_carta_article_status trim_space is_space catalog_item stored
    batch_item lookup
service_shown = refl

env-IsClean :
    IsClean env
      (item_listed ∷ [])
      (fetch_details env (filter_services_needing_detail (item_listed ∷ []) none))
unfolding fetch_details gather_all gather_one filter_services_needing_detail resolve_seen_slugs
    lookup
env-IsClean = (refl, refl, refl, refl)

run_shows_only_listed_example : IsIn "iptu" seen_slugs
run_shows_only_listed_example =
    run_shows_only_listed compact effects env none (item_listed ∷ []) empty_table "iptu" shown_item
      refl env-IsClean some_seen service_shown

-- The theme of the service, and another.
abbrev health : CartaTheme
health = record {
  slug = "saude";
  name = "Saúde";
  subthemes_count = pos 1;
  published_services = pos 3;
}

abbrev taxes : CartaTheme
taxes = record {
  slug = "impostos";
  name = "Impostos";
  subthemes_count = pos 1;
  published_services = pos 2;
}

abbrev theme_rows : List ThemeRow
theme_rows =
    record { theme = taxes; deleted = false } ∷ record { theme = health; deleted = false } ∷ []
