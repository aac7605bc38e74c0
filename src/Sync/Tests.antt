-- ===== src/Sync/Tests.antt =====
-- The synchronisation on concrete services and answers.
pub mod Tables
pub mod Tree
use app_catalogo.Common.{
  ℕ, ◌<◌, String, ◌≡◌, ◌↔◌, refl, ◌⊎◌, true, false, Option, none, some, List, [], ◌∷◌, arith, IsIn,
  str_eq, if◌then◌else◌,
}
use app_catalogo.Common.Go.{ok}
use app_catalogo.Common.Int.{pos}
use app_catalogo.Common.Text.{is_empty, trim_space, is_space}
use app_catalogo.Sync.Featured.{
  CartaHomeFeatured, normalize_home_featured, slugs, positions, IsDistinct,
}
use app_catalogo.Sync.Featured.Distinct.{FromRaw, normalize_home_featured-IsDistinct}
use app_catalogo.Sync.Mapping.{
  CartaServiceDetail, CatalogItem, Libraries, own_url, map_carta_service_detail, status_draft,
}
use app_catalogo.Sync.Mapping.Safe.{IsWeb, mapped_item_safe}
use app_catalogo.Sync.Listing.{
  CartaServiceListItem, filter_services_needing_detail, resolve_seen_slugs,
}
use app_catalogo.Sync.Run.{
  Environment, delta_since, fetch_details, gather_all, gather_one, run_sync,
}
use app_catalogo.Sync.Record.{RecordEnvironment, sync_record}
use app_catalogo.Sync.Record.Writes.{Wrote, sync_record-Wrote}
use app_catalogo.Sync.Canonical.{
  Answer, found, moved, follow, get_service_canonical, max_carta_service_redirect_hops,
}
use app_catalogo.Sync.Canonical.Follows.{Finds, get_service_canonical_iff}
use app_catalogo.Sync.Run.Cursor.{Completes}
use app_catalogo.Sync.Run.Skipped.{cursor_at, cursor_of, change_during_run_is_skipped}

-- Two items of one slug, and one with the position of another.
abbrev featured : List CartaHomeFeatured
featured =
    record { slug = "iptu"; position = pos 2; other = "old" }
    ∷ record { slug = " iptu "; position = pos 1; other = "new" }
    ∷ record { slug = "iss"; position = pos 1; other = "" }
    ∷ []

abbrev pub libraries : Libraries
libraries = record {
  to_lower = λ s. s;
  replace_tags = λ s. s;
  unescape = λ s. s;
  parse_time = λ s. none;
  url_scheme = λ s. if str_eq s "https://prefeitura.rio" then some "https" else some "javascript";
}

abbrev pub service : CartaServiceDetail
service = record {
  slug = "iptu";
  name = "IPTU";
  article_status = "online";
  created_date = "";
  last_modified_date = "";
  last_published_date = "";
  slug_history = [];
  theme_slug = "impostos";
  theme_name = "Impostos";
  subtheme_slug = "";
  subtheme_name = "";
  responsible_org_unit = "";
  responsible_org_unit_short_name = "";
  responsible_org_unit_sici_code = none;
  summary = "Pague";
  full_description = "Pague aqui";
  target_audience = "idoso" ∷ [];
  cost = none;
  is_free = true;
  instructions = "";
  service_result = "";
  required_docs = [];
  channel_types = "digital" ∷ [];
  buttons =
      record { url = "javascript:0"; enabled = true }
      ∷ record { url = "https://prefeitura.rio"; enabled = false }
      ∷ [];
}

abbrev item_of : Option CatalogItem → CatalogItem → CatalogItem
item_of none other = other
item_of (some item) other = item

abbrev other_item : CatalogItem
other_item = record {
  external_id = "";
  title = "";
  description = "";
  short_desc = "";
  organization = "";
  url = "";
  modalidade = "";
  status = status_draft;
  tags = [];
  target_audience = record {
    deficiencia = [];
    etnia = [];
    faixa_etaria = [];
    genero = [];
    outros = [];
  };
  theme_slug = "";
  subtheme_slug = "";
  sici_code = "";
  valid_from = none;
  source_updated_at = none;
}

abbrev pub item : CatalogItem
item = item_of (map_carta_service_detail libraries "https://rio" service) other_item

pub service-item : map_carta_service_detail libraries "https://rio" service ≡ some item
unfolding map_carta_service_detail
service-item = refl

mapped_item_safe_example :
    (item.external_id ≡ service.slug)
    × (is_empty item.external_id ≡ false)
    × (is_empty item.title ≡ false)
    × ((item.url ≡ own_url service.slug "https://rio") ⊎ IsWeb libraries item.url)
mapped_item_safe_example = mapped_item_safe libraries "https://rio" service item service-item

abbrev pub item_listed : CartaServiceListItem
item_listed = record { slug = "ipt"; modified_at = some 3 }

-- A run that lists one service and follows its redirect.
abbrev pub env : Environment
env = record {
  libraries = libraries;
  base_service_url = "https://rio";
  hierarchy = true;
  home = ok featured;
  listed = ok (item_listed ∷ []);
  get_service = λ s. ok (service, "iptu");
  upserted = (1, none);
  soft_delete_error = none;
  ended_at = 9;
}

env-Completes : Completes env none
unfolding filter_services_needing_detail fetch_details gather_all gather_one resolve_seen_slugs
env-Completes = (item_listed ∷ [], refl, (refl, refl, refl, refl))

-- The service is changed at 8, before the run ended at 9.
abbrev item_changed : CartaServiceListItem
item_changed = record { slug = "iptu"; modified_at = some 8 }

change_during_run_is_skipped_example :
    (cursor_at (run_sync env none).1 ≡ some (cursor_of env))
    × ¬ IsIn item_changed (
        filter_services_needing_detail
          (item_changed ∷ [])
          (delta_since (cursor_at (run_sync env none).1)))
change_during_run_is_skipped_example =
    change_during_run_is_skipped env none (item_changed ∷ []) item_changed 8 env-Completes refl
      (omega arith)

-- The service is asked for under its former slug.
abbrev pub record_env : RecordEnvironment
record_env = record {
  libraries = libraries;
  base_service_url = "https://rio";
  hierarchy = true;
  get_service = λ s. ok (service, "iptu");
  upsert_error = none;
  soft_delete_error = none;
}

pub slug_given : is_empty (trim_space " ipt ") ≡ false
unfolding trim_space is_space
slug_given = refl

pub slug_found : record_env.get_service (trim_space " ipt ") ≡ ok (service, "iptu")
slug_found = refl

-- Two redirects lead to the service.
abbrev answers : String → Answer
answers s =
    if str_eq s "a" then moved "b " else if str_eq s "b" then moved "iptu" else found service

get_service_canonical_iff_example : (get_service_canonical answers "a" ≡ ok (service, "iptu")) ↔ (
    ("iptu" ≡ service.slug)
    × ((n : ℕ) × (n < max_carta_service_redirect_hops) × Finds answers n (trim_space "a") service))
get_service_canonical_iff_example = get_service_canonical_iff answers "a" service "iptu"

-- The left side holds, so the right one does.
two_redirects : get_service_canonical answers "a" ≡ ok (service, "iptu")
unfolding get_service_canonical follow trim_space is_space
two_redirects = refl
