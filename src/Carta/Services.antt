-- ===== src/Carta/Services.antt =====
-- `ListServicesBySubtheme`, and what it reads of the JSON of a service.
use app_catalogo.Common.{
  String, Bool, false, ◌&&◌, Option, none, some, List, map, str_eq, if◌then◌else◌,
}
use app_catalogo.Common.Int.{ℤ}
use app_catalogo.Common.Go.{Result, ok, err, Error, message}
use app_catalogo.Common.Text.{is_empty, trim_space}
use app_catalogo.Sync.Mapping.{ItemStatus, status_active, status_inactive, status_draft}
use app_catalogo.Catalog.{Row, Table}
use app_catalogo.Carta.Pages.{CartaMeta, select_page}
use app_catalogo.Carta.Hierarchy.{is_published}

-- encoding/json: an object, and its fields of a type.
pub record Json : Type 1 where
  pub Object : Type 0
  pub unmarshal : String → Option Object
  pub text : Object → String → Option String
  pub flag : Object → String → Option Bool
  pub object : Object → String → Option Object

pub record CartaServiceSummary : Type 0 where
  pub slug : String
  pub name : String
  pub service_catalog_id : String
  pub article_id : String
  pub article_status : String
  pub created_date : String
  pub last_modified_date : String
  pub last_published_date : String
  pub responsible_org_unit : String
  pub responsible_org_unit_short_name : String
  pub responsible_org_unit_sici_code : Option String
  pub summary : String
  pub is_free : Bool
  pub theme_slug : String
  pub subtheme_slug : String

abbrev or_text : Option String → String → String
or_text none old = old
or_text (some s) old = s

-- A text that is there and not empty.
abbrev or_some_text : Option String → String → String
or_some_text none old = old
or_some_text (some s) old = if is_empty s then old else s

abbrev or_code : Option String → Option String → Option String
or_code none old = old
or_code (some s) old = some s

abbrev or_flag : Option Bool → Bool → Bool
or_flag none old = old
or_flag (some b) old = b

module _ (j : Json) where
  unfoldable pub with_info : Option j.Object → CartaServiceSummary → CartaServiceSummary
  with_info none sum = sum
  with_info (some info) sum = record sum {
    summary = or_some_text (j.text info "summary") sum.summary;
    is_free = or_flag (j.flag info "isFree") sum.is_free;
  }

  unfoldable pub with_detail : Option j.Object → CartaServiceSummary → CartaServiceSummary
  unfolding with_info
  with_detail none sum = sum
  with_detail (some detail) sum =
      let read = j.text detail in
      with_info (j.object detail "info") (record sum {
        service_catalog_id = or_text (read "serviceCatalogId") sum.service_catalog_id;
        article_id = or_text (read "articleId") sum.article_id;
        article_status = or_some_text (read "articleStatus") sum.article_status;
        created_date = or_text (read "createdDate") sum.created_date;
        last_modified_date = or_text (read "lastModifiedDate") sum.last_modified_date;
        last_published_date = or_text (read "lastPublishedDate") sum.last_published_date;
        responsible_org_unit_short_name =
            or_text (read "responsibleOrgUnitShortName") sum.responsible_org_unit_short_name;
        responsible_org_unit_sici_code =
            or_code (read "responsibleOrgUnitSiciCode") sum.responsible_org_unit_sici_code;
      })

  -- `enrichCartaServiceSummary`; a nil map is no object.
  unfoldable pub enrich_carta_service_summary :
      CartaServiceSummary → Option String → CartaServiceSummary
  unfolding with_detail
  enrich_carta_service_summary sum none = sum
  enrich_carta_service_summary sum (some raw) =
      if is_empty raw then sum else with_detail (j.unmarshal raw) sum

  abbrev status_text : ItemStatus → String
  status_text status_active = "active"
  status_text status_inactive = "inactive"
  status_text status_draft = "draft"

  unfoldable pub summary_of : Row → CartaServiceSummary
  unfolding enrich_carta_service_summary
  summary_of r =
      enrich_carta_service_summary
        (record {
          slug = r.item.external_id;
          name = r.item.title;
          service_catalog_id = "";
          article_id = "";
          article_status = status_text r.item.status;
          created_date = "";
          last_modified_date = "";
          last_published_date = "";
          responsible_org_unit = r.item.organization;
          responsible_org_unit_short_name = "";
          responsible_org_unit_sici_code = none;
          summary = r.item.short_desc;
          is_free = false;
          theme_slug = r.item.theme_slug;
          subtheme_slug = r.item.subtheme_slug;
        })
        r.item.source_data

  -- `ListServicesBySubtheme`
  unfoldable pub list_services_by_subtheme :
      (List Row → List Row)
      → String
      → ℤ
      → ℤ
      → Table
      → Result Error (List CartaServiceSummary × CartaMeta)
  unfolding summary_of
  list_services_by_subtheme order raw page per_page t =
      let slug = trim_space raw in
      let (found, meta) =
        select_page order (λ (r : Row). is_published r && str_eq r.item.subtheme_slug slug) page
          per_page t.rows in
      if is_empty slug then err (message "subtheme slug vazio") else ok (map summary_of found, meta)
