-- ===== src/Carta/Hierarchy.antt =====
-- The tables carta_themes and carta_subthemes, whose keys are slugs. Of deleted_at, which the code
-- only tests for NULL, the rows keep whether it is set.
pub mod Hidden
use app_catalogo.Common.{
  ℕ, String, Bool, true, false, not, ◌&&◌, Option, none, some, List, [], ◌∷◌, map, any, keep_if,
  length, leb, str_eq, if◌then◌else◌,
}
use app_catalogo.Common.Int.{ℤ, pos, ltb_ℤ}
use app_catalogo.Common.Go.{Result, ok, err, Error, message}
use app_catalogo.Common.Text.{is_empty, trim_space}
use app_catalogo.Catalog.{CatalogItem, Row, Table, is_active, is_null}
use app_catalogo.Carta.Pages.{CartaMeta, select_page}

pub record CartaTheme : Type 0 where
  pub slug : String
  pub name : String
  pub subthemes_count : ℤ
  pub published_services : ℤ

pub record CartaSubtheme : Type 0 where
  pub slug : String
  pub theme_slug : String
  pub name : String
  pub published_services : ℤ

pub record ThemeRow : Type 0 where
  pub theme : CartaTheme
  pub deleted : Bool

pub record SubthemeRow : Type 0 where
  pub subtheme : CartaSubtheme
  pub deleted : Bool

-- `UpsertTheme`
unfoldable pub upsert_theme : CartaTheme → List ThemeRow → List ThemeRow
upsert_theme theme [] = record { theme = theme; deleted = false } ∷ []
upsert_theme theme (r ∷ rows) =
    let rest = upsert_theme theme rows in
    if str_eq r.theme.slug theme.slug
    then record { theme = theme; deleted = false } ∷ rows
    else r ∷ rest

-- `UpsertSubtheme`
unfoldable pub upsert_subtheme : CartaSubtheme → List SubthemeRow → List SubthemeRow
upsert_subtheme subtheme [] = record { subtheme = subtheme; deleted = false } ∷ []
upsert_subtheme subtheme (r ∷ rows) =
    let rest = upsert_subtheme subtheme rows in
    if str_eq r.subtheme.slug subtheme.slug
    then record { subtheme = subtheme; deleted = false } ∷ rows
    else r ∷ rest

-- `SoftDeleteThemesNotIn`
unfoldable pub soft_delete_themes_not_in : List String → List ThemeRow → List ThemeRow
soft_delete_themes_not_in keep rows =
    if leb (length keep) 0
    then map (λ (r : ThemeRow). record r { deleted = true }) rows
    else map
        (λ (r : ThemeRow).
          if any (str_eq r.theme.slug) keep then r else record r { deleted = true })
        rows

-- `SoftDeleteSubthemesNotIn`
unfoldable pub soft_delete_subthemes_not_in : List String → List SubthemeRow → List SubthemeRow
soft_delete_subthemes_not_in keep rows =
    if leb (length keep) 0
    then map (λ (r : SubthemeRow). record r { deleted = true }) rows
    else map
        (λ (r : SubthemeRow).
          if any (str_eq r.subtheme.slug) keep then r else record r { deleted = true })
        rows

-- The services that the hierarchy counts and lists.
unfoldable pub is_published : Row → Bool
is_published r =
    str_eq r.item.source "salesforce" && is_null r.deleted_at && is_active r.item.status

abbrev count_if {ℓ} : {A : Type ℓ} → (A → Bool) → List A → ℤ
count_if p xs = pos (length (keep_if p xs))

unfoldable pub count_subtheme : Table → SubthemeRow → SubthemeRow
unfolding is_published
count_subtheme t r = if r.deleted then r else record r {
  subtheme = record r.subtheme {
    published_services =
        count_if (λ (i : Row). is_published i && str_eq i.item.subtheme_slug r.subtheme.slug)
          t.rows;
  };
}

unfoldable pub count_theme : Table → List SubthemeRow → ThemeRow → ThemeRow
unfolding is_published
count_theme t subthemes r = if r.deleted then r else record r {
  theme = record r.theme {
    published_services =
        count_if (λ (i : Row). is_published i && str_eq i.item.theme_slug r.theme.slug) t.rows;
    subthemes_count =
        count_if (λ (s : SubthemeRow). str_eq s.subtheme.theme_slug r.theme.slug && not s.deleted)
          subthemes;
  };
}

-- `RefreshHierarchyCounts`: the subthemes, and then the themes.
unfoldable pub refresh_hierarchy_counts :
    Table → List ThemeRow → List SubthemeRow → List ThemeRow × List SubthemeRow
unfolding count_subtheme count_theme
refresh_hierarchy_counts t themes subthemes =
    let counted = map (count_subtheme t) subthemes in (map (count_theme t counted) themes, counted)

-- deleted_at IS NULL, and published_services > 0 where empty themes are left out.
unfoldable pub is_listed_theme : Bool → ThemeRow → Bool
is_listed_theme include_empty r =
    not r.deleted && (if include_empty then true else ltb_ℤ (pos 0) r.theme.published_services)

-- `ListThemes`; the answer of the database is that of its queries.
unfoldable pub list_themes :
    (List ThemeRow → List ThemeRow) → ℤ → ℤ → Bool → List ThemeRow → List CartaTheme × CartaMeta
unfolding is_listed_theme
list_themes order page per_page include_empty rows =
    let (found, meta) = select_page order (is_listed_theme include_empty) page per_page rows in
    (map (λ (r : ThemeRow). r.theme) found, meta)

-- `ListSubthemes`
unfoldable pub list_subthemes :
    (List SubthemeRow → List SubthemeRow)
    → String
    → ℤ
    → ℤ
    → List SubthemeRow
    → Result Error (List CartaSubtheme × CartaMeta)
list_subthemes order raw page per_page rows =
    let slug = trim_space raw in
    let (found, meta) =
      select_page order (λ (r : SubthemeRow). str_eq r.subtheme.theme_slug slug && not r.deleted)
        page per_page rows in
    if is_empty slug
    then err (message "theme slug vazio")
    else ok (map (λ (r : SubthemeRow). r.subtheme) found, meta)

-- `ListServicesBySiciCode`: the data of an organ's services.
unfoldable pub list_services_by_sici_code :
    (List Row → List Row) → String → ℤ → ℤ → Table → Result Error (List (Option String) × CartaMeta)
unfolding is_published
list_services_by_sici_code order raw page per_page t =
    let code = trim_space raw in
    let (found, meta) =
      select_page order (λ (r : Row). is_published r && str_eq r.item.sici_code code) page per_page
        t.rows in
    if is_empty code
    then err (message "sici code vazio")
    else ok (map (λ (r : Row). r.item.source_data) found, meta)

-- `ListAllServices`
unfoldable pub list_all_services :
    (List Row → List Row) → ℤ → ℤ → Table → List (Option String) × CartaMeta
unfolding is_published
list_all_services order page per_page t =
    let (found, meta) = select_page order is_published page per_page t.rows in
    (map (λ (r : Row). r.item.source_data) found, meta)
