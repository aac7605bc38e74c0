-- ===== src/Sync/Mapping.antt =====
-- `MapCartaServiceDetail` and its helpers: a service of the Carta as an item of the catalog. The
-- regular expression, html.UnescapeString, url.Parse, time.Parse and ToLower are parameters.
pub mod Safe
use app_catalogo.Common.{
  ℕ, String, Bool, true, false, not, ◌&&◌, ◌||◌, Option, none, some, List, [], ◌∷◌, ◌++◌, any,
  str_eq, ltb, if◌then◌else◌,
}
use Prim.Native.String
use app_catalogo.Common.Text.{is_empty, trim_space, fields, join_words, contains, trim_right_code}

pub record CartaButton : Type 0 where
  pub url : String
  pub enabled : Bool

-- What the mapping and the aliases read of a service.
pub record CartaServiceDetail : Type 0 where
  pub slug : String
  pub name : String
  pub article_status : String
  pub created_date : String
  pub last_modified_date : String
  pub last_published_date : String
  pub slug_history : List String
  pub theme_slug : String
  pub theme_name : String
  pub subtheme_slug : String
  pub subtheme_name : String
  pub responsible_org_unit : String
  pub responsible_org_unit_short_name : String
  pub responsible_org_unit_sici_code : Option String
  pub summary : String
  pub full_description : String
  pub target_audience : List String
  pub cost : Option String
  pub is_free : Bool
  pub instructions : String
  pub service_result : String
  pub required_docs : List String
  pub channel_types : List String
  pub buttons : List CartaButton

pub data ItemStatus : Type 0 where
  status_active status_inactive status_draft : ItemStatus

pub record TargetAudienceData : Type 0 where
  pub deficiencia : List String
  pub etnia : List String
  pub faixa_etaria : List String
  pub genero : List String
  pub outros : List String

-- An item; its source data is the service itself.
pub record CatalogItem : Type 0 where
  pub external_id : String
  pub title : String
  pub description : String
  pub short_desc : String
  pub organization : String
  pub url : String
  pub modalidade : String
  pub status : ItemStatus
  pub tags : List String
  pub target_audience : TargetAudienceData
  pub theme_slug : String
  pub subtheme_slug : String
  pub sici_code : String
  pub valid_from : Option ℕ
  pub source_updated_at : Option ℕ

pub record Libraries : Type 0 where
  pub to_lower : String → String
  -- htmlTagPattern.ReplaceAllString(s, " ")
  pub replace_tags : String → String
  pub unescape : String → String
  -- the first of the four layouts that reads the text
  pub parse_time : String → Option ℕ
  -- the scheme of a URL that url.Parse reads
  pub url_scheme : String → Option String

unfoldable pub coalesce_carta_name : String → String → String
coalesce_carta_name name fallback = if is_empty (trim_space name) then fallback else trim_space name

unfoldable pub map_carta_article_status : Libraries → String → ItemStatus
map_carta_article_status l status =
    let s = l.to_lower (trim_space status) in
    if any (str_eq s) ("online" ∷ "published" ∷ "ativo" ∷ "active" ∷ [])
    then status_active
    else if any (str_eq s) ("draft" ∷ "rascunho" ∷ [])
    then status_draft
    else if is_empty status
    then status_active
    else status_inactive

unfoldable pub is_http : Option String → Bool
is_http none = false
is_http (some scheme) = str_eq scheme "https" || str_eq scheme "http"

unfoldable pub is_allowed_carta_url : Libraries → String → Bool
unfolding is_http
is_allowed_carta_url l raw =
    if is_empty (trim_space raw) then false else is_http (l.url_scheme (trim_space raw))

-- The first of two loops over the buttons: the enabled ones, if the flag is set.
unfoldable pub button_url : Libraries → Bool → List CartaButton → Option String
button_url l only_enabled [] = none
button_url l only_enabled (b ∷ buttons) =
    let rest = button_url l only_enabled buttons in
    if (not only_enabled || b.enabled) && is_allowed_carta_url l b.url
    then some (trim_space b.url)
    else rest

unfoldable pub own_url : String → String → String
own_url slug base =
    if not (is_empty slug) && not (is_empty base)
    then String.◌++◌ (trim_right_code 47 base) (String.◌++◌ "/servicos/" slug)
    else ""

unfoldable pub build_carta_service_url : Libraries → CartaServiceDetail → String → String
build_carta_service_url l d base = elim (button_url l true d.buttons) [
  | some url ↦ url
  | none ↦ elim (button_url l false d.buttons) [ some url ↦ url | none ↦ own_url d.slug base ]
]

unfoldable pub infer_carta_modalidade : Libraries → List String → String
infer_carta_modalidade l types =
    let digital = any (λ t. str_eq (l.to_lower (trim_space t)) "digital") types in
    let presencial = any (λ t. str_eq (l.to_lower (trim_space t)) "presencial") types in
    if digital && presencial
    then "hibrido"
    else if digital
    then "digital"
    else if presencial
    then "presencial"
    else ""

-- A list of the text, if it is not empty.
abbrev if_given : String → List String
if_given s = if is_empty s then [] else s ∷ []

unfoldable pub cost_tag : Option String → Bool → List String
cost_tag none free = if free then "Gratuito" ∷ [] else []
cost_tag (some cost) free =
    if is_empty cost then (if free then "Gratuito" ∷ [] else []) else cost ∷ []

unfoldable pub build_carta_tags : CartaServiceDetail → List String
unfolding cost_tag
build_carta_tags d =
    if_given d.theme_name
    ++ if_given d.subtheme_name
    ++ cost_tag d.cost d.is_free
    ++ if_given d.responsible_org_unit_short_name

unfoldable pub strip_html : Libraries → String → String
strip_html l raw =
    if is_empty raw
    then ""
    else trim_space (join_words " " (fields (l.unescape (l.replace_tags raw))))

abbrev documents : List String → List String
documents [] = []
documents (d ∷ docs) = String.◌++◌ "Documentos: " (join_words ", " (d ∷ docs)) ∷ []

unfoldable pub build_carta_description : Libraries → CartaServiceDetail → String
unfolding strip_html
build_carta_description l d =
    let full = strip_html l d.full_description in
    join_words "\n\n" (
      (if str_eq full (strip_html l d.summary) then [] else if_given full)
      ++ if_given (strip_html l d.instructions)
      ++ if_given (strip_html l d.service_result)
      ++ documents d.required_docs)

abbrev holds_one : String → List String → Bool
holds_one s subs = any (contains s) subs

unfoldable pub add_audience : Libraries → String → TargetAudienceData → TargetAudienceData
add_audience l p ta =
    let pl = l.to_lower p in
    if holds_one pl ("pcd" ∷ "deficiência" ∷ "deficiencia" ∷ [])
    then record ta { deficiencia = ta.deficiencia ++ p ∷ [] }
    else if holds_one pl ("idoso" ∷ "terceira_idade" ∷ "terceira idade" ∷ [])
    then record ta { faixa_etaria = ta.faixa_etaria ++ "60+" ∷ [] }
    else if holds_one pl ("criança" ∷ "crianca" ∷ "menor" ∷ [])
    then record ta { faixa_etaria = ta.faixa_etaria ++ "menor-18" ∷ [] }
    else if holds_one pl ("mulher" ∷ "feminino" ∷ [])
    then record ta { genero = ta.genero ++ p ∷ [] }
    else if holds_one pl (
        "pret" ∷ "pard" ∷ "branc" ∷ "indígena" ∷ "indigena" ∷ "amarel" ∷ "etnia" ∷ "raça" ∷ "raca"
        ∷ [])
    then record ta { etnia = ta.etnia ++ p ∷ [] }
    else record ta { outros = ta.outros ++ p ∷ [] }

unfoldable pub add_audiences : Libraries → List String → TargetAudienceData → TargetAudienceData
unfolding add_audience
add_audiences l [] ta = ta
add_audiences l (p ∷ ps) ta = add_audiences l ps (add_audience l p ta)

-- The data that is marshalled; none of its lists has an item where the audiences are none.
unfoldable pub map_carta_target_audience : Libraries → List String → TargetAudienceData
map_carta_target_audience l audiences =
    add_audiences l audiences
      (record { deficiencia = []; etnia = []; faixa_etaria = []; genero = []; outros = [] })

unfoldable pub parse_optional_carta_time : Libraries → String → Option ℕ
parse_optional_carta_time l raw =
    if is_empty (trim_space raw) then none else l.parse_time (trim_space raw)

abbrev later_time : Option ℕ → Option ℕ → Option ℕ
later_time best none = best
later_time none (some t) = some t
later_time (some b) (some t) = if ltb b t then some t else some b

unfoldable pub max_non_zero_time : List (Option ℕ) → Option ℕ → Option ℕ
max_non_zero_time [] best = best
max_non_zero_time (t ∷ times) best = max_non_zero_time times (later_time best t)

abbrev first_time : Option ℕ → Option ℕ → Option ℕ
first_time none other = other
first_time (some t) other = some t

abbrev trimmed : Option String → String
trimmed none = ""
trimmed (some s) = trim_space s

unfoldable pub map_carta_service_detail :
    Libraries → String → CartaServiceDetail → Option CatalogItem
map_carta_service_detail l base d =
    let published = parse_optional_carta_time l d.last_published_date in
    if is_empty d.slug || is_empty d.name
    then none
    else some (record {
      external_id = d.slug;
      title = d.name;
      description = build_carta_description l d;
      short_desc = strip_html l d.summary;
      organization = d.responsible_org_unit;
      url = build_carta_service_url l d base;
      modalidade = infer_carta_modalidade l d.channel_types;
      status = map_carta_article_status l d.article_status;
      tags = build_carta_tags d;
      target_audience = map_carta_target_audience l d.target_audience;
      theme_slug = d.theme_slug;
      subtheme_slug = d.subtheme_slug;
      sici_code = trimmed d.responsible_org_unit_sici_code;
      valid_from = first_time published (parse_optional_carta_time l d.created_date);
      source_updated_at =
          max_non_zero_time (parse_optional_carta_time l d.last_modified_date ∷ published ∷ [])
            none;
    })
