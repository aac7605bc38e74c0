-- ===== src/Carta/Units.antt =====
-- `ListOrgUnits`: the organs that have published services. The order of texts under MAX, the field
-- of the JSON of a service and the ORDER BY are arguments.
pub mod Counts
use app_catalogo.Common.{
  ℕ, String, Bool, true, false, not, ◌&&◌, Option, none, some, List, [], ◌∷◌, map, any, keep_if,
  length, str_eq, if◌then◌else◌,
}
use app_catalogo.Common.Int.{ℤ}
use app_catalogo.Common.Text.{is_empty}
use app_catalogo.Catalog.{Row, Table}
use app_catalogo.Carta.Pages.{CartaMeta, select_page}
use app_catalogo.Carta.Hierarchy.{is_published}

pub record CartaOrgUnit : Type 0 where
  pub responsible_org_unit_sici_code : String
  pub responsible_org_unit : String
  pub responsible_org_unit_short_name : String
  pub published_services : ℕ

-- The rows that the aggregation reads.
unfoldable pub has_code : Row → Bool
has_code r = is_published r && not (is_empty r.item.sici_code)

-- The groups of GROUP BY sici_code.
unfoldable pub codes : List Row → List String
unfolding has_code
codes [] = []
codes (r ∷ rows) =
    let rest = codes rows in
    if has_code r && not (any (str_eq r.item.sici_code) rest) then r.item.sici_code ∷ rest else rest

abbrev pub in_group : String → Row → Bool
in_group code r = is_published r && str_eq r.item.sici_code code

-- MAX of texts that may be NULL.
unfoldable pub max_text : (String → String → Bool) → List (Option String) → Option String
max_text less [] = none
max_text less (none ∷ texts) = max_text less texts
max_text less (some s ∷ texts) = elim (max_text less texts) [
  | none ↦ some s
  | some t ↦ some (if less s t then t else s)
]

abbrev or_text : Option String → String → String
or_text none other = other
or_text (some s) other = s

abbrev null_if_empty : Option String → Option String
null_if_empty none = none
null_if_empty (some s) = if is_empty s then none else some s

unfoldable pub unit_of :
    (String → String → Bool) → (Option String → Option String) → List Row → String → CartaOrgUnit
unfolding max_text
unit_of less short_name rows code =
    let group = keep_if (in_group code) rows in
    record {
      responsible_org_unit_sici_code = code;
      responsible_org_unit =
          or_text
            (null_if_empty (max_text less (map (λ (r : Row). some r.item.organization) group)))
            code;
      responsible_org_unit_short_name =
          or_text (max_text less (map (λ (r : Row). short_name r.item.source_data) group)) "";
      published_services = length group;
    }

-- The count of all groups is that of the rows of the page, or, on an empty page, of a second query.
unfoldable pub list_org_units :
    (String → String → Bool)
    → (Option String → Option String)
    → (List CartaOrgUnit → List CartaOrgUnit)
    → ℤ
    → ℤ
    → Table
    → List CartaOrgUnit × CartaMeta
unfolding codes unit_of
list_org_units less short_name order page per_page t =
    select_page order (λ u. true) page per_page
      (map (unit_of less short_name t.rows) (codes t.rows))
