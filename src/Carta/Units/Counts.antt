-- ===== src/Carta/Units/Counts.antt =====
-- The count of an organ, and the listing of its services.
use app_catalogo.Common.{
  ◌<◌, ◌-◌, ◌*◌, String, ◌≡◌, refl, sym, ◌⊎◌, inl, inr, Bool, true, false, not, ◌&&◌, and_elim,
  true_of_not, Option, List, [], ◌∷◌, map, drop, any, keep_if, length, str_eq, eq_iff, arith, IsIn,
  map_sound, keep_if_sound, take_sound, drop_sound, Bool-cases,
}
use mathlib.Core.Path.{subst}
use app_catalogo.Common.Int.{ℤ}
use app_catalogo.Common.Go.{ok}
use app_catalogo.Common.Text.{is_empty, trim_space}
use app_catalogo.Catalog.{Row, Table}
use app_catalogo.Carta.Pages.{CartaMeta, carta_meta, clamp_carta_page, select_page}
use app_catalogo.Carta.Hierarchy.{is_published, list_services_by_sici_code}
use app_catalogo.Carta.Units.{CartaOrgUnit, has_code, codes, in_group, unit_of, list_org_units}

count_later :
    (code : String) (r : Row) (rows : List Row)
    → 0 < length (keep_if (in_group code) rows)
    → 0 < length (keep_if (in_group code) (r ∷ rows))
count_later code r rows h = elim (Bool-cases (in_group code r)) [
  | inl here ↦ rw here (omega arith)
  | inr other ↦ rw other h
]

-- A group has a code, and a row.
grouped :
    (rows : List Row) (code : String)
    → IsIn code (codes rows)
    → (is_empty code ≡ false) × (0 < length (keep_if (in_group code) rows))
unfolding codes has_code
grouped [] code h = absurd h
grouped (r ∷ rows) code h =
    elim (Bool-cases (has_code r && not (any (str_eq r.item.sici_code) (codes rows)))) [
      | inr skipped ↦
          let (text, some_row) = grouped rows code (rw skipped at h) in
          (text, count_later code r rows some_row)
      | inl new ↦
          let split : (code ≡ r.item.sici_code) ⊎ IsIn code (codes rows) = rw new at h in
          elim split [
            | inr later ↦
                let (text, some_row) = grouped rows code later in
                (text, count_later code r rows some_row)
            | inl own ↦
                let (published, text) =
                  and_elim (is_published r) (not (is_empty r.item.sici_code))
                    (and_elim (has_code r) (not (any (str_eq r.item.sici_code) (codes rows)))
                      new).0 in
                let here : in_group code r ≡ true =
                  rw (published, own, (eq_iff r.item.sici_code r.item.sici_code).1 refl) refl in
                (
                  subst (λ c. is_empty c ≡ false) (sym own)
                      (true_of_not (is_empty r.item.sici_code) text),
                  rw here (omega arith),
                )
          ]
    ]

-- The organ has a service, and as many as the listing under its code counts.
abbrev pub IsCounted : (List Row → List Row) → ℤ → ℤ → Table → CartaOrgUnit → Type 0
IsCounted by_title page per_page t u =
    (0 < u.published_services)
    × ((services : List (Option String)) × (meta : CartaMeta) × (list_services_by_sici_code by_title
            u.responsible_org_unit_sici_code page per_page t
          ≡ ok (services, meta))
        × (meta.total ≡ u.published_services))

unit-IsCounted :
    (less : String → String → Bool) (short_name : Option String → Option String)
    (by_title : List Row → List Row) (page per_page : ℤ) (t : Table) (code : String)
    → is_empty code ≡ false
    → 0 < length (keep_if (in_group code) t.rows)
    → trim_space code ≡ code
    → IsCounted by_title page per_page t (unit_of less short_name t.rows code)
unfolding list_services_by_sici_code select_page carta_meta unit_of
unit-IsCounted less short_name by_title page per_page t code text some_row trimmed =
    let (found, meta) = select_page by_title (in_group code) page per_page t.rows in
    (some_row, (map (λ (r : Row). r.item.source_data) found, meta, rw (trimmed, text) refl, refl))

own_code :
    (less : String → String → Bool) (short_name : Option String → Option String) (rows : List Row)
    (u : CartaOrgUnit) (code : String)
    → u ≡ unit_of less short_name rows code
    → trim_space u.responsible_org_unit_sici_code ≡ u.responsible_org_unit_sici_code
    → trim_space code ≡ code
unfolding unit_of
own_code less short_name rows u code own trimmed =
    subst
      (λ (x : CartaOrgUnit).
        trim_space x.responsible_org_unit_sici_code ≡ x.responsible_org_unit_sici_code)
      own trimmed

-- An organ on any page of `ListOrgUnits`, whose code has no spaces around it, has a service, and as
-- many as `ListServicesBySiciCode` counts under its code, on any page of it: where the order of the
-- organs gives only organs of its list.
pub org_unit_counts :
    (less : String → String → Bool) (short_name : Option String → Option String)
    (order : List CartaOrgUnit → List CartaOrgUnit) (by_title : List Row → List Row)
    (page per_page other_page other_per_page : ℤ) (t : Table) (u : CartaOrgUnit)
    → ((found : List CartaOrgUnit) (x : CartaOrgUnit) → IsIn x (order found) → IsIn x found)
    → IsIn u (list_org_units less short_name order page per_page t).0
    → trim_space u.responsible_org_unit_sici_code ≡ u.responsible_org_unit_sici_code
    → IsCounted by_title other_page other_per_page t u
unfolding list_org_units select_page
org_unit_counts less short_name order by_title page per_page other_page other_per_page t u only
      listed trimmed =
    let (k, n) = clamp_carta_page page per_page in
    let units = map (unit_of less short_name t.rows) (codes t.rows) in
    let found = keep_if (λ (x : CartaOrgUnit). true) units in
    let there =
      (keep_if_sound (λ (x : CartaOrgUnit). true) u units
        (only found u (
          drop_sound ((k - 1) * n) u (order found)
            (take_sound n u (drop ((k - 1) * n) (order found)) listed)))).0 in
    let (code, is_code, own) = map_sound (unit_of less short_name t.rows) u (codes t.rows) there in
    let (text, some_row) = grouped t.rows code is_code in
    subst (IsCounted by_title other_page other_per_page t) (sym own) (
      unit-IsCounted less short_name by_title other_page other_per_page t code text some_row
        (own_code less short_name t.rows u code own trimmed))
