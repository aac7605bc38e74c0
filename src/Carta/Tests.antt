-- ===== src/Carta/Tests.antt =====
-- The tables of the Carta de Serviços on concrete rows.
use app_catalogo.Sync.Mapping.{status_active}
use app_catalogo.Catalog.{CatalogItem, Row, Table}
use app_catalogo.Carta.Hierarchy.{is_published}
use app_catalogo.Carta.Units.{CartaOrgUnit, list_org_units}
use app_catalogo.Carta.Units.Counts.{IsCounted, org_unit_counts}
use app_catalogo.Common.{
  String, Option, some, inl, true, ℕ, ◌↔◌, IsIn, ◌≡◌, ◌≢◌, refl, Bool, false, none, List, [], ◌∷◌,
  leb,
}
use app_catalogo.Common.Go.{ok}
use app_catalogo.Common.Int.{pos}
use app_catalogo.Common.Text.{is_empty, trim_space, is_space}
use app_catalogo.Common.Maps.{lookup}
use app_catalogo.Carta.Aliases.{upsert_slug_alias, resolve_slug_alias}
use app_catalogo.Carta.Acyclic.{
  AliasCall, upsert, upsert_all, remove, IsAcyclic, run, alias_run-IsAcyclic,
}
use app_catalogo.Carta.Resolve.{accepts, resolve-upsert_slug_alias}
use app_catalogo.Sync.Featured.{CartaHomeFeatured, normalize_home_featured}
use app_catalogo.Carta.Home.{Replies, replace_home_featured, list_home_featured}
use app_catalogo.Carta.Home.Snapshot.{Ascends, featured_snapshot}
use app_catalogo.Carta.Pages.{select_page, clamp_carta_page}

-- A slug that moves, and moves back.
abbrev calls : List AliasCall
calls =
    upsert "ipt" "iptu"
    ∷ upsert "iptu" "ipt"
    ∷ upsert_all "iptu" ("ipt" ∷ "i" ∷ [])
    ∷ remove "i"
    ∷ []

empty-IsAcyclic : IsAcyclic []
unfolding lookup
empty-IsAcyclic slug = (0, refl)

alias_run-IsAcyclic_example : IsAcyclic (run accepts calls [])
alias_run-IsAcyclic_example = alias_run-IsAcyclic accepts (λ s. refl) calls [] empty-IsAcyclic

old_text : is_empty (trim_space " ipt") ≡ false
unfolding trim_space is_space
old_text = refl

new_text : is_empty (trim_space "iptu") ≡ false
unfolding trim_space is_space
new_text = refl

moved_away : trim_space " ipt" ≢ trim_space "iptu"
unfolding trim_space is_space
moved_away = cc

other_than_old : trim_space "outro" ≢ trim_space " ipt"
unfolding trim_space is_space
other_than_old = cc

other_than_new : trim_space "outro" ≢ trim_space "iptu"
unfolding trim_space is_space
other_than_new = cc

resolve-upsert_slug_alias_example :
    (resolve_slug_alias none " ipt" (upsert_slug_alias accepts " ipt" "iptu" []).1
      ≡ ok (trim_space "iptu"))
    × (resolve_slug_alias none "iptu" (upsert_slug_alias accepts " ipt" "iptu" []).1 ≡ ok "")
    × (resolve_slug_alias none "outro" (upsert_slug_alias accepts " ipt" "iptu" []).1
        ≡ resolve_slug_alias none "outro" [])
resolve-upsert_slug_alias_example =
    resolve-upsert_slug_alias " ipt" "iptu" "outro" [] old_text new_text moved_away other_than_old
      other_than_new

-- Seven rows, of which five are wanted, in pages of two.
abbrev rows : List ℕ
rows = 1 ∷ 2 ∷ 3 ∷ 4 ∷ 5 ∷ 6 ∷ 7 ∷ []

abbrev wanted : ℕ → Bool
wanted n = leb n 5

abbrev accepting : Replies
accepting = record { begin = none; delete = none; copy = none; commit = none }

-- Two items of one slug, and one with the position of another.
abbrev featured : List CartaHomeFeatured
featured =
    record { slug = "iptu"; position = pos 2; other = "old" }
    ∷ record { slug = " iptu "; position = pos 1; other = "new" }
    ∷ record { slug = "iss"; position = pos 1; other = "" }
    ∷ []

featured_snapshot_example :
    (replace_home_featured accepting (normalize_home_featured featured) []
      ≡ (none, normalize_home_featured featured))
    × Ascends (list_home_featured (λ a b. true) (normalize_home_featured featured))
    × ((x : CartaHomeFeatured)
        → IsIn x (list_home_featured (λ a b. true) (normalize_home_featured featured))
          ↔ IsIn x (normalize_home_featured featured))
featured_snapshot_example =
    featured_snapshot (λ a b. true) accepting featured [] refl refl refl refl

-- Two organs, of which one has two services, the second of them deleted.
abbrev item_of : String → String → CatalogItem
item_of slug code = record {
  external_id = slug;
  source = "salesforce";
  item_type = "service";
  title = slug;
  description = "";
  short_desc = "";
  organization = "Fazenda";
  url = "";
  image_url = "";
  target_audience = none;
  bairros = [];
  modalidade = "";
  status = status_active;
  tags = [];
  source_data = some "{}";
  theme_slug = "";
  subtheme_slug = "";
  sici_code = code;
  valid_from = none;
  valid_until = none;
  source_updated_at = none;
}

abbrev row_of : ℕ → String → String → Option ℕ → Row
row_of id slug code deleted = record {
  id = id;
  item = item_of slug code;
  embedding = none;
  created_at = 1;
  updated_at = 1;
  deleted_at = deleted;
}

abbrev services : Table
services = record {
  rows =
      row_of 0 "iptu" "10" none ∷ row_of 1 "iss" "10" (some 7) ∷ row_of 2 "vacina" "20" none ∷ [];
  next_id = 3;
}

abbrev finance : CartaOrgUnit
finance = record {
  responsible_org_unit_sici_code = "10";
  responsible_org_unit = "Fazenda";
  responsible_org_unit_short_name = "SMF";
  published_services = 1;
}

abbrev units : List CartaOrgUnit
units = (list_org_units (λ a b. false) (λ raw. some "SMF") (λ us. us) (pos 1) (pos 10) services).0

finance_listed : IsIn finance units
unfolding list_org_units select_page clamp_carta_page is_published
finance_listed = inl refl

code_trimmed : trim_space "10" ≡ "10"
unfolding trim_space is_space
code_trimmed = refl

org_unit_counts_example : IsCounted (λ rows. rows) (pos 1) (pos 1) services finance
org_unit_counts_example =
    org_unit_counts (λ a b. false) (λ raw. some "SMF") (λ us. us) (λ rows. rows) (pos 1) (pos 10)
      (pos 1) (pos 1) services finance (λ found x h. h) finance_listed code_trimmed
