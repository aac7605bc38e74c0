-- ===== src/Catalog/Tests.antt =====
-- The statements on the catalog on concrete items.
use app_catalogo.Common.{String, ◌≡◌, refl, true, Option, none, some, List, [], ◌∷◌}
use app_catalogo.Sync.Mapping.{status_active, status_draft}
use app_catalogo.Catalog.{CatalogItem, Row, Table, is_key, is_orphan, soft_delete_active_not_in}
use app_catalogo.Catalog.View.{view}
use app_catalogo.Catalog.Runs.{
  Answers, Op, upserts, upserts_batch, deletes, sweeps, embeds, run, run_view, view-run,
}

abbrev iptu : CatalogItem
iptu = record {
  external_id = "iptu";
  source = "salesforce";
  item_type = "service";
  title = "IPTU";
  description = "";
  short_desc = "";
  organization = "";
  url = "";
  image_url = "";
  target_audience = none;
  bairros = [];
  modalidade = "digital";
  status = status_active;
  tags = [];
  source_data = some "{}";
  theme_slug = "";
  subtheme_slug = "";
  sici_code = "";
  valid_from = none;
  valid_until = none;
  source_updated_at = some 3;
}

abbrev iss : CatalogItem
iss = record iptu { external_id = "iss"; title = "ISS" }

abbrev row : Row
row = record {
  id = 0;
  item = iptu;
  embedding = some "[0.1]";
  created_at = 1;
  updated_at = 1;
  deleted_at = none;
}

abbrev table : Table
table = record { rows = row ∷ []; next_id = 1 }

abbrev compact : String → Option String
compact s = some s

abbrev accepting : Answers
accepting = record { begin = none; insert = λ i. none; commit = none }

-- Everything once: an upsert, a batch, an embedding, a sweep and a deletion.
abbrev ops : List Op
ops =
    upserts none 2 (record iptu { title = "IPTU 2026" })
    ∷ upserts_batch accepting 3 (iss ∷ record iptu { status = status_draft } ∷ [])
    ∷ embeds 4 1 "[0.2]"
    ∷ sweeps 5 "salesforce" ("iss" ∷ [])
    ∷ deletes 6 "salesforce" "iss"
    ∷ []

view-run_example : view (run compact ops table) ≡ run_view compact ops (view table)
view-run_example = view-run compact ops table

row_key : is_key iptu.source iptu.external_id row ≡ true
unfolding is_key
row_key = refl

-- A sweep hides what it does not keep.
swept : (soft_delete_active_not_in 5 "salesforce" ("iss" ∷ []) table).0 ≡ 1
unfolding soft_delete_active_not_in is_orphan
swept = refl
