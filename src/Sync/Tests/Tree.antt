-- ===== src/Sync/Tests/Tree.antt =====
-- The listing of the hierarchy on a concrete client.
use app_catalogo.Common.{
  ℕ, String, ◌≡◌, ◌≢◌, ◌↔◌, refl, true, false, none, some, List, [], ◌∷◌, arith, IsIn, inl, inr,
  ◌==◌, str_eq, if◌then◌else◌,
}
use app_catalogo.Common.Int.{pos}
use app_catalogo.Common.Go.{Result, Error, ok, err, message}
use app_catalogo.Carta.Hierarchy.{CartaTheme, ThemeRow}
use app_catalogo.Sync.Pages.{Page, list_all}
use app_catalogo.Sync.Pages.{list_all_collects, Serves}
use app_catalogo.Sync.Themes.{themes_after}
use app_catalogo.Sync.Collect.{
  Client, Kept, no_kept, then_rest, after_subthemes, persist_theme, visit_subtheme, visit_subthemes,
  list_services, list_and_persist_hierarchy,
}
use app_catalogo.Sync.Collect.Live.{live}
use app_catalogo.Sync.Collect.Complete.{failed_listing_deletes_none}
use app_catalogo.Sync.Collect.Added.{HasKeys, Slugged}
use app_catalogo.Sync.Collect.Services.{Lists, list_services_iff}

-- Two pages, of which the second is the last.
abbrev served : ℕ → Result Error (Page ℕ)
served page =
    if page == 1
    then ok (7 ∷ 8 ∷ [], pos 2)
    else if page == 2
    then ok (9 ∷ [], pos 2)
    else err (message "404")

abbrev on_page : ℕ → List ℕ
on_page page = if page == 1 then 7 ∷ 8 ∷ [] else 9 ∷ []

served-Serves : Serves served on_page 2
served-Serves page first last = ground arith

list_all_collects_example : list_all 2 served ≡ some (ok (7 ∷ 8 ∷ 9 ∷ []))
list_all_collects_example = list_all_collects served on_page 2 served-Serves (omega arith)

abbrev theme : String → CartaTheme
theme slug = record {
  slug = slug;
  name = slug;
  subthemes_count = pos 1;
  published_services = pos 1;
}

-- Two themes and an unnamed one; a service is listed twice.
abbrev client : Client
client = record {
  themes = ok (theme "impostos" ∷ theme "" ∷ theme "saude" ∷ []);
  subthemes = λ slug. ok (record { slug = slug; name = "geral"; published_services = pos 1 } ∷ []);
  services = λ slug. ok (
      record { slug = "iptu"; modified_at = none }
      ∷ record { slug = ""; modified_at = none }
      ∷ record { slug = slug; modified_at = some 4 }
      ∷ []);
  hierarchy = true;
  theme_error = λ t. none;
  subtheme_error = λ slug s. none;
  theme_order = λ themes. themes;
  subtheme_order = λ slugs. slugs;
}

-- The same, where the second theme's subthemes are not answered.
abbrev failing : Client
failing = record client {
  subthemes = λ slug. if str_eq slug "saude" then err (message "503") else ok [];
}

abbrev row : String → ThemeRow
row slug = record { theme = theme slug; deleted = false }

-- A theme that is gone, and one that is still there.
abbrev before : List ThemeRow
before = row "antigo" ∷ row "saude" ∷ []

health_fails :
    (persist_theme failing (theme "saude")).1 ≡ err (Error.wrap "listar subtemas" (message "503"))
unfolding persist_theme then_rest after_subthemes
health_fails = refl

failed_listing_deletes_none_example :
    ((list_and_persist_hierarchy failing true).1.1 ≢ none)
    × ((list_and_persist_hierarchy failing true).1.0 ≡ [])
    × (IsIn "antigo" (live before)
        → IsIn "antigo" (live (themes_after (list_and_persist_hierarchy failing true).0 before)))
failed_listing_deletes_none_example =
    failed_listing_deletes_none failing true (theme "impostos" ∷ theme "" ∷ theme "saude" ∷ [])
      (theme "saude") (Error.wrap "listar subtemas" (message "503")) before "antigo" refl
      (inr (inr (inl refl))) refl health_fails

abbrev kept : Kept
kept = record no_kept { subthemes = "impostos" ∷ "saude" ∷ [] }

kept_well : (list_services client kept).1 ≡ none
unfolding list_services visit_subthemes visit_subtheme
kept_well = refl

list_services_iff_example :
    HasKeys (list_services client kept).0
    × ((s : String)
        → Slugged s (list_services client kept).0 ↔ Lists client ("impostos" ∷ "saude" ∷ []) s)
list_services_iff_example = list_services_iff client kept kept_well
