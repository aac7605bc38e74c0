-- ===== src/Sync/Themes.antt =====
-- What the calls of a synchronisation do to the table of themes, and what the public then sees.
use app_catalogo.Common.{◌≡◌, refl, List, [], ◌∷◌, ◌++◌}
use app_catalogo.Common.Int.{pos}
use app_catalogo.Sync.Mapping.{CartaServiceDetail, coalesce_carta_name}
use app_catalogo.Sync.Run.{RepositoryCall, upsert_theme, soft_delete_themes_not_in}
use app_catalogo.Carta.Hierarchy
use app_catalogo.Carta.Hierarchy.{CartaTheme, ThemeRow}

abbrev pub theme_op : RepositoryCall → List ThemeRow → List ThemeRow
theme_op (upsert_theme slug name subthemes published) rows =
    Hierarchy.upsert_theme
      (record {
        slug = slug;
        name = name;
        subthemes_count = subthemes;
        published_services = published;
      })
      rows
theme_op (soft_delete_themes_not_in keep) rows = Hierarchy.soft_delete_themes_not_in keep rows
theme_op _ rows = rows

abbrev pub themes_after : List RepositoryCall → List ThemeRow → List ThemeRow
themes_after [] rows = rows
themes_after (call ∷ calls) rows = themes_after calls (theme_op call rows)

pub themes_after-append :
    (calls more : List RepositoryCall) (rows : List ThemeRow)
    → themes_after (calls ++ more) rows ≡ themes_after more (themes_after calls rows)
themes_after-append [] more rows = refl
themes_after-append (call ∷ calls) more rows = themes_after-append calls more (theme_op call rows)

-- The theme that the synchronisation of a service writes.
abbrev pub service_theme : CartaServiceDetail → CartaTheme
service_theme d = record {
  slug = d.theme_slug;
  name = coalesce_carta_name d.theme_name d.theme_slug;
  subthemes_count = pos 0;
  published_services = pos 0;
}
