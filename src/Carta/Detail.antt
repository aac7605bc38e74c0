-- ===== src/Carta/Detail.antt =====
-- `GetServiceDetail`: a service that is shown, or the slug that it has now.
use app_catalogo.Common.{String, not, ◌&&◌, Option, none, some, str_eq, if◌then◌else◌}
use app_catalogo.Common.Go.{Result, ok, err, Error, message}
use app_catalogo.Common.Text.{is_empty, trim_space}
use app_catalogo.Catalog.{CatalogItem, Table}
use app_catalogo.Catalog.View.{view}
use app_catalogo.Carta.Aliases.{Aliases, resolve_slug_alias}

-- The answer: the service's data, or the slug to go to, or neither.
unfoldable pub redirect_of : String → Result Error String → Result Error (Option String × String)
redirect_of slug (err e) = err e
redirect_of slug (ok canonical) =
    if not (is_empty canonical) && not (str_eq canonical slug)
    then ok (none, canonical)
    else ok (none, "")

unfoldable pub detail_or_alias :
    Option Error → String → Aliases → Option CatalogItem → Result Error (Option String × String)
unfolding redirect_of
detail_or_alias alias_error slug aliases (some item) = ok (item.source_data, "")
detail_or_alias alias_error slug aliases none =
    redirect_of slug (resolve_slug_alias alias_error slug aliases)

-- The errors are those of the two queries, other than pgx.ErrNoRows. The first query looks up the
-- active row of the key, as the catalog's view does.
unfoldable pub get_service_detail :
    Option Error → Option Error → String → Table → Aliases → Result Error (Option String × String)
unfolding detail_or_alias
get_service_detail query_error alias_error raw t aliases =
    let slug = trim_space raw in
    if is_empty slug then err (message "slug vazio") else elim query_error [
      | some e ↦ err e
      | none ↦ detail_or_alias alias_error slug aliases (view t "salesforce" slug)
    ]
