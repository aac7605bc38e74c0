-- ===== src/Sync/Collect.antt =====
-- `listAndPersistHierarchy`. The answers of the client and of the repositories are the record
-- `Client`; what is asked of the hierarchy's repository, in order, is part of the result. The
-- goroutines of a group run here one after another, in an order that is an argument.
pub mod Live
pub mod Keeps
pub mod Complete
pub mod Added
pub mod Services
use app_catalogo.Common.{
  ℕ, String, Bool, true, false, not, ◌&&◌, ◌||◌, Option, none, some, List, [], ◌∷◌, ◌++◌, any,
  str_eq, if◌then◌else◌,
}
use app_catalogo.Common.Int.{ℤ}
use app_catalogo.Common.Go.{Result, ok, err, Error, wrap}
use app_catalogo.Common.Text.{is_empty}
use app_catalogo.Carta.Hierarchy.{CartaTheme}
use app_catalogo.Sync.Listing.{CartaServiceListItem}
use app_catalogo.Sync.Run.{
  RepositoryCall, upsert_theme, upsert_subtheme, soft_delete_themes_not_in,
  soft_delete_subthemes_not_in,
}

-- `CartaSubtheme` of the client; its `CartaTheme` has the fields of the model's.
pub record CartaSubtheme : Type 0 where
  pub slug : String
  pub name : String
  pub published_services : ℤ

pub record Client : Type 0 where
  -- `ListAllThemes`, `ListAllSubthemes`, `ListAllServicesBySubtheme`
  pub themes : Result Error (List CartaTheme)
  pub subthemes : String → Result Error (List CartaSubtheme)
  pub services : String → Result Error (List CartaServiceListItem)
  -- s.hierarchy != nil, and what it answers
  pub hierarchy : Bool
  pub theme_error : CartaTheme → Option Error
  pub subtheme_error : String → CartaSubtheme → Option Error
  -- the orders in which the goroutines of the groups run
  pub theme_order : List CartaTheme → List CartaTheme
  pub subtheme_order : List String → List String

abbrev pub asks : Client → RepositoryCall → List RepositoryCall
asks c call = if c.hierarchy then call ∷ [] else []

abbrev pub answer : Client → Option Error → Option Error
answer c e = if c.hierarchy then e else none

abbrev pub and_slug : String → Result Error (List String) → Result Error (List String)
and_slug slug (err e) = err e
and_slug slug (ok slugs) = ok (slug ∷ slugs)

-- What follows the call of an upsert: the error of its answer, or the rest.
unfoldable pub then_rest :
    String
    → List RepositoryCall
    → Option Error
    → List RepositoryCall × Result Error (List String)
    → List RepositoryCall × Result Error (List String)
then_rest what call (some e) rest = (call, err (wrap what e))
then_rest what call none (calls, slugs) = (call ++ calls, slugs)

-- The loop over the subthemes of a theme, up to the first error.
unfoldable pub persist_subthemes :
    Client → String → List CartaSubtheme → List RepositoryCall × Result Error (List String)
unfolding then_rest
persist_subthemes c theme [] = ([], ok [])
persist_subthemes c theme (s ∷ subthemes) =
    let (calls, slugs) = persist_subthemes c theme subthemes in
    if is_empty s.slug
    then (calls, slugs)
    else then_rest "upsert subtema"
        (asks c (upsert_subtheme s.slug theme s.name s.published_services))
        (answer c (c.subtheme_error theme s)) (calls, and_slug s.slug slugs)

unfoldable pub after_subthemes :
    Client
    → String
    → Result Error (List CartaSubtheme)
    → List RepositoryCall × Result Error (List String)
unfolding persist_subthemes
after_subthemes c theme (err e) = ([], err (wrap "listar subtemas" e))
after_subthemes c theme (ok subthemes) = persist_subthemes c theme subthemes

-- The goroutine of a theme, up to its critical section.
unfoldable pub persist_theme :
    Client → CartaTheme → List RepositoryCall × Result Error (List String)
unfolding then_rest after_subthemes
persist_theme c t =
    then_rest "upsert tema"
      (asks c (upsert_theme t.slug t.name t.subthemes_count t.published_services))
      (answer c (c.theme_error t)) (after_subthemes c t.slug (c.subthemes t.slug))

-- What the group of the themes has done so far; the code keeps the slugs of the subthemes in two
-- equal lists.
pub record Kept : Type 0 where
  pub calls : List RepositoryCall
  pub themes : List String
  pub subthemes : List String
  pub error : Option Error

abbrev pub add_new : String → List String → List String
add_new slug slugs = if any (str_eq slug) slugs then slugs else slugs ++ slug ∷ []

abbrev pub add_all : List String → List String → List String
add_all [] slugs = slugs
add_all (s ∷ more) slugs = add_all more (add_new s slugs)

abbrev pub or_first : Option Error → Error → Option Error
or_first none e = some e
or_first (some first) e = some first

unfoldable pub keep_theme : String → List RepositoryCall × Result Error (List String) → Kept → Kept
keep_theme slug (calls, err e) k = record k { calls = k.calls ++ calls; error = or_first k.error e }
keep_theme slug (calls, ok slugs) k = record k {
  calls = k.calls ++ calls;
  themes = add_new slug k.themes;
  subthemes = add_all slugs k.subthemes;
}

unfoldable pub visit_theme : Client → CartaTheme → Kept → Kept
unfolding persist_theme keep_theme
visit_theme c t k = if is_empty t.slug then k else keep_theme t.slug (persist_theme c t) k

unfoldable pub visit_themes : Client → List CartaTheme → Kept → Kept
unfolding visit_theme
visit_themes c [] k = k
visit_themes c (t ∷ themes) k = visit_themes c themes (visit_theme c t k)

abbrev is_none : Option Error → Bool
is_none none = true
is_none (some e) = false

unfoldable pub sweep_hierarchy : Client → Bool → Kept → List RepositoryCall
sweep_hierarchy c is_full k =
    if is_full && c.hierarchy && is_none k.error
    then soft_delete_themes_not_in k.themes ∷ soft_delete_subthemes_not_in k.subthemes ∷ []
    else []

-- The critical section of the goroutine of a subtheme.
unfoldable pub add_services :
    List CartaServiceListItem → List CartaServiceListItem → List CartaServiceListItem
add_services [] all = all
add_services (i ∷ items) all = add_services items (
    if is_empty i.slug || any (λ (j : CartaServiceListItem). str_eq i.slug j.slug) all
    then all
    else all ++ i ∷ [])

abbrev Listed : Type 0
Listed = List CartaServiceListItem × Option Error

unfoldable pub visit_subtheme : Result Error (List CartaServiceListItem) → Listed → Listed
unfolding add_services
visit_subtheme (err e) (all, first) = (all, or_first first (wrap "listar serviços" e))
visit_subtheme (ok items) (all, first) = (add_services items all, first)

unfoldable pub visit_subthemes : Client → List String → Listed → Listed
unfolding visit_subtheme
visit_subthemes c [] l = l
visit_subthemes c (s ∷ slugs) l = visit_subthemes c slugs (visit_subtheme (c.services s) l)

unfoldable pub list_services : Client → Kept → Listed
unfolding visit_subthemes
list_services c k = elim k.error [
  | some e ↦ ([], some e)
  | none ↦ visit_subthemes c (c.subtheme_order k.subthemes) ([], none)
]

abbrev pub no_kept : Kept
no_kept = record { calls = []; themes = []; subthemes = []; error = none }

unfoldable pub after_themes :
    Client → Bool → Result Error (List CartaTheme) → List RepositoryCall × Listed
unfolding visit_themes sweep_hierarchy list_services
after_themes c is_full (err e) = ([], ([], some (wrap "listar temas" e)))
after_themes c is_full (ok themes) =
    let k = visit_themes c (c.theme_order themes) no_kept in
    (k.calls ++ sweep_hierarchy c is_full k, list_services c k)

-- `listAndPersistHierarchy`: what it asks of the repository, the services, and the error.
unfoldable pub list_and_persist_hierarchy : Client → Bool → List RepositoryCall × Listed
unfolding after_themes
list_and_persist_hierarchy c is_full = after_themes c is_full c.themes
