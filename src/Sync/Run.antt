-- ===== src/Sync/Run.antt =====
-- `FullSync`, `DeltaSync` and `runSync`. The answers of the Carta's API, of the repository and of
-- the clock are the environment of a run; what the run asks of the repository, in order, is its
-- result. The goroutines that fetch details write under one mutex, in the order of the list here.
pub mod Cursor
pub mod Skipped
use app_catalogo.Common.{
  ℕ, zero, suc, ◌+◌, ◌-◌, String, Bool, true, false, not, ◌&&◌, ◌||◌, Option, none, some, List, [],
  ◌∷◌, ◌++◌, map, keep_if, length, ltb, leb, str_eq, if◌then◌else◌,
}
use app_catalogo.Common.Int.{ℤ}
use app_catalogo.Common.Go.{Result, ok, err, Error, message, wrap}
use app_catalogo.Common.Text.{is_empty, trim_space}
use app_catalogo.Sync.Featured.{CartaHomeFeatured, normalize_home_featured}
use app_catalogo.Sync.Mapping.{CartaServiceDetail, CatalogItem, Libraries, map_carta_service_detail}
use app_catalogo.Sync.Listing.{
  CartaServiceListItem, filter_services_needing_detail, resolve_seen_slugs,
}

abbrev pub carta_sync_version : String
carta_sync_version = "2"

pub data SyncEventStatus : Type 0 where
  sync_status_completed sync_status_failed : SyncEventStatus

-- The cursor: the instant of the last run, and the version of the mapping.
pub record SalesForceSyncCursor : Type 0 where
  pub last_sync_at : Option ℕ
  pub last_delta_token : String

-- A call of the repository or of the hierarchy's repository.
pub data RepositoryCall : Type 0 where
  record_sync_event : Bool → RepositoryCall
  replace_home_featured : List CartaHomeFeatured → RepositoryCall
  upsert_slug_alias : String → String → RepositoryCall
  delete_slug_alias : String → RepositoryCall
  upsert_slug_aliases : String → List String → RepositoryCall
  upsert : CatalogItem → RepositoryCall
  upsert_batch : List CatalogItem → RepositoryCall
  soft_delete : String → RepositoryCall
  upsert_theme : String → String → ℤ → ℤ → RepositoryCall
  upsert_subtheme : String → String → String → ℤ → RepositoryCall
  soft_delete_themes_not_in : List String → RepositoryCall
  soft_delete_subthemes_not_in : List String → RepositoryCall
  soft_delete_active_not_in : List String → RepositoryCall
  upsert_cursor : ℕ → String → RepositoryCall
  refresh_hierarchy_counts : RepositoryCall
  update_sync_event : SyncEventStatus → ℕ → ℕ → RepositoryCall

-- The answers to one run.
pub record Environment : Type 0 where
  pub libraries : Libraries
  pub base_service_url : String
  -- s.hierarchy != nil
  pub hierarchy : Bool
  -- `ListHomeFeatured`
  pub home : Result Error (List CartaHomeFeatured)
  -- `listAndPersistHierarchy`
  pub listed : Result Error (List CartaServiceListItem)
  -- `GetServiceCanonical`
  pub get_service : String → Result Error (CartaServiceDetail × String)
  -- UpsertBatch: how many items it processed, and its error
  pub upserted : ℕ × Option Error
  pub soft_delete_error : Option Error
  -- time.Now() when the cursor is written
  pub ended_at : ℕ

-- What `fetchDetails` gathers. The redirects are a map, which the code ranges over in any order;
-- here it is the order of the latest entry first.
pub record Fetched : Type 0 where
  pub details : List CartaServiceDetail
  pub redirects : List (String × String)
  pub failed : ℕ
  pub first_err : Option Error

abbrev or_first : Option Error → Error → Option Error
or_first none e = some e
or_first (some first) e = some first

unfoldable pub gather_one : String → Result Error (CartaServiceDetail × String) → Fetched → Fetched
gather_one slug (err e) f = record f { failed = f.failed + 1; first_err = or_first f.first_err e }
gather_one slug (ok (detail, canonical)) f = record f {
  details = f.details ++ detail ∷ [];
  redirects =
      if not (str_eq slug canonical) && not (is_empty canonical)
      then (slug, canonical) ∷ f.redirects
      else f.redirects;
}

unfoldable pub gather_all : Environment → List CartaServiceListItem → Fetched → Fetched
unfolding gather_one
gather_all env [] f = f
gather_all env (i ∷ items) f = gather_all env items (gather_one i.slug (env.get_service i.slug) f)

unfoldable pub fetch_details : Environment → List CartaServiceListItem → Fetched
unfolding gather_all
fetch_details env items =
    gather_all env items (record { details = []; redirects = []; failed = 0; first_err = none })

abbrev pub alias_calls : List (String × String) → List RepositoryCall
alias_calls = map (λ (r : String × String). upsert_slug_alias r.0 r.1)

unfoldable pub map_all : Libraries → String → List CartaServiceDetail → List CatalogItem × ℕ
map_all l base [] = ([], 0)
map_all l base (d ∷ details) =
    let (items, failed) = map_all l base details in
    elim (map_carta_service_detail l base d) [
      | none ↦ (items, failed + 1)
      | some item ↦ (item ∷ items, failed)
    ]

unfoldable pub persist_slug_aliases : CartaServiceDetail → String → String → List RepositoryCall
persist_slug_aliases d requested canonical_slug =
    let canonical =
      if is_empty (trim_space canonical_slug)
      then trim_space d.slug
      else trim_space canonical_slug in
    let requested = trim_space requested in
    if is_empty canonical
    then []
    else delete_slug_alias canonical
      ∷ ((if not (is_empty requested) && not (str_eq requested canonical)
            then upsert_slug_alias requested canonical ∷ []
            else [])
          ++ (if leb (length d.slug_history) 0
              then []
              else upsert_slug_aliases canonical d.slug_history ∷ []))

unfoldable pub persist_all : List CartaServiceDetail → List RepositoryCall
persist_all [] = []
persist_all (d ∷ details) = persist_slug_aliases d "" d.slug ++ persist_all details

-- The error that a run ends with after the batch was written.
unfoldable pub final_error : Option Error → ℕ → Option Error → Option Error
final_error (some soft) fetch_failed fetch_err = some soft
final_error none (suc n) fetch_err = some (message "salesforce: detalhe(s) falharam")
final_error none zero fetch_err = fetch_err

unfoldable pub finish : Environment → ℕ → ℕ → Option Error → Option Error × List RepositoryCall
finish env processed failed (some e) =
    (some e, update_sync_event sync_status_failed processed failed ∷ [])
finish env processed failed none = (
  none,
  upsert_cursor env.ended_at carta_sync_version
      ∷ ((if env.hierarchy then refresh_hierarchy_counts ∷ [] else [])
          ++ update_sync_event sync_status_completed processed failed ∷ []),
)

abbrev pub then_calls :
    List RepositoryCall → Option Error × List RepositoryCall → Option Error × List RepositoryCall
then_calls calls (e, more) = (e, calls ++ more)

unfoldable pub sweep : List String → List RepositoryCall
sweep [] = []
sweep (s ∷ seen) = soft_delete_active_not_in (s ∷ seen) ∷ []

-- The error of the sweep, where there is one.
abbrev pub sweep_error : Environment → List String → Option Error
sweep_error env [] = none
sweep_error env (s ∷ seen) = env.soft_delete_error

unfoldable pub settle :
    Environment → List CartaServiceListItem → Fetched → ℕ → ℕ → Option Error × List RepositoryCall
unfolding finish sweep
settle env listed f processed failed =
    let seen = resolve_seen_slugs listed f.redirects in
    then_calls ((if env.hierarchy then persist_all f.details else []) ++ sweep seen)
      (finish env processed failed (final_error (sweep_error env seen) f.failed f.first_err))

unfoldable pub after_batch :
    Environment
    → List CartaServiceListItem
    → Fetched
    → ℕ
    → ℕ
    → Option Error
    → Option Error × List RepositoryCall
after_batch env listed f processed failed (some e) =
    (some e, update_sync_event sync_status_failed processed failed ∷ [])
after_batch env listed f processed failed none = settle env listed f processed failed

unfoldable pub write_items :
    Environment → List CartaServiceListItem → Fetched → Option Error × List RepositoryCall
write_items env listed f =
    let (items, mapping_failed) = map_all env.libraries env.base_service_url f.details in
    let processed = env.upserted.0 in
    let failed = f.failed + mapping_failed + (length items - processed) in
    then_calls (upsert_batch items ∷ []) (after_batch env listed f processed failed env.upserted.1)

abbrev pub gave_nothing : Fetched → Bool
gave_nothing f = leb (length f.details) 0

unfoldable pub after_fetch :
    Environment
    → List CartaServiceListItem
    → Fetched
    → Option Error
    → Option Error × List RepositoryCall
after_fetch env listed f none = write_items env listed f
after_fetch env listed f (some e) =
    if gave_nothing f
    then (some e, update_sync_event sync_status_failed 0 f.failed ∷ [])
    else write_items env listed f

-- `runSync` from the listing on; `none` as `since` is the zero time.
unfoldable pub run_listed :
    Environment
    → Option ℕ
    → Result Error (List CartaServiceListItem)
    → Option Error × List RepositoryCall
run_listed env since (err e) = (some e, update_sync_event sync_status_failed 0 0 ∷ [])
run_listed env since (ok listed) =
    let f = fetch_details env (filter_services_needing_detail listed since) in
    then_calls (if env.hierarchy then alias_calls f.redirects else [])
      (after_fetch env listed f f.first_err)

-- `syncHomeFeatured`
unfoldable pub sync_home_featured :
    Bool → Result Error (List CartaHomeFeatured) → List RepositoryCall
sync_home_featured false home = []
sync_home_featured true (err e) = []
sync_home_featured true (ok raw) = replace_home_featured (normalize_home_featured raw) ∷ []

abbrev pub is_full : Option ℕ → Bool
is_full none = true
is_full (some since) = false

-- `runSync`
unfoldable pub run_sync : Environment → Option ℕ → Option Error × List RepositoryCall
run_sync env since =
    then_calls (record_sync_event (is_full since) ∷ sync_home_featured env.hierarchy env.home)
      (run_listed env since env.listed)

-- `FullSync`
unfoldable pub full_sync : Environment → Option Error × List RepositoryCall
full_sync env = run_sync env none

-- `DeltaSync`; the cursor, if it can be read.
unfoldable pub delta_since : Option SalesForceSyncCursor → Option ℕ
delta_since none = none
delta_since (some c) = if str_eq c.last_delta_token carta_sync_version then c.last_sync_at else none

unfoldable pub delta_sync :
    Environment → Option SalesForceSyncCursor → Option Error × List RepositoryCall
unfolding delta_since
delta_sync env cursor = run_sync env (delta_since cursor)
