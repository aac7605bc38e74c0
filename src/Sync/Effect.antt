-- ===== src/Sync/Effect.antt =====
-- What the calls of a synchronisation do to the catalog's table.
use mathlib.Core.Path.{subst}
use app_catalogo.Common.{
  ℕ, ◌+◌, ◌-◌, length, String, ◌≡◌, ◌≢◌, refl, sym, ap, ◌∙◌, Option, none, some, List, [], ◌∷◌,
  ◌++◌, append_assoc, any, str_eq, arith, IsIn, any_sound, Bool-cases, inl, inr, if◌then◌else◌,
}
use app_catalogo.Common.Go.{ok, Error}
use app_catalogo.Sync.Mapping.{CartaServiceDetail}
use app_catalogo.Sync.Mapping
use app_catalogo.Sync.Listing.{
  CartaServiceListItem, filter_services_needing_detail, resolve_seen_slugs,
}
use app_catalogo.Sync.Run.{
  RepositoryCall, upsert, upsert_batch, soft_delete, soft_delete_active_not_in, Environment,
  Fetched, fetch_details, alias_calls, persist_all, final_error, finish, then_calls, sweep,
  sweep_error, settle, after_batch, map_all, write_items, after_fetch, run_listed, run_sync,
  sync_home_featured, is_full, record_sync_event,
}
use app_catalogo.Sync.Run.Cursor.{IsClean}
use app_catalogo.Catalog.{CatalogItem, Table}
use app_catalogo.Catalog.Runs
use app_catalogo.Catalog.Runs.{
  Answers, Op, upserts, upserts_batch, deletes, sweeps, apply_view, run_view, view-run,
}
use app_catalogo.Catalog.View.{View, view, keep_view}

abbrev pub salesforce : String
salesforce = "salesforce"

-- What stands between a call and its statement: the JSON of an item's audience and of its service,
-- the instant, and the answers of the database.
pub record Effects : Type 0 where
  pub audience_json : Mapping.CatalogItem → String
  pub service_json : Mapping.CatalogItem → String
  pub upsert_answer : Option Error
  pub batch_answers : Answers
  pub now : ℕ

-- The item of `MapCartaServiceDetail` with all its columns.
unfoldable pub catalog_item : Effects → Mapping.CatalogItem → CatalogItem
catalog_item x i = record {
  external_id = i.external_id;
  source = salesforce;
  item_type = "service";
  title = i.title;
  description = i.description;
  short_desc = i.short_desc;
  organization = i.organization;
  url = i.url;
  image_url = "";
  target_audience = some (x.audience_json i);
  bairros = [];
  modalidade = i.modalidade;
  status = i.status;
  tags = i.tags;
  source_data = some (x.service_json i);
  theme_slug = i.theme_slug;
  subtheme_slug = i.subtheme_slug;
  sici_code = i.sici_code;
  valid_from = i.valid_from;
  valid_until = none;
  source_updated_at = i.source_updated_at;
}

abbrev catalog_items : Effects → List Mapping.CatalogItem → List CatalogItem
catalog_items x [] = []
catalog_items x (i ∷ items) = catalog_item x i ∷ catalog_items x items

-- The statement on the catalog of a call, if it has one.
abbrev pub op_of : Effects → RepositoryCall → List Op
op_of x (upsert item) = upserts x.upsert_answer x.now (catalog_item x item) ∷ []
op_of x (upsert_batch items) = upserts_batch x.batch_answers x.now (catalog_items x items) ∷ []
op_of x (soft_delete slug) = deletes x.now salesforce slug ∷ []
op_of x (soft_delete_active_not_in keep) = sweeps x.now salesforce keep ∷ []
op_of x _ = []

abbrev pub ops : Effects → List RepositoryCall → List Op
ops x [] = []
ops x (call ∷ calls) = op_of x call ++ ops x calls

pub ops-append :
    (x : Effects) (calls more : List RepositoryCall)
    → ops x (calls ++ more) ≡ ops x calls ++ ops x more
ops-append x [] more = refl
ops-append x (call ∷ calls) more =
    ap (λ o. op_of x call ++ o) (ops-append x calls more)
    ∙ sym (append_assoc (op_of x call) (ops x calls) (ops x more))

module _ (compact : String → Option String) (x : Effects) where
  abbrev seen_by : List RepositoryCall → View → View
  seen_by calls = run_view compact (ops x calls)

  run_view-append :
      (before after : List Op) (v : View)
      → run_view compact (before ++ after) v ≡ run_view compact after (run_view compact before v)
  run_view-append [] after v = refl
  run_view-append (op ∷ before) after v = run_view-append before after (apply_view compact op v)

  seen_by-append :
      (calls more : List RepositoryCall) (v : View)
      → seen_by (calls ++ more) v ≡ seen_by more (seen_by calls v)
  seen_by-append calls more v =
      ap (λ o. run_view compact o v) (ops-append x calls more)
      ∙ run_view-append (ops x calls) (ops x more) v

  -- After the calls, each active service has one of the slugs.
  abbrev pub OnlyKeeps : List String → List RepositoryCall → Type 0
  OnlyKeeps slugs calls =
      (v : View) (slug : String) (item : CatalogItem)
      → seen_by calls v salesforce slug ≡ some item
      → IsIn slug slugs

  append-OnlyKeeps :
      (slugs : List String) (calls more : List RepositoryCall)
      → OnlyKeeps slugs more
      → OnlyKeeps slugs (calls ++ more)
  append-OnlyKeeps slugs calls more h v slug item shown =
      h (seen_by calls v) slug item
        (sym (ap (λ w. w salesforce slug) (seen_by-append calls more v)) ∙ shown)

  then_calls-OnlyKeeps :
      (slugs : List String) (calls : List RepositoryCall) (r : Option Error × List RepositoryCall)
      → OnlyKeeps slugs r.1
      → OnlyKeeps slugs (then_calls calls r).1
  then_calls-OnlyKeeps slugs calls (e, more) h = append-OnlyKeeps slugs calls more h

  keep_only :
      (keep : List String) (v : View) (slug : String) (item : CatalogItem)
      → keep_view salesforce keep v salesforce slug ≡ some item
      → IsIn slug keep
  keep_only keep v slug item h = elim (Bool-cases (any (str_eq slug) keep)) [
    | inl kept ↦ any_sound slug keep kept
    | inr gone ↦ absurd (cc (rw gone at h))
  ]

  finish-ops :
      (env : Environment) (processed failed : ℕ) (e : Option Error)
      → ops x (finish env processed failed e).1 ≡ []
  unfolding finish
  finish-ops env processed failed (some e) = refl
  finish-ops env processed failed none = ground arith

  sweep-OnlyKeeps :
      (seen : List String) (after : List RepositoryCall)
      → seen ≢ []
      → ops x after ≡ []
      → OnlyKeeps seen (sweep seen ++ after)
  unfolding sweep
  sweep-OnlyKeeps [] after some_seen idle v slug item shown = absurd (some_seen refl)
  sweep-OnlyKeeps (s ∷ seen) after some_seen idle v slug item shown =
      keep_only (s ∷ seen) v slug item (
        subst
          (λ o. run_view compact o (keep_view salesforce (s ∷ seen) v) salesforce slug ≡ some item)
          idle shown)

  module _ (env : Environment) (listed : List CartaServiceListItem) (f : Fetched) where
    settle-OnlyKeeps :
        (processed failed : ℕ)
        → resolve_seen_slugs listed f.redirects ≢ []
        → OnlyKeeps (resolve_seen_slugs listed f.redirects) (settle env listed f processed failed).1
    unfolding settle
    settle-OnlyKeeps processed failed some_seen =
        let seen = resolve_seen_slugs listed f.redirects in
        let e = final_error (sweep_error env seen) f.failed f.first_err in
        let persisted = if env.hierarchy then persist_all f.details else [] in
        subst (λ calls. OnlyKeeps seen calls)
          (sym (append_assoc persisted (sweep seen) (finish env processed failed e).1))
          (append-OnlyKeeps seen persisted (sweep seen ++ (finish env processed failed e).1) (
            sweep-OnlyKeeps seen (finish env processed failed e).1 some_seen
              (finish-ops env processed failed e)))

    write_items-OnlyKeeps :
        env.upserted.1 ≡ none
        → resolve_seen_slugs listed f.redirects ≢ []
        → OnlyKeeps (resolve_seen_slugs listed f.redirects) (write_items env listed f).1
    unfolding write_items after_batch
    write_items-OnlyKeeps well some_seen =
        let (items, mapping_failed) = map_all env.libraries env.base_service_url f.details in
        let failed = f.failed + mapping_failed + (length items - env.upserted.0) in
        rw well (
          then_calls-OnlyKeeps (resolve_seen_slugs listed f.redirects) (upsert_batch items ∷ [])
            (settle env listed f env.upserted.0 failed)
            (settle-OnlyKeeps env.upserted.0 failed some_seen))

  run_listed-OnlyKeeps :
      (env : Environment) (since : Option ℕ) (listed : List CartaServiceListItem)
      → IsClean env listed (fetch_details env (filter_services_needing_detail listed since))
      → resolve_seen_slugs listed
          (fetch_details env (filter_services_needing_detail listed since)).redirects
        ≢ []
      → OnlyKeeps
          (resolve_seen_slugs listed
            (fetch_details env (filter_services_needing_detail listed since)).redirects)
          (run_listed env since (ok listed)).1
  unfolding run_listed after_fetch
  run_listed-OnlyKeeps env since listed (well, failed, first, soft) some_seen =
      let f = fetch_details env (filter_services_needing_detail listed since) in
      then_calls-OnlyKeeps (resolve_seen_slugs listed f.redirects)
        (if env.hierarchy then alias_calls f.redirects else [])
        (after_fetch env listed f f.first_err)
        (subst
          (λ e. OnlyKeeps (resolve_seen_slugs listed f.redirects) (after_fetch env listed f e).1)
          (sym first) (write_items-OnlyKeeps env listed f well some_seen))

-- After a run in which nothing failed, and that listed a service with a slug, each active service in
-- the catalog's table has a canonical slug of the listing, whatever the table was before and
-- however the database answers the statements of the calls before the sweep: a service that is no
-- longer listed is no longer shown.
pub run_shows_only_listed :
    (compact : String → Option String) (x : Effects) (env : Environment) (since : Option ℕ)
    (listed : List CartaServiceListItem) (t : Table) (slug : String) (item : CatalogItem)
    → env.listed ≡ ok listed
    → IsClean env listed (fetch_details env (filter_services_needing_detail listed since))
    → resolve_seen_slugs listed
        (fetch_details env (filter_services_needing_detail listed since)).redirects
      ≢ []
    → view (Runs.run compact (ops x (run_sync env since).1) t) salesforce slug ≡ some item
    → IsIn slug (
        resolve_seen_slugs listed
          (fetch_details env (filter_services_needing_detail listed since)).redirects)
unfolding run_sync
run_shows_only_listed compact x env since listed t slug item found clean some_seen shown =
    let seen =
      resolve_seen_slugs listed
        (fetch_details env (filter_services_needing_detail listed since)).redirects in
    then_calls-OnlyKeeps compact x seen
      (record_sync_event (is_full since) ∷ sync_home_featured env.hierarchy env.home)
      (run_listed env since env.listed)
      (subst (λ r. OnlyKeeps compact x seen (run_listed env since r).1) (sym found)
        (run_listed-OnlyKeeps compact x env since listed clean some_seen))
      (view t) slug item
      (sym
          (ap (λ (w : View). w salesforce slug) (view-run compact (ops x (run_sync env since).1) t))
        ∙ shown)
