-- ===== src/Sync/Moved.antt =====
-- A service that has moved: what `SyncRecord` does to the tables, and what `GetServiceDetail` then
-- answers.
use mathlib.Core.Path.{subst}
use app_catalogo.Common.{
  String, ◌≡◌, ◌≢◌, refl, sym, ap, ◌∙◌, true, false, Option, none, some, List, [], ◌∷◌, ◌++◌,
  append_assoc, append-nil, length, leb, str_eq, eq_iff, arith, Bool-cases, false_of_not, inl, inr,
  if◌then◌else◌,
}
use app_catalogo.Common.Go.{ok, Error}
use app_catalogo.Common.Text.{is_empty, trim_space}
use app_catalogo.Common.Text.Trim.{trim_space_twice}
use app_catalogo.Sync.Mapping
use app_catalogo.Sync.Mapping.{CartaServiceDetail, status_active, map_carta_service_detail}
use app_catalogo.Sync.Mapping.Safe.{mapped_item_safe}
use app_catalogo.Sync.Run.{
  RepositoryCall, upsert, soft_delete, upsert_slug_alias, upsert_slug_aliases, delete_slug_alias,
  persist_slug_aliases,
}
use app_catalogo.Sync.Record.{
  RecordEnvironment, theme_calls, hierarchy_calls, remove_old, after_upsert, write_record,
  sync_answer, sync_record,
}
use app_catalogo.Sync.Effect.{Effects, catalog_item, salesforce, ops, ops-append}
use app_catalogo.Catalog.{Table, marshal_raw, stored}
use app_catalogo.Catalog.Runs
use app_catalogo.Catalog.Runs.{Op, upserts, deletes, upsert_item, run_view, view-run}
use app_catalogo.Catalog.View.{View, view, set_view, unset_view}
use app_catalogo.Carta.Aliases.{Aliases, resolve_slug_alias}
use app_catalogo.Carta.Acyclic
use app_catalogo.Carta.Acyclic.{AliasCall, upsert_all, remove}
use app_catalogo.Carta.Resolve.{accepts, upsert_moves}
use app_catalogo.Carta.Points.{Points, moved_slug-Points, upsert_all-Points}
use app_catalogo.Carta.Detail.{get_service_detail, detail_or_alias, redirect_of}

-- What a call asks of the aliases.
abbrev pub alias_op : RepositoryCall → List AliasCall
alias_op (upsert_slug_alias old canonical) = Acyclic.upsert old canonical ∷ []
alias_op (upsert_slug_aliases canonical olds) = upsert_all canonical olds ∷ []
alias_op (delete_slug_alias old) = remove old ∷ []
alias_op _ = []

abbrev pub alias_ops : List RepositoryCall → List AliasCall
alias_ops [] = []
alias_ops (call ∷ calls) = alias_op call ++ alias_ops calls

alias_ops-append :
    (calls more : List RepositoryCall)
    → alias_ops (calls ++ more) ≡ alias_ops calls ++ alias_ops more
alias_ops-append [] more = refl
alias_ops-append (call ∷ calls) more =
    ap (λ o. alias_op call ++ o) (alias_ops-append calls more)
    ∙ sym (append_assoc (alias_op call) (alias_ops calls) (alias_ops more))

theme_calls-ops : (x : Effects) (d : CartaServiceDetail) → ops x (theme_calls d) ≡ []
unfolding theme_calls
theme_calls-ops x d = ground arith

theme_calls-alias_ops : (d : CartaServiceDetail) → alias_ops (theme_calls d) ≡ []
unfolding theme_calls
theme_calls-alias_ops d = ground arith

persist-ops :
    (x : Effects) (d : CartaServiceDetail) (slug canonical : String)
    → ops x (persist_slug_aliases d slug canonical) ≡ []
unfolding persist_slug_aliases
persist-ops x d slug canonical = ground arith

-- The service has the slug `d.slug` now, which has no spaces around it, and was asked for under
-- another.
module _ (raw : String) (d : CartaServiceDetail) (asked : is_empty (trim_space raw) ≡ false)
    (text : is_empty d.slug ≡ false) (trimmed : trim_space d.slug ≡ d.slug)
    (distinct : trim_space raw ≢ d.slug) where
  history : List AliasCall
  history = if leb (length d.slug_history) 0 then [] else upsert_all d.slug d.slug_history ∷ []

  persist-alias_ops :
      alias_ops (persist_slug_aliases d (trim_space raw) d.slug)
      ≡ remove d.slug ∷ Acyclic.upsert (trim_space raw) d.slug ∷ history
  unfolding persist_slug_aliases history
  persist-alias_ops =
      let other =
        false_of_not (str_eq (trim_space raw) d.slug)
          (λ h. distinct ((eq_iff (trim_space raw) d.slug).0 h)) in
      rw (trim_space_twice raw, trimmed, text, asked, other) (ground arith)

  history-Points :
      (aliases : Aliases)
      → Points (trim_space raw) d.slug aliases
      → Points (trim_space raw) d.slug (Acyclic.run accepts history aliases)
  unfolding history Acyclic.run Acyclic.apply
  history-Points aliases points = elim (Bool-cases (leb (length d.slug_history) 0)) [
    | inl no_history ↦ rw no_history points
    | inr some_history ↦ rw some_history (
        upsert_all-Points (trim_space raw) d.slug distinct text trimmed d.slug_history aliases
          points)
  ]

  persisted-Points :
      (aliases : Aliases)
      → Points
          (trim_space raw)
          d.slug
          (Acyclic.run accepts (alias_ops (persist_slug_aliases d (trim_space raw) d.slug)) aliases)
  unfolding Acyclic.run Acyclic.apply
  persisted-Points aliases =
      let cleared = Acyclic.apply accepts (remove d.slug) aliases in
      let done =
        ap (λ (r : Option Error × Aliases). r.1)
          (upsert_moves (trim_space raw) d.slug cleared (rw (trim_space_twice raw, asked))
            (rw (trimmed, text)) (rw (trim_space_twice raw, trimmed) distinct)) in
      rw persist-alias_ops (
        history-Points (Acyclic.apply accepts (Acyclic.upsert (trim_space raw) d.slug) cleared) (
          subst (Points (trim_space raw) d.slug) (sym (rw (trim_space_twice raw, trimmed) at done))
            (moved_slug-Points (trim_space raw) d.slug distinct text trimmed cleared)))

  module _ (env : RecordEnvironment) (item : Mapping.CatalogItem) (x : Effects) where
    abbrev moving_calls : List RepositoryCall
    moving_calls =
        upsert item
        ∷ ((theme_calls d ++ persist_slug_aliases d (trim_space raw) d.slug)
            ++ soft_delete (trim_space raw) ∷ [])

    sync_record-moving :
        env.get_service (trim_space raw) ≡ ok (d, d.slug)
        → map_carta_service_detail env.libraries env.base_service_url d ≡ some item
        → env.hierarchy ≡ true
        → env.upsert_error ≡ none
        → sync_record env raw ≡ (none, moving_calls)
    unfolding sync_record sync_answer write_record after_upsert hierarchy_calls remove_old
    sync_record-moving found mapped hierarchy well =
        let back =
          false_of_not (str_eq d.slug (trim_space raw))
            (λ h. distinct (sym ((eq_iff d.slug (trim_space raw)).0 h))) in
        rw
          (
            asked, sync_record, found, sync_answer, mapped, write_record, well, after_upsert,
            hierarchy, hierarchy_calls, back,
          )
          refl

    moving_calls-ops :
        ops x moving_calls
        ≡ upserts x.upsert_answer x.now (catalog_item x item)
          ∷ deletes x.now salesforce (trim_space raw)
          ∷ []
    moving_calls-ops =
        let persisted = persist_slug_aliases d (trim_space raw) d.slug in
        let idle : ops x (theme_calls d ++ persisted) ≡ [] =
          ops-append x (theme_calls d) persisted
          ∙ rw (theme_calls-ops x d, persist-ops x d (trim_space raw) d.slug) in
        ap (λ o. upserts x.upsert_answer x.now (catalog_item x item) ∷ o)
          (ops-append x (theme_calls d ++ persisted) (soft_delete (trim_space raw) ∷ []) ∙ rw idle)

    moving_calls-alias_ops :
        alias_ops moving_calls ≡ alias_ops (persist_slug_aliases d (trim_space raw) d.slug)
    moving_calls-alias_ops =
        let persisted = persist_slug_aliases d (trim_space raw) d.slug in
        alias_ops-append (theme_calls d ++ persisted) (soft_delete (trim_space raw) ∷ [])
        ∙ append-nil (alias_ops (theme_calls d ++ persisted))
        ∙ alias_ops-append (theme_calls d) persisted
        ∙ rw (theme_calls-alias_ops d)

    moving_calls-view :
        (compact : String → Option String) (t : Table)
        → x.upsert_answer ≡ none
        → view (Runs.run compact (ops x moving_calls) t)
          ≡ unset_view salesforce
              (trim_space raw)
              (set_view (upsert_item compact (catalog_item x item)) (view t))
    moving_calls-view compact t well =
        view-run compact (ops x moving_calls) t
        ∙ ap (λ o. run_view compact o (view t)) moving_calls-ops
        ∙ rw well

-- The tables after a call of `SyncRecord`.
abbrev pub after_sync :
    RecordEnvironment → String → (String → Option String) → Effects → Table → Table
after_sync env raw compact x t = Runs.run compact (ops x (sync_record env raw).1) t

abbrev pub aliases_after : RecordEnvironment → String → Aliases → Aliases
aliases_after env raw aliases = Acyclic.run accepts (alias_ops (sync_record env raw).1) aliases

-- What is shown at the item's own key.
set_shown :
    (compact : String → Option String) (x : Effects) (item : Mapping.CatalogItem)
    (old slug : String) (v : View)
    → str_eq old slug ≡ false
    → item.external_id ≡ slug
    → item.status ≡ status_active
    → unset_view salesforce old
        (set_view (upsert_item compact (catalog_item x item)) v)
        salesforce
        slug
      ≡ some (upsert_item compact (catalog_item x item))
unfolding stored catalog_item
set_shown compact x item old slug v other own active =
    rw (other, (eq_iff item.external_id slug).1 own, active) refl

-- A service was asked for under a slug that its redirects lead away from, to its own slug, which has
-- no spaces around it. After a call of `SyncRecord` in which nothing fails and whose item is active,
-- `GetServiceDetail` answers the old slug with a redirect to the new one, and the new one with the
-- service's data, whatever the tables were before.
pub moved_service_redirects :
    (compact : String → Option String) (raw : String) (d : CartaServiceDetail)
    (env : RecordEnvironment) (item : Mapping.CatalogItem) (x : Effects) (t : Table)
    (aliases : Aliases)
    → is_empty (trim_space raw) ≡ false
    → is_empty d.slug ≡ false
    → trim_space d.slug ≡ d.slug
    → trim_space raw ≢ d.slug
    → env.get_service (trim_space raw) ≡ ok (d, d.slug)
    → map_carta_service_detail env.libraries env.base_service_url d ≡ some item
    → item.status ≡ status_active
    → env.hierarchy ≡ true
    → env.upsert_error ≡ none
    → x.upsert_answer ≡ none
    → (get_service_detail none none raw
          (after_sync env raw compact x t)
          (aliases_after env raw aliases)
        ≡ ok (none, d.slug))
      × (get_service_detail none none d.slug
            (after_sync env raw compact x t)
            (aliases_after env raw aliases)
          ≡ ok (some (marshal_raw compact (some (x.service_json item))), ""))
unfolding get_service_detail detail_or_alias redirect_of resolve_slug_alias stored catalog_item
moved_service_redirects compact raw d env item x t aliases asked text trimmed distinct found mapped
      active hierarchy well stored_well =
    let slug = trim_space raw in
    let calls =
      ap (λ (r : Option Error × List RepositoryCall). r.1)
        (sync_record-moving raw d asked text trimmed distinct env item x found mapped hierarchy
          well) in
    let table =
      ap (λ c. view (Runs.run compact (ops x c) t)) calls
      ∙ moving_calls-view raw d asked text trimmed distinct env item x compact t stored_well in
    let at_old : view (after_sync env raw compact x t) salesforce slug ≡ none =
      ap (λ (v : View). v salesforce slug) table ∙ rw (eq_iff slug slug).1 refl in
    let own = (mapped_item_safe env.libraries env.base_service_url d item mapped).0 in
    let back = false_of_not (str_eq slug d.slug) (λ h. distinct ((eq_iff slug d.slug).0 h)) in
    let at_new : view (after_sync env raw compact x t) salesforce d.slug
        ≡ some (upsert_item compact (catalog_item x item)) =
      ap (λ (v : View). v salesforce d.slug) table
      ∙ set_shown compact x item slug d.slug (view t) back own active in
    let points =
      subst (λ c. Points slug d.slug (Acyclic.run accepts (alias_ops c) aliases)) (sym calls)
        (subst (λ o. Points slug d.slug (Acyclic.run accepts o aliases))
          (sym (moving_calls-alias_ops raw d asked text trimmed distinct env item x))
          (persisted-Points raw d asked text trimmed distinct aliases)) in
    (
      rw
          (
            asked,
            at_old,
            detail_or_alias,
            trim_space_twice raw,
            asked,
            points.0,
            redirect_of,
            text,
            false_of_not (str_eq d.slug slug) (λ h. distinct (sym ((eq_iff d.slug slug).0 h))),
          )
          refl,
      rw (trimmed, text, at_new, detail_or_alias) refl,
    )
