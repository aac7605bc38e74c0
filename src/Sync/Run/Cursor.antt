-- ===== src/Sync/Run/Cursor.antt =====
-- When a run advances the cursor, and what the next run then leaves out.
use mathlib.Core.Path.{subst}
use app_catalogo.Common.{
  ℕ, zero, suc, ◌+◌, ◌-◌, length, String, ◌≡◌, ◌↔◌, refl, sym, ◌∙◌, inl, inr, Bool, true, false,
  Option, none, some, List, [], ◌∷◌, ◌++◌, any, arith, Bool-cases, if◌then◌else◌,
}
use app_catalogo.Common.Go.{Result, ok, err, Error}
use app_catalogo.Sync.Featured.{CartaHomeFeatured}
use app_catalogo.Sync.Mapping.{CartaServiceDetail}
use app_catalogo.Sync.Listing.{
  CartaServiceListItem, filter_services_needing_detail, resolve_seen_slugs,
}
use app_catalogo.Sync.Run.{
  RepositoryCall, upsert_batch, upsert_cursor, is_full, record_sync_event, Environment, Fetched,
  fetch_details, alias_calls, persist_slug_aliases, persist_all, final_error, finish, then_calls,
  sweep, sweep_error, settle, after_batch, map_all, write_items, gave_nothing, after_fetch,
  run_listed, run_sync, sync_home_featured, SalesForceSyncCursor,
}

abbrev pub read_cursor : RepositoryCall → Option SalesForceSyncCursor
read_cursor (upsert_cursor at version) =
    some (record { last_sync_at = some at; last_delta_token = version })
read_cursor _ = none

abbrev is_cursor : RepositoryCall → Bool
is_cursor c = elim (read_cursor c) [ none ↦ false | some cursor ↦ true ]

-- The run writes the cursor.
abbrev pub advances : List RepositoryCall → Bool
advances = any is_cursor

pub advances-append :
    (xs ys : List RepositoryCall) → advances xs ≡ false → advances (xs ++ ys) ≡ advances ys
advances-append [] ys h = refl
advances-append (x ∷ xs) ys h = ground (arith, advances-append xs ys)

pub advances-both :
    (xs ys : List RepositoryCall)
    → advances xs ≡ false
    → advances ys ≡ false
    → advances (xs ++ ys) ≡ false
advances-both xs ys h k = advances-append xs ys h ∙ k

pub alias_quiet : (rs : List (String × String)) → advances (alias_calls rs) ≡ false
alias_quiet [] = refl
alias_quiet (r ∷ rs) = alias_quiet rs

pub persist_quiet :
    (d : CartaServiceDetail) (requested canonical : String)
    → advances (persist_slug_aliases d requested canonical) ≡ false
unfolding persist_slug_aliases
persist_quiet d requested canonical = ground arith

pub persist_all_quiet : (details : List CartaServiceDetail) → advances (persist_all details) ≡ false
unfolding persist_all
persist_all_quiet [] = refl
persist_all_quiet (d ∷ details) =
    advances-both (persist_slug_aliases d "" d.slug) (persist_all details)
      (persist_quiet d "" d.slug) (persist_all_quiet details)

pub sweep_quiet : (seen : List String) → advances (sweep seen) ≡ false
unfolding sweep
sweep_quiet [] = refl
sweep_quiet (s ∷ seen) = refl

pub home_quiet :
    (b : Bool) (home : Result Error (List CartaHomeFeatured))
    → advances (sync_home_featured b home) ≡ false
unfolding sync_home_featured
home_quiet false home = refl
home_quiet true (err e) = refl
home_quiet true (ok raw) = refl

pub if_quiet :
    (b : Bool) (xs : List RepositoryCall)
    → advances xs ≡ false
    → advances (if b then xs else []) ≡ false
if_quiet true xs h = h
if_quiet false xs h = refl

-- Calls that do not write the cursor, before others.
prefix_iff {ℓ} :
    {P : Type ℓ} (calls : List RepositoryCall) (r : Option Error × List RepositoryCall)
    → advances calls ≡ false
    → (advances r.1 ≡ true) ↔ P
    → (advances (then_calls calls r).1 ≡ true) ↔ P
prefix_iff calls (e, more) quiet (to, from) = (
  λ h. to (sym (advances-append calls more quiet) ∙ h),
  λ p. advances-append calls more quiet ∙ from p,
)

finish_iff :
    (env : Environment) (processed failed : ℕ) (e : Option Error)
    → (advances (finish env processed failed e).1 ≡ true) ↔ (e ≡ none)
unfolding finish
finish_iff env processed failed none = (λ h. refl, λ h. refl)
finish_iff env processed failed (some e) = (λ h. absurd (cc h), λ h. absurd (cc h))

final_error_iff :
    (soft : Option Error) (failed : ℕ) (first : Option Error)
    → (final_error soft failed first ≡ none) ↔ ((failed ≡ 0) × (first ≡ none) × (soft ≡ none))
unfolding final_error
final_error_iff (some e) failed first = (λ h. absurd (cc h), λ h. absurd (cc h.2))
final_error_iff none (suc n) first = (λ h. absurd (cc h), λ h. absurd (omega (arith, h.0)))
final_error_iff none zero first = (λ h. (refl, h, refl), λ h. h.1)

-- Nothing failed in a run with this listing and these details: no detail, not the batch, and not
-- the sweep of the services that are no longer listed.
abbrev pub IsClean : Environment → List CartaServiceListItem → Fetched → Type 0
IsClean env listed f =
    (env.upserted.1 ≡ none)
    × (f.failed ≡ 0)
    × (f.first_err ≡ none)
    × (sweep_error env (resolve_seen_slugs listed f.redirects) ≡ none)

module _ (env : Environment) (listed : List CartaServiceListItem) (f : Fetched) where
  settle_iff :
      (processed failed : ℕ)
      → (advances (settle env listed f processed failed).1 ≡ true) ↔ (
          (f.failed ≡ 0)
          × (f.first_err ≡ none)
          × (sweep_error env (resolve_seen_slugs listed f.redirects) ≡ none))
  unfolding settle
  settle_iff processed failed =
      let seen = resolve_seen_slugs listed f.redirects in
      let e = final_error (sweep_error env seen) f.failed f.first_err in
      let (to, from) = final_error_iff (sweep_error env seen) f.failed f.first_err in
      let (finished, finishes) = finish_iff env processed failed e in
      prefix_iff ((if env.hierarchy then persist_all f.details else []) ++ sweep seen)
        (finish env processed failed e)
        (advances-both (if env.hierarchy then persist_all f.details else []) (sweep seen)
          (if_quiet env.hierarchy (persist_all f.details) (persist_all_quiet f.details))
          (sweep_quiet seen))
        (λ h. to (finished h), λ h. finishes (from h))

  batch_iff :
      (processed failed : ℕ) (e : Option Error)
      → (advances (after_batch env listed f processed failed e).1 ≡ true) ↔ (
          (e ≡ none)
          × (f.failed ≡ 0)
          × (f.first_err ≡ none)
          × (sweep_error env (resolve_seen_slugs listed f.redirects) ≡ none))
  unfolding after_batch
  batch_iff processed failed (some x) = (λ h. absurd (cc h), λ h. absurd (cc h.0))
  batch_iff processed failed none =
      let (to, from) = settle_iff processed failed in
      (
        λ h.
            let (failed_none, first_none, soft_none) = to h in
            (refl, failed_none, first_none, soft_none),
        λ (e, failed_none, first_none, soft_none). from (failed_none, first_none, soft_none),
      )

  write_items_iff : (advances (write_items env listed f).1 ≡ true) ↔ IsClean env listed f
  unfolding write_items
  write_items_iff =
      let (items, mapping_failed) = map_all env.libraries env.base_service_url f.details in
      let failed = f.failed + mapping_failed + (length items - env.upserted.0) in
      prefix_iff (upsert_batch items ∷ [])
        (after_batch env listed f env.upserted.0 failed env.upserted.1) refl
        (batch_iff env.upserted.0 failed env.upserted.1)

  after_fetch_iff :
      (e : Option Error)
      → f.first_err ≡ e
      → (advances (after_fetch env listed f e).1 ≡ true) ↔ IsClean env listed f
  unfolding after_fetch
  after_fetch_iff none same = write_items_iff
  after_fetch_iff (some e) same = elim (Bool-cases (gave_nothing f)) [
    | inl nothing ↦ rw nothing (λ h. absurd (cc h), λ h. absurd (cc (h.2, same)))
    | inr some_detail ↦ rw some_detail write_items_iff
  ]

-- The listing could be read, and nothing failed in the run.
abbrev pub Completes : Environment → Option ℕ → Type 0
Completes env since =
    (listed : List CartaServiceListItem) × (env.listed ≡ ok listed)
    × IsClean env listed (fetch_details env (filter_services_needing_detail listed since))

run_listed_iff :
    (env : Environment) (since : Option ℕ) (r : Result Error (List CartaServiceListItem))
    → (advances (run_listed env since r).1 ≡ true) ↔ (
        (listed : List CartaServiceListItem) × (r ≡ ok listed)
        × IsClean env listed (fetch_details env (filter_services_needing_detail listed since)))
unfolding run_listed
run_listed_iff env since (err e) = (λ h. absurd (cc h), λ h. absurd (cc h.1))
run_listed_iff env since (ok listed) =
    let f = fetch_details env (filter_services_needing_detail listed since) in
    let (to, from) =
      prefix_iff (if env.hierarchy then alias_calls f.redirects else [])
        (after_fetch env listed f f.first_err)
        (if_quiet env.hierarchy (alias_calls f.redirects) (alias_quiet f.redirects))
        (after_fetch_iff env listed f f.first_err refl) in
    (
      λ h. (listed, refl, to h),
      λ (other, e, clean).
          let same : listed ≡ other = cc in
          from (
            subst (λ l. IsClean env l (fetch_details env (filter_services_needing_detail l since)))
              (sym same) clean),
    )

pub cursor_advances_iff :
    (env : Environment) (since : Option ℕ)
    → (advances (run_sync env since).1 ≡ true) ↔ Completes env since
unfolding run_sync
cursor_advances_iff env since =
    prefix_iff (record_sync_event (is_full since) ∷ sync_home_featured env.hierarchy env.home)
      (run_listed env since env.listed) (home_quiet env.hierarchy env.home)
      (run_listed_iff env since env.listed)
