-- ===== src/Sync/Run/Skipped.antt =====
-- What a run may deactivate, and what the run after it leaves out.
use mathlib.Core.Path.{subst}
use app_catalogo.Common.{
  ℕ, ◌+◌, ◌-◌, length, ◌≤◌, ◌≡◌, refl, sym, ap, ◌∙◌, ◌⊎◌, inl, inr, true, false, Option, none, some,
  List, [], ◌∷◌, ◌++◌, arith, IsIn, Bool-cases, Option-cases, if◌then◌else◌, ltb,
}
use app_catalogo.Common.Go.{Result, ok, err, Error}
use app_catalogo.Sync.Listing.{
  CartaServiceListItem, needs_detail, filter_services_needing_detail, resolve_seen_slugs,
}
use app_catalogo.Sync.Run.{
  carta_sync_version, RepositoryCall, upsert_batch, record_sync_event, Environment, Fetched,
  fetch_details, SalesForceSyncCursor, delta_since, run_sync, then_calls, finish, final_error,
  sweep, sweep_error, settle, after_batch, write_items, map_all, gave_nothing, after_fetch,
  alias_calls, run_listed, is_full, sync_home_featured, persist_all,
}
use app_catalogo.Sync.Run.Cursor.{
  read_cursor, advances, Completes, cursor_advances_iff, advances-append, advances-both,
  alias_quiet, persist_all_quiet, sweep_quiet, home_quiet, if_quiet,
}

kept_late :
    (since : ℕ) (listed : List CartaServiceListItem) (i : CartaServiceListItem) (modified : ℕ)
    → i.modified_at ≡ some modified
    → modified ≤ since
    → ¬ IsIn i (filter_services_needing_detail listed (some since))
unfolding filter_services_needing_detail
kept_late since [] i modified e old h = absurd h
kept_late since (j ∷ listed) i modified e old h =
    elim (Bool-cases (needs_detail j.modified_at since)) [
      | inr skipped ↦ kept_late since listed i modified e old (rw skipped at h)
      | inl needed ↦
          let split : (i ≡ j) ⊎ IsIn i (filter_services_needing_detail listed (some since)) =
            rw (needed, filter_services_needing_detail) at h in
          elim split [
            | inl same ↦
                let date : j.modified_at ≡ some modified =
                  ap (λ (x : CartaServiceListItem). x.modified_at) (sym same) ∙ e in
                late modified since old (ap (λ o. needs_detail o since) (sym date) ∙ needed)
            | inr later ↦ kept_late since listed i modified e old later
          ]
    ]
  where
    late : (modified since : ℕ) → modified ≤ since → ltb since modified ≡ true → ⊥
    late modified since old h = absurd (ground arith)

-- The cursor that a run writes.
abbrev pub cursor_of : Environment → SalesForceSyncCursor
cursor_of env = record { last_sync_at = some env.ended_at; last_delta_token = carta_sync_version }

current_version : (env : Environment) → delta_since (some (cursor_of env)) ≡ some env.ended_at
unfolding delta_since
current_version env = refl

-- The cursor that the first call which writes one writes.
abbrev pub cursor_at : List RepositoryCall → Option SalesForceSyncCursor
cursor_at [] = none
cursor_at (c ∷ calls) = elim (read_cursor c) [ none ↦ cursor_at calls | some cursor ↦ some cursor ]

cursor_at-append :
    (xs ys : List RepositoryCall) → advances xs ≡ false → cursor_at (xs ++ ys) ≡ cursor_at ys
cursor_at-append [] ys h = refl
cursor_at-append (x ∷ xs) ys h = elim (Option-cases (read_cursor x)) [
  | inl quiet ↦ rw (quiet, cursor_at) (cursor_at-append xs ys (ground arith))
  | inr (cursor, writes) ↦ absurd (ground arith)
]

-- The cursor, if one is written, is that of the run.
abbrev Writes : Environment → Option Error × List RepositoryCall → Type 0
Writes env (e, calls) = advances calls ≡ true → cursor_at calls ≡ some (cursor_of env)

prefix-Writes :
    (env : Environment) (calls : List RepositoryCall) (r : Option Error × List RepositoryCall)
    → advances calls ≡ false
    → Writes env r
    → Writes env (then_calls calls r)
prefix-Writes env calls (e, more) quiet w h =
    cursor_at-append calls more quiet ∙ w (sym (advances-append calls more quiet) ∙ h)

finish-Writes :
    (env : Environment) (processed failed : ℕ) (e : Option Error)
    → Writes env (finish env processed failed e)
unfolding finish
finish-Writes env processed failed none h = refl
finish-Writes env processed failed (some e) h = absurd (cc h)

module _ (env : Environment) (listed : List CartaServiceListItem) (f : Fetched) where
  batch-Writes :
      (processed failed : ℕ) (e : Option Error)
      → Writes env (after_batch env listed f processed failed e)
  unfolding after_batch settle
  batch-Writes processed failed (some e) h = absurd (cc h)
  batch-Writes processed failed none h =
      let seen = resolve_seen_slugs listed f.redirects in
      prefix-Writes env ((if env.hierarchy then persist_all f.details else []) ++ sweep seen)
        (finish env processed failed (final_error (sweep_error env seen) f.failed f.first_err))
        (advances-both (if env.hierarchy then persist_all f.details else []) (sweep seen)
          (if_quiet env.hierarchy (persist_all f.details) (persist_all_quiet f.details))
          (sweep_quiet seen))
        (finish-Writes env processed failed
          (final_error (sweep_error env seen) f.failed f.first_err))
        h

  write_items-Writes : Writes env (write_items env listed f)
  unfolding write_items
  write_items-Writes =
      let (items, mapping_failed) = map_all env.libraries env.base_service_url f.details in
      let failed = f.failed + mapping_failed + (length items - env.upserted.0) in
      prefix-Writes env (upsert_batch items ∷ [])
        (after_batch env listed f env.upserted.0 failed env.upserted.1) refl
        (batch-Writes env.upserted.0 failed env.upserted.1)

  after_fetch-Writes : (e : Option Error) → Writes env (after_fetch env listed f e)
  unfolding after_fetch
  after_fetch-Writes none = write_items-Writes
  after_fetch-Writes (some e) = elim (Bool-cases (gave_nothing f)) [
    | inl nothing ↦ rw nothing (λ h. absurd (cc h))
    | inr some_detail ↦ rw some_detail write_items-Writes
  ]

run_listed-Writes :
    (env : Environment) (since : Option ℕ) (r : Result Error (List CartaServiceListItem))
    → Writes env (run_listed env since r)
unfolding run_listed
run_listed-Writes env since (err e) h = absurd (cc h)
run_listed-Writes env since (ok listed) h =
    let f = fetch_details env (filter_services_needing_detail listed since) in
    prefix-Writes env (if env.hierarchy then alias_calls f.redirects else [])
      (after_fetch env listed f f.first_err)
      (if_quiet env.hierarchy (alias_calls f.redirects) (alias_quiet f.redirects))
      (after_fetch-Writes env listed f f.first_err) h

run_sync-Writes : (env : Environment) (since : Option ℕ) → Writes env (run_sync env since)
unfolding run_sync
run_sync-Writes env since =
    prefix-Writes env
      (record_sync_event (is_full since) ∷ sync_home_featured env.hierarchy env.home)
      (run_listed env since env.listed) (home_quiet env.hierarchy env.home)
      (run_listed-Writes env since env.listed)

-- A run that moves the cursor moves it to the instant at its end. A change of a service at any
-- instant up to then, so also one made after the run read the listing or the service, is not among
-- those that the next delta run fetches, whatever that run finds listed.
pub change_during_run_is_skipped :
    (env : Environment) (since : Option ℕ) (listed : List CartaServiceListItem)
    (i : CartaServiceListItem) (modified : ℕ)
    → Completes env since
    → i.modified_at ≡ some modified
    → modified ≤ env.ended_at
    → (cursor_at (run_sync env since).1 ≡ some (cursor_of env))
      × ¬ IsIn i
          (filter_services_needing_detail listed (delta_since (cursor_at (run_sync env since).1)))
change_during_run_is_skipped env since listed i modified complete e old =
    let written = run_sync-Writes env since ((cursor_advances_iff env since).1 complete) in
    (
      written,
      subst (λ o. ¬ IsIn i (filter_services_needing_detail listed o))
          (sym (ap delta_since written ∙ current_version env))
          (kept_late env.ended_at listed i modified e old),
    )
